-- ===== src/Validation/Whole/Accepts.antt =====
-- When a whole spec passes its validator, as conditions on its fields.
use djangorestframework_serv.Prelude.{
  keep-nil-contains, keep-eq-nil, String, ◌≡◌, refl, ap, sym, ◌∙◌, ◌↔◌, inl, inr, Bool, true, false,
  not, Option, none, some, List, [], ◌∷◌, some-inj, none-ne-some, is_some, is_empty, ok, arith, All,
  chain_iff, refuse_if_iff, contains, trans_iff, Result-cases,
}
use djangorestframework_serv.Config.{Label, field, filters_named_like_fields}
use djangorestframework_serv.Annotations.Markers.{MarkedKeys, marked_input_keys}
use djangorestframework_serv.Specs.{SelectorSpec, ServiceSpec}
use djangorestframework_serv.Validation.Signature.{Offered}
use djangorestframework_serv.Validation.Signature.Offers.{
  validate_callable_signature_iff, is_empty-nil,
}
use djangorestframework_serv.Validation.Parts.Accepts.{
  IsCallable, ArePermissions, permission_classes_iff, IsInput, input_serializer_iff,
  ArePreconditions, preconditions_iff, HaveARow, row_affordances_iff, IsStatus, success_status_iff,
  IsFinalizer, response_finalizer_iff,
}
use djangorestframework_serv.Validation.Nested.{
  Placed, service_callables, read_markers, refuse_misplaced_schema_markers, Descriptions,
  writable_input_names, target_of, target_filter_set, shared_names, refuse_shared,
  refuse_filters_of, refuse_filters_named_like_fields,
}
use djangorestframework_serv.Validation.Nested.Accepts.{
  IsOutput, IsInstanceLookup, IsCollectionLookup, validate_output_selector_spec_iff,
  instance_selector_spec_iff, collection_selector_spec_iff,
}
use djangorestframework_serv.Validation.Whole.{
  service_offers, output_offers, validate_collection, validate_instance, validate_output,
  validate_service_spec,
}

-- A nested spec, where one is set, satisfies `P`.
abbrev pub WhereSet : (SelectorSpec → Type 0) → Option SelectorSpec → Type 0
WhereSet P none = Unit
WhereSet P (some spec) = P spec

collection_iff :
    (o : Option SelectorSpec) (label : Label)
    → (validate_collection o label ≡ ok tt) ↔ WhereSet IsCollectionLookup o
unfolding validate_collection
collection_iff none label = (λ h. tt, λ h. refl)
collection_iff (some spec) label =
    collection_selector_spec_iff spec (field label "collection_selector_spec")

instance_iff :
    (o : Option SelectorSpec) (label : Label) (has_instance : Bool)
    → (validate_instance o label has_instance ≡ ok tt) ↔ WhereSet (IsInstanceLookup has_instance) o
unfolding validate_instance
instance_iff none label has_instance = (λ h. tt, λ h. refl)
instance_iff (some spec) label has_instance =
    instance_selector_spec_iff spec (field label "instance_selector_spec") has_instance

validate_output_iff :
    (o : Option SelectorSpec) (label : Label) (has_collection : Bool) (offered : Offered)
    → (validate_output o label has_collection offered ≡ ok tt)
      ↔ WhereSet (IsOutput offered has_collection) o
unfolding validate_output
validate_output_iff none label has_collection offered = (λ h. tt, λ h. refl)
validate_output_iff (some spec) label has_collection offered =
    validate_output_selector_spec_iff spec (field label "output_selector_spec") has_collection
      offered

-- The markers of a callable's annotations can be read.
abbrev pub IsReadable : Placed → Type 0
IsReadable p = (found : MarkedKeys) × (marked_input_keys p.1 ≡ ok found)

pub read_markers_iff : (p : Placed) → (read_markers p ≡ ok tt) ↔ IsReadable p
unfolding read_markers
read_markers_iff p = elim (Result-cases (marked_input_keys p.1)) [
  | inl (found, e) ↦ (λ h. (found, e), λ h. rw (e, read_markers))
  | inr (e, refused) ↦ (λ h. absurd (ground arith), λ h. rw (h.1, read_markers))
]

pub misplaced_markers_iff :
    (ps : List Placed) → (refuse_misplaced_schema_markers ps ≡ ok tt) ↔ All IsReadable ps
unfolding refuse_misplaced_schema_markers
misplaced_markers_iff [] = (λ h. tt, λ h. refl)
misplaced_markers_iff (p ∷ ps) = chain_iff (read_markers_iff p) (misplaced_markers_iff ps)

-- No parameter of the target's filter set is a name that the body writes.
abbrev pub FiltersApart : Descriptions → ServiceSpec → Type 0
FiltersApart d spec =
    (filter_set : String) (writable : List String)
    → target_filter_set (target_of spec) ≡ some filter_set
    → writable_input_names d spec ≡ some writable
    → (k : String) → contains k (d.filter_set_parameters filter_set) ≡ true
    → contains k writable ≡ false

refuse_shared_iff :
    (label : Label) (names : List String) (o : Option (List String))
    → (refuse_shared label names o ≡ ok tt) ↔ (
        (writable : List String)
        → o ≡ some writable
        → (k : String) → contains k names ≡ true
        → contains k writable ≡ false)
unfolding shared_names
refuse_shared_iff label names none = (λ h w e. absurd (none-ne-some e), λ h. refl)
refuse_shared_iff label names (some writable) =
    let (to, from) =
      refuse_if_iff (not (is_empty (shared_names names writable)))
        (filters_named_like_fields label (shared_names names writable)) in
    (
      λ h w e k m.
          ap (contains k) (sym (some-inj e))
          ∙ keep-nil-contains _ k names (is_empty-nil _ (to h)) m,
      λ h. from (rw (keep-eq-nil _ names (h writable refl))),
    )

filters_of_iff :
    (d : Descriptions) (spec : ServiceSpec) (label : Label) (o : Option String)
    → (refuse_filters_of d spec label o ≡ ok tt) ↔ (
        (filter_set : String) (writable : List String)
        → o ≡ some filter_set
        → writable_input_names d spec ≡ some writable
        → (k : String) → contains k (d.filter_set_parameters filter_set) ≡ true
        → contains k writable ≡ false)
filters_of_iff d spec label none = (λ h f w e. absurd (none-ne-some e), λ h. refl)
filters_of_iff d spec label (some filter_set) =
    let (to, from) =
      refuse_shared_iff label (d.filter_set_parameters filter_set) (writable_input_names d spec) in
    (
      λ h f w e n k m.
          to h w n k (ap (λ g. contains k (d.filter_set_parameters g)) (some-inj e) ∙ m),
      λ h. from (λ w n k m. h filter_set w refl n k m),
    )

refuse_filters_named_like_fields_iff :
    (d : Descriptions) (spec : ServiceSpec) (label : Label)
    → (refuse_filters_named_like_fields d spec label ≡ ok tt) ↔ FiltersApart d spec
unfolding refuse_filters_named_like_fields
refuse_filters_named_like_fields_iff d spec label =
    filters_of_iff d spec label (target_filter_set (target_of spec))

-- The conditions on a service spec for an action that targets a row or not, on a view that hands
-- over extra arguments or not.
pub record IsValidService (d : Descriptions) (has_instance permissive : Bool) (spec : ServiceSpec)
    : Type 0 where
  pub success_status : IsStatus spec.success_status
  pub response_finalizer : IsFinalizer spec.response_finalizer
  pub input_serializer : IsInput spec.input_serializer
  pub permission_classes : ArePermissions spec.permission_classes
  pub service : IsCallable (service_offers spec has_instance permissive) spec.service
  pub preconditions :
      ArePreconditions (service_offers spec has_instance permissive) spec.preconditions
  pub affordances : HaveARow has_instance spec.affordances
  pub collection : WhereSet IsCollectionLookup spec.collection_selector_spec
  pub instance_ : WhereSet (IsInstanceLookup has_instance) spec.instance_selector_spec
  pub output :
      WhereSet
        (IsOutput
          (output_offers spec has_instance permissive)
          (is_some spec.collection_selector_spec))
        spec.output_selector_spec
  pub filters : FiltersApart d spec

-- With the label that places each callable in the spec, the markers of all of them can be read.
abbrev pub AreReadable : List Placed → Type 0
AreReadable = All IsReadable

-- A service spec passes the validator exactly where every field of it, every nested selector spec,
-- every filter and every annotation satisfies its condition.
pub validate_service_spec_iff :
    (d : Descriptions) (spec : ServiceSpec) (label : Label) (has_instance permissive : Bool)
    → (validate_service_spec d spec label has_instance permissive ≡ ok tt)
      ↔ (IsValidService d has_instance permissive spec × AreReadable (service_callables spec label))
unfolding validate_service_spec
validate_service_spec_iff d spec label has_instance permissive =
    let o = service_offers spec has_instance permissive in
    trans_iff
      (chain_iff (success_status_iff spec.success_status label) (
        chain_iff (response_finalizer_iff spec.response_finalizer label) (
          chain_iff (input_serializer_iff spec.input_serializer label) (
            chain_iff (permission_classes_iff spec.permission_classes label) (
              chain_iff (validate_callable_signature_iff spec.service label o) (
                chain_iff (preconditions_iff spec.preconditions label o) (
                  chain_iff (row_affordances_iff spec.affordances label has_instance) (
                    chain_iff (collection_iff spec.collection_selector_spec label) (
                      chain_iff (instance_iff spec.instance_selector_spec label has_instance) (
                        chain_iff
                          (validate_output_iff spec.output_selector_spec label
                            (is_some spec.collection_selector_spec)
                            (output_offers spec has_instance permissive))
                          (chain_iff (refuse_filters_named_like_fields_iff d spec label)
                            (misplaced_markers_iff (service_callables spec label)))))))))))))
      (
        λ h. (
          record {
            success_status = h.0;
            response_finalizer = h.1.0;
            input_serializer = h.1.1.0;
            permission_classes = h.1.1.1.0;
            service = h.1.1.1.1.0;
            preconditions = h.1.1.1.1.1.0;
            affordances = h.1.1.1.1.1.1.0;
            collection = h.1.1.1.1.1.1.1.0;
            instance_ = h.1.1.1.1.1.1.1.1.0;
            output = h.1.1.1.1.1.1.1.1.1.0;
            filters = h.1.1.1.1.1.1.1.1.1.1.0;
          },
          h.1.1.1.1.1.1.1.1.1.1.1,
        ),
        λ (r, readable). (
          r.success_status,
          (
            r.response_finalizer,
            (
              r.input_serializer,
              (
                r.permission_classes,
                (
                  r.service,
                  (
                    r.preconditions,
                    (
                      r.affordances,
                      (r.collection, (r.instance_, (r.output, (r.filters, readable)))),
                    ),
                  ),
                ),
              ),
            ),
          ),
        ),
      )
