-- ===== src/Validation/Whole.antt =====
-- The validators of whole specs and of the classes they are declared on
-- (views/spec_validation.py, `validate_service_spec` to `validate_selector_view_spec`).
pub mod Accepts
pub mod Selectors
pub mod Variants
use djangorestframework_serv.Prelude.{
  ℕ, suc, ◌+◌, String, ◌≡◌, refl, Bool, true, false, ◌&&◌, ◌||◌, not, Option, none, some, List, [],
  ◌∷◌, ◌++◌, any, keep, contains, if◌then◌else◌, is_some, is_empty, Result, ok, err, ◌>>◌,
  refuse_if, ◌==◌, Dict, for_each, values,
}
use djangorestframework_serv.Config.{
  Label, named, field, item, key, Checked, no_variants, variant_not_a_service, variants_differ,
  unexpected_kind,
}
use djangorestframework_serv.Callables.{Callable}
use djangorestframework_serv.Specs.{
  SelectorKind, list, retrieve, is_list, PermissionEntry, permission_class, other_class,
  not_a_class, SelectorSpec, ServiceSpec, PolymorphicServiceSpec, PermissionStrategy, union,
  discriminate, require_identical, Variant, variant, not_variant,
}
use djangorestframework_serv.Validation.Signature.{Offered, validate_callable_signature}
use djangorestframework_serv.Validation.Parts.{
  ViewClass, validate_selector_shaping, validate_filter_set_no_backend_conflict,
  validate_permission_classes, validate_input_serializer, validate_preconditions,
  validate_row_affordances, validate_success_status, validate_response_finalizer,
}
use djangorestframework_serv.Validation.Nested.{
  validate_selector_callable, lookup_offers, validate_output_selector_spec,
  validate_instance_selector_spec, validate_collection_selector_spec, service_callables,
  selector_callables, refuse_misplaced_schema_markers, Descriptions,
  refuse_filters_named_like_fields,
}

-- What a service, its preconditions and (with a result) its output selector are handed.
abbrev pub service_offers : ServiceSpec → (has_instance permissive : Bool) → Offered
service_offers spec has_instance permissive = record {
  has_data = is_some spec.input_serializer;
  has_instance = has_instance;
  has_result = false;
  spec_kwargs = spec.kwargs;
  permissive_extras = permissive;
  extra_known_keys = if is_some spec.collection_selector_spec then "collection" ∷ [] else [];
}

abbrev pub output_offers : ServiceSpec → (has_instance permissive : Bool) → Offered
output_offers spec has_instance permissive = record {
  has_data = is_some spec.input_serializer;
  has_instance = has_instance;
  has_result = true;
  spec_kwargs = spec.kwargs;
  permissive_extras = permissive;
  extra_known_keys = [];
}

unfoldable pub validate_collection : Option SelectorSpec → Label → Checked
unfolding validate_collection_selector_spec
validate_collection none label = ok tt
validate_collection (some spec) label =
    validate_collection_selector_spec spec (field label "collection_selector_spec")

unfoldable pub validate_instance : Option SelectorSpec → Label → Bool → Checked
unfolding validate_instance_selector_spec
validate_instance none label has_instance = ok tt
validate_instance (some spec) label has_instance =
    validate_instance_selector_spec spec (field label "instance_selector_spec") has_instance

unfoldable pub validate_output : Option SelectorSpec → Label → Bool → Offered → Checked
unfolding validate_output_selector_spec
validate_output none label has_collection o = ok tt
validate_output (some spec) label has_collection o =
    validate_output_selector_spec spec (field label "output_selector_spec") has_collection o

-- `label`, `has_instance` and `permissive_extras` are the keyword arguments of the source.
unfoldable pub validate_service_spec : Descriptions → ServiceSpec → Label → Bool → Bool → Checked
unfolding validate_collection validate_instance validate_output
validate_service_spec d spec label has_instance permissive =
    let o = service_offers spec has_instance permissive in
    do
      validate_success_status spec.success_status label
      validate_response_finalizer spec.response_finalizer label
      validate_input_serializer spec.input_serializer label
      validate_permission_classes spec.permission_classes label
      validate_callable_signature spec.service label o
      validate_preconditions spec.preconditions label o
      validate_row_affordances spec.affordances label has_instance
      validate_collection spec.collection_selector_spec label
      validate_instance spec.instance_selector_spec label has_instance
      validate_output spec.output_selector_spec label (is_some spec.collection_selector_spec)
          (output_offers spec has_instance permissive)
      refuse_filters_named_like_fields d spec label
      refuse_misplaced_schema_markers (service_callables spec label)

abbrev pub same_entry : PermissionEntry → PermissionEntry → Bool
same_entry (permission_class a) (permission_class b) = a == b
same_entry (other_class a) (other_class b) = a == b
same_entry (not_a_class a) (not_a_class b) = a == b
same_entry _ _ = false

unfoldable pub same_entries : List PermissionEntry → List PermissionEntry → Bool
same_entries [] [] = true
same_entries (a ∷ as') (b ∷ bs) = same_entry a b && same_entries as' bs
same_entries _ _ = false

-- Equality of `None if v.permission_classes is None else tuple(v.permission_classes)`
unfoldable pub same_classes : Option (List PermissionEntry) → Option (List PermissionEntry) → Bool
unfolding same_entries
same_classes none none = true
same_classes (some as') (some bs) = same_entries as' bs
same_classes _ _ = false

abbrev pub variant_classes : List Variant → List (Option (List PermissionEntry))
variant_classes [] = []
variant_classes (variant spec ∷ vs) = spec.permission_classes ∷ variant_classes vs
variant_classes (not_variant t ∷ vs) = variant_classes vs

-- `len(distinct) > 1`, for the set `distinct` of the elements
unfoldable pub differ : List (Option (List PermissionEntry)) → Bool
unfolding any same_classes
differ [] = false
differ (c ∷ cs) = any (λ c'. not (same_classes c c')) cs

unfoldable pub validate_variants : Descriptions → Dict Variant → Label → Bool → Bool → Checked
validate_variants d [] label has_instance permissive = ok tt
validate_variants d ((name, not_variant t) ∷ vs) label has_instance permissive =
    err (variant_not_a_service (key label name))
validate_variants d ((name, variant spec) ∷ vs) label has_instance permissive =
    validate_service_spec d spec (key label name) has_instance permissive
    >> validate_variants d vs label has_instance permissive

abbrev pub is_require_identical : PermissionStrategy → Bool
is_require_identical require_identical = true
is_require_identical _ = false

unfoldable pub validate_polymorphic_service_spec :
    Descriptions → PolymorphicServiceSpec → Label → Bool → Bool → Checked
unfolding validate_variants differ
validate_polymorphic_service_spec d poly label has_instance permissive = do
  refuse_if (is_empty poly.specs) (no_variants label)
  validate_variants d poly.specs label has_instance permissive
  refuse_if
      (is_require_identical poly.permission_strategy
        && differ (variant_classes (values poly.specs)))
      (variants_differ label)

abbrev same_kind : SelectorKind → SelectorKind → Bool
same_kind list list = true
same_kind retrieve retrieve = true
same_kind _ _ = false

abbrev pub unexpected : Option SelectorKind → SelectorKind → Bool
unexpected none kind = false
unexpected (some expected) kind = not (same_kind kind expected)

-- What a selector's preconditions are handed: the row of a retrieve, the collection of a list.
abbrev pub selector_offers : SelectorSpec → Offered
selector_offers spec = record {
  has_data = false;
  has_instance = not (is_list spec.kind);
  has_result = false;
  spec_kwargs = spec.kwargs;
  permissive_extras = true;
  extra_known_keys = if is_list spec.kind then "collection" ∷ [] else [];
}

unfoldable pub validate_selector_spec : SelectorSpec → Label → Option SelectorKind → Checked
validate_selector_spec spec label expected_kind = do
  validate_permission_classes spec.permission_classes label
  validate_selector_shaping spec label
  refuse_if (unexpected expected_kind spec.kind) (unexpected_kind label)
  validate_preconditions spec.preconditions label (selector_offers spec)
  refuse_misplaced_schema_markers (selector_callables spec label)
  validate_selector_callable spec.selector label (lookup_offers spec.kwargs)

-- `permissive_extras` of a view is whether the class replaces `get_service_kwargs`.
unfoldable pub validate_mutation_view_spec :
    Descriptions → ViewClass → Option ServiceSpec → Bool → Checked
unfolding validate_service_spec
validate_mutation_view_spec d view none has_instance = ok tt
validate_mutation_view_spec d view (some spec) has_instance =
    validate_service_spec d spec (field (named view.class_name) "spec") has_instance
      view.overrides_service_kwargs

abbrev validate_listing : SelectorKind → ViewClass → SelectorSpec → Label → Checked
validate_listing list view spec label = validate_filter_set_no_backend_conflict view spec label
validate_listing retrieve view spec label = ok tt

unfoldable pub validate_selector_view_spec :
    ViewClass → Option SelectorSpec → SelectorKind → Checked
unfolding validate_selector_spec
validate_selector_view_spec view none expected_kind = ok tt
validate_selector_view_spec view (some spec) expected_kind =
    let label = field (named view.class_name) "spec" in
    do
      validate_selector_spec spec label (some expected_kind)
      validate_listing expected_kind view spec label
