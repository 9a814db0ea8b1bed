-- ===== src/Validation/Nested.antt =====
-- The validators of the selector specs nested in a service spec, the schema markers of a spec's
-- callables, and the filters that share a name with a field of the body
-- (views/spec_validation.py; `writable_input_names` and `is_input` of service_specs/utils.py).
pub mod Accepts
use djangorestframework_serv.Prelude.{
  ℕ, suc, ◌+◌, String, ◌≡◌, refl, Bool, true, false, ◌&&◌, ◌||◌, not, Option, none, some, List, [],
  ◌∷◌, ◌++◌, any, keep, contains, if◌then◌else◌, is_some, is_empty, Result, ok, err, ◌>>◌,
  refuse_if, ◌==◌, Dict, for_each,
}
use djangorestframework_serv.Config.{
  Label, field, item, key, Config, Checked, list_output_of_one, no_instance_to_select,
  instance_kind, collection_kind, collection_without_selector, filters_named_like_fields,
  in_annotation_of,
}
use djangorestframework_serv.Annotations.Markers.{MarkedKeys, marked_input_keys}
use djangorestframework_serv.Callables.{Callable}
use djangorestframework_serv.Specs.{
  SelectorKind, is_list, Condition, row_condition, callable_condition, Affordance, declared,
  AffordanceSequence, PreconditionEntry, precondition, not_callable, Preconditions, preconditions,
  InputSerializer, DeclarerKey, text_key, other_key, DeclarerEntry, declarer, not_declarer,
  DeclarerMapping, declarer_mapping, not_mapping, SelectorSpec, ServiceSpec,
}
use djangorestframework_serv.Validation.Signature.{Offered, validate_callable_signature}
use djangorestframework_serv.Validation.Parts.{
  validate_selector_shaping, reject_ignored_nested_fields, reject_unrendered_affordances,
}

-- `if fn is not None: validate_callable_signature(fn, ...)`
unfoldable pub validate_selector_callable : Option Callable → Label → Offered → Checked
validate_selector_callable none label o = ok tt
validate_selector_callable (some fn) label o = validate_callable_signature fn label o

-- What a target lookup is handed: nothing of the call, and any extra from the providers.
abbrev pub lookup_offers : Option Callable → Offered
lookup_offers kwargs = record {
  has_data = false;
  has_instance = false;
  has_result = false;
  spec_kwargs = kwargs;
  permissive_extras = true;
  extra_known_keys = [];
}

unfoldable pub validate_output_selector_spec :
    SelectorSpec → Label → (has_collection : Bool) → Offered → Checked
unfolding reject_ignored_nested_fields validate_selector_shaping validate_selector_callable
validate_output_selector_spec output label has_collection o = do
  reject_ignored_nested_fields output label
  refuse_if (is_list output.kind && not has_collection) (list_output_of_one label)
  validate_selector_shaping output label
  validate_selector_callable output.selector (field label "selector") o

unfoldable pub validate_instance_selector_spec : SelectorSpec → Label → Bool → Checked
unfolding reject_ignored_nested_fields reject_unrendered_affordances validate_selector_shaping
    validate_selector_callable
validate_instance_selector_spec spec label has_instance = do
  reject_ignored_nested_fields spec label
  reject_unrendered_affordances spec label
  refuse_if (not has_instance) (no_instance_to_select label)
  refuse_if (is_list spec.kind) (instance_kind label)
  validate_selector_shaping spec label
  validate_selector_callable spec.selector (field label "selector") (lookup_offers spec.kwargs)

unfoldable pub validate_collection_selector_spec : SelectorSpec → Label → Checked
unfolding reject_ignored_nested_fields reject_unrendered_affordances validate_selector_shaping
    validate_selector_callable
validate_collection_selector_spec spec label = do
  reject_ignored_nested_fields spec label
  reject_unrendered_affordances spec label
  refuse_if (not (is_list spec.kind)) (collection_kind label)
  refuse_if (not (is_some spec.selector)) (collection_without_selector label)
  validate_selector_shaping spec label
  validate_selector_callable spec.selector (field label "selector") (lookup_offers spec.kwargs)

-- A callable whose signature is read for schema markers, under its place in the spec.
abbrev pub Placed : Type 0
Placed = Label × Callable

abbrev condition_callables : Label → Condition → List Placed
condition_callables label (row_condition e) = []
condition_callables label (callable_condition fn) = (field label "when", fn) ∷ []

-- `_callable_conditions`, from the index `i`
unfoldable pub callable_conditions : ℕ → List Affordance → Label → List Placed
callable_conditions i [] label = []
callable_conditions i (a ∷ rest) label =
    condition_callables (item (field label "affordances") i) a.when
    ++ callable_conditions (i + 1) rest label

abbrev precondition_callable : Label → PreconditionEntry → List Placed
precondition_callable label (precondition fn) = (label, fn) ∷ []
precondition_callable label (not_callable t) = []

unfoldable pub precondition_entries : ℕ → List PreconditionEntry → Label → List Placed
precondition_entries i [] label = []
precondition_entries i (entry ∷ rest) label =
    precondition_callable (item (field label "preconditions") i) entry
    ++ precondition_entries (i + 1) rest label

-- `enumerate(spec.preconditions or ())`, of a spec whose preconditions were validated
unfoldable pub precondition_callables : Option Preconditions → Label → List Placed
unfolding precondition_entries
precondition_callables (some (preconditions entries)) label = precondition_entries 0 entries label
precondition_callables _ label = []

abbrev declarer_conditions : DeclarerKey → DeclarerEntry → Label → List Placed
declarer_conditions (text_key name) (declarer affordances) label =
    callable_conditions 0 (declared affordances) (key (field label "affordances") name)
declarer_conditions _ _ label = []

unfoldable pub mapping_conditions : List (DeclarerKey × DeclarerEntry) → Label → List Placed
unfolding callable_conditions
mapping_conditions [] label = []
mapping_conditions ((name, entry) ∷ rest) label =
    declarer_conditions name entry label ++ mapping_conditions rest label

abbrev affordance_conditions : Option DeclarerMapping → Label → List Placed
affordance_conditions (some (declarer_mapping entries)) label = mapping_conditions entries label
affordance_conditions _ label = []

abbrev placed : Option Callable → Label → List Placed
placed none label = []
placed (some fn) label = (label, fn) ∷ []

-- `_marker_reading_callables` of a selector spec
unfoldable pub selector_callables : SelectorSpec → Label → List Placed
unfolding mapping_conditions precondition_callables
selector_callables spec label =
    placed spec.selector (field label "selector")
    ++ (affordance_conditions spec.affordances label
        ++ precondition_callables spec.preconditions label)

abbrev nested_callables : Option SelectorSpec → Label → List Placed
nested_callables none label = []
nested_callables (some spec) label = selector_callables spec label

-- `_marker_reading_callables` of a service spec
unfoldable pub service_callables : ServiceSpec → Label → List Placed
unfolding callable_conditions selector_callables
service_callables spec label =
    (field label "service", spec.service)
    ∷ (callable_conditions 0 (declared spec.affordances) label
        ++ (nested_callables spec.instance_selector_spec (field label "instance_selector_spec")
            ++ (nested_callables spec.collection_selector_spec
                  (field label "collection_selector_spec")
                ++ (nested_callables spec.output_selector_spec (field label "output_selector_spec")
                    ++ precondition_callables spec.preconditions label))))

abbrev pub under_label : Label → Config MarkedKeys → Checked
under_label label (ok found) = ok tt
under_label label (err e) = err (in_annotation_of label e)

unfoldable pub read_markers : Placed → Checked
unfolding marked_input_keys
read_markers p = under_label p.0 (marked_input_keys p.1)

unfoldable pub refuse_misplaced_schema_markers : List Placed → Checked
unfolding read_markers for_each
refuse_misplaced_schema_markers = for_each read_markers

-- One field of a serializer, as `is_input` reads it.
pub record FieldFlags : Type 0 where
  pub read_only : Bool
  pub is_hidden_field : Bool

unfoldable pub is_input : FieldFlags → Bool
is_input f = not (f.read_only || f.is_hidden_field)

abbrev field_names : List (String × FieldFlags) → List String
field_names [] = []
field_names ((name, f) ∷ fs) = name ∷ field_names fs

-- What the kernel and the serializers say of a declaration: the parameters of a filter set, and
-- the fields of a serializer, `none` where it cannot be described without a call.
pub record Descriptions : Type 0 where
  pub filter_set_parameters : String → List String
  pub described_fields : InputSerializer → Option (List (String × FieldFlags))

unfoldable pub writable_input_names : Descriptions → ServiceSpec → Option (List String)
unfolding keep is_input
writable_input_names d spec = elim spec.input_serializer [
  | none ↦ some []
  | some serializer ↦ if spec.many then some [] else elim (d.described_fields serializer) [
    | none ↦ none
    | some fields ↦ some (field_names (keep (λ f. is_input f.1) fields))
  ]
]

-- `spec.collection_selector_spec or spec.instance_selector_spec`
abbrev pub target_of : ServiceSpec → Option SelectorSpec
target_of spec = elim spec.collection_selector_spec [
  | none ↦ spec.instance_selector_spec
  | some collection ↦ some collection
]

abbrev pub target_filter_set : Option SelectorSpec → Option String
target_filter_set none = none
target_filter_set (some target) = target.filter_set

unfoldable pub shared_names : List String → List String → List String
unfolding keep contains
shared_names names writable = keep (λ name. contains name writable) names

abbrev pub refuse_shared : Label → List String → Option (List String) → Checked
refuse_shared label names none = ok tt
refuse_shared label names (some writable) =
    refuse_if (not (is_empty (shared_names names writable)))
      (filters_named_like_fields label (shared_names names writable))

abbrev pub refuse_filters_of : Descriptions → ServiceSpec → Label → Option String → Checked
refuse_filters_of d spec label none = ok tt
refuse_filters_of d spec label (some filter_set) =
    refuse_shared label (d.filter_set_parameters filter_set) (writable_input_names d spec)

unfoldable pub refuse_filters_named_like_fields : Descriptions → ServiceSpec → Label → Checked
unfolding writable_input_names shared_names
refuse_filters_named_like_fields d spec label =
    refuse_filters_of d spec label (target_filter_set (target_of spec))
