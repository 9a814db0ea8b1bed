-- ===== src/Validation/Nested/Accepts.antt =====
-- When a nested selector spec passes its validator.
use mathlib.Core.Bool.{false≢true}
use djangorestframework_serv.Prelude.{
  ◌≡◌, refl, ◌↔◌, Bool, true, false, ◌&&◌, not, Option, none, some, is_some, ok, chain_iff,
  refuse_if_iff, not-false_iff, trans_iff,
}
use djangorestframework_serv.Config.{
  Label, field, nested_preconditions, nested_progress_reporter, nested_permission_classes,
  unrendered_affordances, no_instance_to_select, instance_kind, collection_kind,
  collection_without_selector, list_output_of_one,
}
use djangorestframework_serv.Callables.{Callable}
use djangorestframework_serv.Specs.{SelectorSpec, is_list}
use djangorestframework_serv.Validation.Signature.{Offered}
use djangorestframework_serv.Validation.Signature.Offers.{validate_callable_signature_iff}
use djangorestframework_serv.Validation.Parts.{
  reject_ignored_nested_fields, reject_unrendered_affordances,
}
use djangorestframework_serv.Validation.Parts.Accepts.{
  IsCallable, ShapesASelector, selector_shaping_iff,
}
use djangorestframework_serv.Validation.Nested.{
  validate_selector_callable, lookup_offers, validate_output_selector_spec,
  validate_instance_selector_spec, validate_collection_selector_spec,
}

-- The fields that dispatch ignores on a nested spec are not set.
abbrev pub IsNested : SelectorSpec → Type 0
IsNested spec =
    (is_some spec.preconditions ≡ false)
    × ((is_some spec.progress_reporter ≡ false) × (is_some spec.permission_classes ≡ false))

abbrev pub IsSelector : Offered → Option Callable → Type 0
IsSelector o none = Unit
IsSelector o (some fn) = IsCallable o fn

reject_ignored_nested_fields_iff :
    (spec : SelectorSpec) (label : Label)
    → (reject_ignored_nested_fields spec label ≡ ok tt) ↔ IsNested spec
unfolding reject_ignored_nested_fields
reject_ignored_nested_fields_iff spec label =
    chain_iff (refuse_if_iff (is_some spec.preconditions) (nested_preconditions label)) (
      chain_iff (refuse_if_iff (is_some spec.progress_reporter) (nested_progress_reporter label))
        (refuse_if_iff (is_some spec.permission_classes) (nested_permission_classes label)))

pub validate_selector_callable_iff :
    (selector : Option Callable) (label : Label) (o : Offered)
    → (validate_selector_callable selector label o ≡ ok tt) ↔ IsSelector o selector
unfolding validate_selector_callable
validate_selector_callable_iff none label o = (λ h. tt, λ h. refl)
validate_selector_callable_iff (some fn) label o = validate_callable_signature_iff fn label o

-- The conditions on the spec that renders the result of a service.
pub record IsOutput (o : Offered) (has_collection : Bool) (spec : SelectorSpec) : Type 0 where
  pub nested : IsNested spec
  pub kind : is_list spec.kind ≡ true → has_collection ≡ true
  pub shaped : ShapesASelector spec
  pub selector : IsSelector o spec.selector

-- On the lookup of one row.
pub record IsInstanceLookup (has_instance : Bool) (spec : SelectorSpec) : Type 0 where
  pub nested : IsNested spec
  pub unrendered : is_some spec.affordances ≡ false
  pub targets : has_instance ≡ true
  pub kind : is_list spec.kind ≡ false
  pub shaped : ShapesASelector spec
  pub selector : IsSelector (lookup_offers spec.kwargs) spec.selector

-- On the lookup of a set of rows, which needs its selector.
pub record IsCollectionLookup (spec : SelectorSpec) : Type 0 where
  pub nested : IsNested spec
  pub unrendered : is_some spec.affordances ≡ false
  pub kind : is_list spec.kind ≡ true
  pub set : is_some spec.selector ≡ true
  pub shaped : ShapesASelector spec
  pub selector : IsSelector (lookup_offers spec.kwargs) spec.selector

unrendered_affordances_iff :
    (spec : SelectorSpec) (label : Label)
    → (reject_unrendered_affordances spec label ≡ ok tt) ↔ (is_some spec.affordances ≡ false)
unfolding reject_unrendered_affordances
unrendered_affordances_iff spec label =
    refuse_if_iff (is_some spec.affordances) (unrendered_affordances label)

list_needs_collection : (b c : Bool) → ((b && not c) ≡ false) ↔ (b ≡ true → c ≡ true)
list_needs_collection true c = (λ h _. (not-false_iff c).0 h, λ f. (not-false_iff c).1 (f refl))
list_needs_collection false c = (λ h e. absurd (false≢true e), λ h. refl)

pub validate_output_selector_spec_iff :
    (spec : SelectorSpec) (label : Label) (has_collection : Bool) (o : Offered)
    → (validate_output_selector_spec spec label has_collection o ≡ ok tt)
      ↔ IsOutput o has_collection spec
unfolding validate_output_selector_spec
validate_output_selector_spec_iff spec label has_collection o =
    trans_iff
      (chain_iff (reject_ignored_nested_fields_iff spec label) (
        chain_iff
          (trans_iff
            (refuse_if_iff (is_list spec.kind && not has_collection) (list_output_of_one label))
            (list_needs_collection (is_list spec.kind) has_collection))
          (chain_iff (selector_shaping_iff spec label)
            (validate_selector_callable_iff spec.selector (field label "selector") o))))
      (
        λ h. record { nested = h.0; kind = h.1.0; shaped = h.1.1.0; selector = h.1.1.1 },
        λ r. (r.nested, (r.kind, (r.shaped, r.selector))),
      )

pub instance_selector_spec_iff :
    (spec : SelectorSpec) (label : Label) (has_instance : Bool)
    → (validate_instance_selector_spec spec label has_instance ≡ ok tt)
      ↔ IsInstanceLookup has_instance spec
unfolding validate_instance_selector_spec
instance_selector_spec_iff spec label has_instance =
    trans_iff
      (chain_iff (reject_ignored_nested_fields_iff spec label) (
        chain_iff (unrendered_affordances_iff spec label) (
          chain_iff
            (trans_iff (refuse_if_iff (not has_instance) (no_instance_to_select label))
              (not-false_iff has_instance))
            (chain_iff (refuse_if_iff (is_list spec.kind) (instance_kind label)) (
              chain_iff (selector_shaping_iff spec label) (
                validate_selector_callable_iff spec.selector (field label "selector")
                  (lookup_offers spec.kwargs)))))))
      (
        λ h. record {
          nested = h.0;
          unrendered = h.1.0;
          targets = h.1.1.0;
          kind = h.1.1.1.0;
          shaped = h.1.1.1.1.0;
          selector = h.1.1.1.1.1;
        },
        λ r. (r.nested, (r.unrendered, (r.targets, (r.kind, (r.shaped, r.selector))))),
      )

pub collection_selector_spec_iff :
    (spec : SelectorSpec) (label : Label)
    → (validate_collection_selector_spec spec label ≡ ok tt) ↔ IsCollectionLookup spec
unfolding validate_collection_selector_spec
collection_selector_spec_iff spec label =
    trans_iff
      (chain_iff (reject_ignored_nested_fields_iff spec label) (
        chain_iff (unrendered_affordances_iff spec label) (
          chain_iff
            (trans_iff (refuse_if_iff (not (is_list spec.kind)) (collection_kind label))
              (not-false_iff (is_list spec.kind)))
            (chain_iff
              (trans_iff
                (refuse_if_iff (not (is_some spec.selector)) (collection_without_selector label))
                (not-false_iff (is_some spec.selector)))
              (chain_iff (selector_shaping_iff spec label) (
                validate_selector_callable_iff spec.selector (field label "selector")
                  (lookup_offers spec.kwargs)))))))
      (
        λ h. record {
          nested = h.0;
          unrendered = h.1.0;
          kind = h.1.1.0;
          set = h.1.1.1.0;
          shaped = h.1.1.1.1.0;
          selector = h.1.1.1.1.1;
        },
        λ r. (r.nested, (r.unrendered, (r.kind, (r.set, (r.shaped, r.selector))))),
      )
