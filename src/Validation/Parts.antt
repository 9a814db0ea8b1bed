-- ===== src/Validation/Parts.antt =====
-- The validators of one field of a spec (views/spec_validation.py, `_has_any_shaping` to
-- `_reject_unrendered_affordances`, `_validate_success_status`, `_validate_response_finalizer`).
pub mod Accepts
use djangorestframework_serv.Prelude.{
  ℕ, suc, ◌+◌, String, ◌≡◌, refl, Bool, true, false, ◌&&◌, ◌||◌, not, Option, none, some, List, [],
  ◌∷◌, ◌++◌, any, keep, contains, if◌then◌else◌, is_some, is_empty, ok, err, ◌>>◌, refuse_if, ◌==◌,
}
use djangorestframework_serv.Config.{
  Label, field, item, Checked, shaping_without_selector, filtered_twice, not_a_permission,
  bad_input_serializer, single_precondition, preconditions_not_iterable, precondition_not_callable,
  row_affordance_without_row, nested_preconditions, nested_progress_reporter,
  nested_permission_classes, unrendered_affordances, bad_success_status, success_status_unknown,
  bad_response_finalizer, response_finalizer_unknown,
}
use djangorestframework_serv.Callables.{Callable, required_kw_params, accepts_var_keyword}
use djangorestframework_serv.Specs.{
  Affordance, is_row_condition, declared, AffordanceSequence, PermissionEntry, permission_class,
  other_class, not_a_class, InputSerializer, other_input, serializer_class, dataclass_type,
  PreconditionEntry, precondition, not_callable, Preconditions, one_callable, text, not_iterable,
  preconditions, SuccessStatus, status_code, status_callable, other_status, Finalizer,
  finalizer_callable, other_finalizer, SelectorSpec,
}
use djangorestframework_serv.Validation.Signature.{Offered, validate_callable_signature}

unfoldable pub has_any_shaping : SelectorSpec → Bool
has_any_shaping spec =
    is_some spec.select_related
    || is_some spec.prefetch_related
    || is_some spec.annotations
    || is_some spec.extend_queryset
    || is_some spec.filter_set
    || is_some spec.affordances

unfoldable pub validate_selector_shaping : SelectorSpec → Label → Checked
unfolding has_any_shaping
validate_selector_shaping spec label =
    refuse_if (not (is_some spec.selector) && has_any_shaping spec) (shaping_without_selector label)

-- A view class, as the validators read it: the class names in each filter backend's method
-- resolution order, and whether a subclass replaced or added the hooks for extra arguments.
pub record ViewClass : Type 0 where
  pub class_name : String
  pub filter_backends : List (List String)
  pub overrides_service_kwargs : Bool
  pub service_kwargs_actions : List String

unfoldable pub uses_django_filter_backend : ViewClass → Bool
unfolding any contains
uses_django_filter_backend view = any (contains "DjangoFilterBackend") view.filter_backends

unfoldable pub validate_filter_set_no_backend_conflict : ViewClass → SelectorSpec → Label → Checked
unfolding uses_django_filter_backend
validate_filter_set_no_backend_conflict view spec label =
    if not (is_some spec.filter_set) || not (uses_django_filter_backend view)
    then ok tt
    else err (filtered_twice label)

abbrev is_permission_class : PermissionEntry → Bool
is_permission_class (permission_class name) = true
is_permission_class _ = false

unfoldable pub validate_permission_entries : List PermissionEntry → Label → Checked
validate_permission_entries [] label = ok tt
validate_permission_entries (entry ∷ rest) label =
    refuse_if (not (is_permission_class entry)) (not_a_permission label)
    >> validate_permission_entries rest label

unfoldable pub validate_permission_classes : Option (List PermissionEntry) → Label → Checked
unfolding validate_permission_entries
validate_permission_classes none label = ok tt
validate_permission_classes (some entries) label = validate_permission_entries entries label

unfoldable pub validate_input_serializer : Option InputSerializer → Label → Checked
validate_input_serializer (some (other_input value)) label = err (bad_input_serializer label)
validate_input_serializer _ label = ok tt

-- The loop of `_validate_preconditions`, from the index `i`.
unfoldable pub validate_precondition_entries :
    ℕ → List PreconditionEntry → Label → Offered → Checked
validate_precondition_entries i [] label o = ok tt
validate_precondition_entries i (not_callable t ∷ rest) label o =
    err (precondition_not_callable label i)
validate_precondition_entries i (precondition fn ∷ rest) label o =
    validate_callable_signature fn (item (field label "preconditions") i) o
    >> validate_precondition_entries (i + 1) rest label o

-- A precondition is never handed a result.
unfoldable pub validate_preconditions : Option Preconditions → Label → Offered → Checked
unfolding validate_precondition_entries
validate_preconditions none label o = ok tt
validate_preconditions (some (one_callable fn)) label o = err (single_precondition label)
validate_preconditions (some (text t)) label o = err (single_precondition label)
validate_preconditions (some (not_iterable t)) label o = err (preconditions_not_iterable label)
validate_preconditions (some (preconditions entries)) label o =
    validate_precondition_entries 0 entries label (record o { has_result = false })

unfoldable pub validate_row_conditions : ℕ → List Affordance → Label → Checked
unfolding is_row_condition
validate_row_conditions i [] label = ok tt
validate_row_conditions i (a ∷ rest) label =
    refuse_if (is_row_condition a.when) (row_affordance_without_row label i)
    >> validate_row_conditions (i + 1) rest label

unfoldable pub validate_row_affordances : Option AffordanceSequence → Label → Bool → Checked
unfolding validate_row_conditions
validate_row_affordances affordances label has_instance =
    if has_instance then ok tt else validate_row_conditions 0 (declared affordances) label

unfoldable pub reject_ignored_nested_fields : SelectorSpec → Label → Checked
reject_ignored_nested_fields nested label = do
  refuse_if (is_some nested.preconditions) (nested_preconditions label)
  refuse_if (is_some nested.progress_reporter) (nested_progress_reporter label)
  refuse_if (is_some nested.permission_classes) (nested_permission_classes label)

unfoldable pub reject_unrendered_affordances : SelectorSpec → Label → Checked
reject_unrendered_affordances nested label =
    refuse_if (is_some nested.affordances) (unrendered_affordances label)

abbrev pub success_status_keys : List String
success_status_keys = "result" ∷ "instance" ∷ "request" ∷ "view" ∷ []

abbrev pub response_finalizer_keys : List String
response_finalizer_keys = "response" ∷ "result" ∷ "request" ∷ "view" ∷ "instance" ∷ "data" ∷ []

-- `set(_required_kw_params(fn)) - keys`, and whether the callable needs anything of it
unfoldable pub needs_beyond : List String → Callable → Bool
unfolding accepts_var_keyword required_kw_params keep contains
needs_beyond allowed fn =
    not (accepts_var_keyword fn)
    && not (is_empty (keep (λ name. not (contains name allowed)) (required_kw_params fn)))

unfoldable pub validate_success_status : Option SuccessStatus → Label → Checked
unfolding needs_beyond
validate_success_status none label = ok tt
validate_success_status (some (status_code n)) label = ok tt
validate_success_status (some (other_status t)) label = err (bad_success_status label)
validate_success_status (some (status_callable fn)) label =
    refuse_if (needs_beyond success_status_keys fn) (success_status_unknown label)

unfoldable pub validate_response_finalizer : Option Finalizer → Label → Checked
unfolding needs_beyond
validate_response_finalizer none label = ok tt
validate_response_finalizer (some (other_finalizer t)) label = err (bad_response_finalizer label)
validate_response_finalizer (some (finalizer_callable fn)) label =
    refuse_if (needs_beyond response_finalizer_keys fn) (response_finalizer_unknown label)
