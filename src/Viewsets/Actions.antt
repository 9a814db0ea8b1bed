-- ===== src/Viewsets/Actions.antt =====
-- The spec that serves an action (viewsets/utils.py and
-- viewsets/resolve_polymorphic_service_spec.py).
use djangorestframework_serv.Prelude.{
  first_some, ℕ, String, Option, none, some, List, [], ◌∷◌, Dict, get, if◌then◌else◌, is_some,
  nat_eq, Result, ok, err,
}
use djangorestframework_serv.Callables.{Callable}
use djangorestframework_serv.Config.{
  ConfigError, named, key, not_a_service_spec, not_a_selector_spec, unknown_variant,
}
use djangorestframework_serv.Specs.{
  PermissionEntry, SelectorSpec, ServiceSpec, PolymorphicServiceSpec, Variant, variant,
}
use djangorestframework_serv.Validation.Parts.{ViewClass}
use djangorestframework_serv.Mutation.Errors.{ServiceError, ApiException, map_service_error}

-- A value of `action_specs`, with the identity of the object where the code reads it.
pub data ActionSpec : Type 0 where
  service_action : ServiceSpec → ActionSpec
  selector_action : SelectorSpec → ActionSpec
  polymorphic_action : (identity : ℕ) → PolymorphicServiceSpec → ActionSpec
  other_action : String → ActionSpec

-- A method of the view: what the decorators of the package stamped on it.
pub record Handler : Type 0 where
  pub service_spec : Option ServiceSpec
  pub selector_spec : Option SelectorSpec

-- A viewset: its class, `action_specs`, its methods and its own `permission_classes`.
pub record ActionView : Type 0 where
  pub class_ : ViewClass
  pub action_specs : Dict ActionSpec
  pub handlers : Dict Handler
  pub permission_classes : List PermissionEntry

-- What serving a request raises.
pub data RequestError : Type 0 where
  method_not_allowed : String → RequestError
  misconfigured : ConfigError → RequestError
  refused_by_project : ApiException → RequestError
  attribute_error : String → RequestError

-- `_ACTION_SPEC_FALLBACKS`
abbrev pub action_spec_fallbacks : Dict String
action_spec_fallbacks = ("partial_update", "update") ∷ []

abbrev pub through : Dict ActionSpec → Option String → Option ActionSpec
through specs none = none
through specs (some action) = get action specs

-- `resolve_action_spec_entry`
unfoldable pub resolve_action_spec_entry : Dict ActionSpec → Option String → Option ActionSpec
unfolding get
resolve_action_spec_entry specs none = none
resolve_action_spec_entry specs (some action) =
    first_some (get action specs) (through specs (get action action_spec_fallbacks))

abbrev stamped : Option Handler → Option ActionSpec
stamped none = none
stamped (some handler) = elim handler.service_spec [
  | some spec ↦ some (service_action spec)
  | none ↦ elim handler.selector_spec [ some spec ↦ some (selector_action spec) | none ↦ none ]
]

-- `resolve_action_spec`
unfoldable pub resolve_action_spec : ActionView → Option String → Option ActionSpec
unfolding resolve_action_spec_entry get
resolve_action_spec view none = none
resolve_action_spec view (some action) =
    first_some (resolve_action_spec_entry view.action_specs (some action))
      (stamped (get action view.handlers))

-- The choices that a view has made for its request, under the identity of each polymorphic spec.
abbrev pub Choices : Type 0
Choices = List (ℕ × Variant)

unfoldable pub chosen_before : ℕ → Choices → Option Variant
chosen_before n [] = none
chosen_before n ((m, v) ∷ choices) = if nat_eq m n then some v else chosen_before n choices

-- A discriminator is project code: it answers a key for the request, or raises. It may answer
-- otherwise when it is asked again.
abbrev pub Discriminate : Type 0
Discriminate = Callable → Result ServiceError String

abbrev pub known_choice :
    ℕ → String → Choices → Option Variant → Result RequestError (Variant × Choices)
known_choice identity key' choices none = err (misconfigured (unknown_variant key'))
known_choice identity key' choices (some v) = ok (v, (identity, v) ∷ choices)

abbrev pub choice_of :
    ℕ
    → Dict Variant
    → Result ServiceError String
    → Choices
    → Result RequestError (Variant × Choices)
choice_of identity specs (err e) choices = err (refused_by_project (map_service_error e))
choice_of identity specs (ok key') choices = known_choice identity key' choices (get key' specs)

abbrev pub choose :
    ℕ
    → Dict Variant
    → Result ServiceError String
    → Choices
    → Option Variant
    → Result RequestError (Variant × Choices)
choose identity specs answered choices (some v) = ok (v, choices)
choose identity specs answered choices none = choice_of identity specs answered choices

-- `resolve_polymorphic_service_spec`, with the view's cache before and after.
unfoldable pub resolve_polymorphic_service_spec :
    Discriminate → ℕ → PolymorphicServiceSpec → Choices → Result RequestError (Variant × Choices)
unfolding get chosen_before map_service_error
resolve_polymorphic_service_spec discriminate identity poly choices =
    choose identity poly.specs (discriminate poly.discriminator) choices
      (chosen_before identity choices)

abbrev pub served_by :
    Discriminate
    → Choices
    → (action method : String) → Option ActionSpec
    → Result RequestError (Variant × Choices)
served_by discriminate choices action method none = err (method_not_allowed method)
served_by discriminate choices action method (some (polymorphic_action identity poly)) =
    resolve_polymorphic_service_spec discriminate identity poly choices
served_by discriminate choices action method (some (service_action spec)) =
    ok (variant spec, choices)
served_by discriminate choices action method (some _) =
    err (misconfigured (not_a_service_spec (key (named "action_specs") action)))

-- `resolve_action_service_spec`
unfoldable pub resolve_action_service_spec :
    Discriminate
    → Dict ActionSpec
    → (action method : String) → Choices
    → Result RequestError (Variant × Choices)
unfolding resolve_action_spec_entry resolve_polymorphic_service_spec
resolve_action_service_spec discriminate specs action method choices =
    served_by discriminate choices action method (resolve_action_spec_entry specs (some action))

abbrev runnable : String → Option ActionSpec → Result RequestError (Option SelectorSpec)
runnable action none = ok none
runnable action (some (selector_action spec)) =
    ok (if is_some spec.selector then some spec else none)
runnable action (some _) =
    err (misconfigured (not_a_selector_spec (key (named "action_specs") action)))

-- `resolve_action_selector_spec`
unfoldable pub resolve_action_selector_spec :
    Dict ActionSpec → String → Result RequestError (Option SelectorSpec)
unfolding get
resolve_action_selector_spec specs action = runnable action (get action specs)
