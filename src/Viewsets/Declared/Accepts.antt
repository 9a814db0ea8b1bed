-- ===== src/Viewsets/Declared/Accepts.antt =====
-- When a viewset can be mounted, and what that says of the spec that serves a mutation.
use djangorestframework_serv.Prelude.{
  String, ◌≡◌, refl, ◌↔◌, Bool, true, false, Option, none, some, [], ◌∷◌, Dict, get, ok, chain_iff,
  arith, is_empty, ◌&&◌, is_some,
}
use djangorestframework_serv.Config.{Label}
use djangorestframework_serv.Specs.{
  SelectorKind, list, retrieve, SelectorSpec, PolymorphicServiceSpec,
}
use djangorestframework_serv.Validation.Parts.{
  ViewClass, uses_django_filter_backend, validate_filter_set_no_backend_conflict,
}
use djangorestframework_serv.Validation.Nested.{Descriptions, service_callables, selector_callables}
use djangorestframework_serv.Validation.Whole.Accepts.{
  IsValidService, AreReadable, validate_service_spec_iff,
}
use djangorestframework_serv.Validation.Whole.Selectors.{
  IsValidSelector, validate_selector_spec_iff,
}
use djangorestframework_serv.Validation.Whole.Variants.{
  AreVariants, ArePermittedAlike, validate_polymorphic_service_spec_iff,
}
use djangorestframework_serv.Viewsets.Actions.{
  ActionSpec, service_action, selector_action, polymorphic_action, other_action, ActionView,
}
use djangorestframework_serv.Viewsets.Declared.{
  mutation_actions, selector_action_kind, mutation_extras_are_permissive,
  validate_mutation_action_spec, validate_selector_action_spec, validate_custom_action_spec,
  no_second_filter, validated_as, action_label, validate_action_spec, validate_action_specs,
  as_view,
}

abbrev pub IsValidPolymorphic : Descriptions → Bool → Bool → Label → PolymorphicServiceSpec → Type 0
IsValidPolymorphic d has_instance permissive label poly =
    (is_empty poly.specs ≡ false)
    × (AreVariants d has_instance permissive label poly.specs × ArePermittedAlike poly)

abbrev pub IsServing : Descriptions → Bool → Bool → Label → ActionSpec → Type 0
IsServing d has_instance permissive label (service_action spec) =
    IsValidService d has_instance permissive spec × AreReadable (service_callables spec label)
IsServing d has_instance permissive label (polymorphic_action identity poly) =
    IsValidPolymorphic d has_instance permissive label poly
IsServing d has_instance permissive label _ = ⊥

abbrev pub IsSelecting : ViewClass → Label → Option SelectorKind → ActionSpec → Type 0
IsSelecting view label none (selector_action spec) =
    IsValidSelector none spec × AreReadable (selector_callables spec label)
IsSelecting view label (some kind) (selector_action spec) =
    (IsValidSelector (some kind) spec × AreReadable (selector_callables spec label))
    × (kind ≡ list → (is_some spec.filter_set && uses_django_filter_backend view) ≡ false)
IsSelecting view label kind _ = ⊥

-- The condition on the spec of a custom action: a mutation of a row, or a selector of any kind.
abbrev pub IsCustom : Descriptions → ViewClass → Bool → Label → ActionSpec → Type 0
IsCustom d view permissive label (selector_action spec) =
    IsSelecting view label none (selector_action spec)
IsCustom d view permissive label spec = IsServing d true permissive label spec

-- The condition on the spec of an action, by the action's entry in the two tables.
abbrev pub IsFor :
    Descriptions
    → ViewClass
    → Bool
    → Label
    → Option Bool
    → Option SelectorKind
    → ActionSpec
    → Type 0
IsFor d view permissive label (some has_instance) kind spec =
    IsServing d has_instance permissive label spec
IsFor d view permissive label none (some kind) spec = IsSelecting view label (some kind) spec
IsFor d view permissive label none none spec = IsCustom d view permissive label spec

abbrev pub IsDeclared : Descriptions → ViewClass → String → ActionSpec → Type 0
IsDeclared d view action spec =
    IsFor d view (mutation_extras_are_permissive view action) (action_label view action)
      (get action mutation_actions) (get action selector_action_kind) spec

abbrev pub AreDeclaredActions : Descriptions → ViewClass → Dict ActionSpec → Type 0
AreDeclaredActions d view [] = Unit
AreDeclaredActions d view ((action, spec) ∷ rest) =
    IsDeclared d view action spec × AreDeclaredActions d view rest

validate_mutation_action_spec_iff :
    (d : Descriptions) (view : ViewClass) (has_instance : Bool) (action : String)
    (spec : ActionSpec) (label : Label)
    → (validate_mutation_action_spec d view has_instance action spec label ≡ ok tt)
      ↔ IsServing d has_instance (mutation_extras_are_permissive view action) label spec
unfolding validate_mutation_action_spec
validate_mutation_action_spec_iff d view has_instance action (service_action spec) label =
    validate_service_spec_iff d spec label has_instance _
validate_mutation_action_spec_iff d view has_instance action (polymorphic_action identity poly)
      label =
    validate_polymorphic_service_spec_iff d poly label has_instance _
validate_mutation_action_spec_iff d view has_instance action (selector_action spec) label =
    (λ h. cc, λ h. absurd h)
validate_mutation_action_spec_iff d view has_instance action (other_action t) label =
    (λ h. cc, λ h. absurd h)

second_filter_iff :
    (kind : SelectorKind) (view : ViewClass) (spec : SelectorSpec) (label : Label)
    → (no_second_filter kind view spec label ≡ ok tt)
      ↔ (kind ≡ list → (is_some spec.filter_set && uses_django_filter_backend view) ≡ false)
unfolding validate_filter_set_no_backend_conflict
second_filter_iff list view spec label =
    (λ h same. ground arith, λ h. let one = h refl in ground arith)
second_filter_iff retrieve view spec label = (λ h same. absurd (cc), λ h. refl)

validate_selector_action_spec_iff :
    (view : ViewClass) (kind : SelectorKind) (spec : ActionSpec) (label : Label)
    → (validate_selector_action_spec view kind spec label ≡ ok tt)
      ↔ IsSelecting view label (some kind) spec
unfolding validate_selector_action_spec
validate_selector_action_spec_iff view kind (selector_action spec) label =
    chain_iff (validate_selector_spec_iff spec label (some kind))
      (second_filter_iff kind view spec label)
validate_selector_action_spec_iff view kind (service_action spec) label = (λ h. cc, λ h. absurd h)
validate_selector_action_spec_iff view kind (polymorphic_action identity poly) label =
    (λ h. cc, λ h. absurd h)
validate_selector_action_spec_iff view kind (other_action t) label = (λ h. cc, λ h. absurd h)

validate_custom_action_spec_iff :
    (d : Descriptions) (view : ViewClass) (action : String) (spec : ActionSpec) (label : Label)
    → (validate_custom_action_spec d view action spec label ≡ ok tt)
      ↔ IsCustom d view (mutation_extras_are_permissive view action) label spec
unfolding validate_custom_action_spec
validate_custom_action_spec_iff d view action (service_action spec) label =
    validate_service_spec_iff d spec label true _
validate_custom_action_spec_iff d view action (polymorphic_action identity poly) label =
    validate_polymorphic_service_spec_iff d poly label true _
validate_custom_action_spec_iff d view action (selector_action spec) label =
    validate_selector_spec_iff spec label none
validate_custom_action_spec_iff d view action (other_action t) label = (λ h. cc, λ h. absurd h)

validated_as_iff :
    (d : Descriptions) (view : ViewClass) (action : String) (spec : ActionSpec) (label : Label)
    (row : Option Bool) (kind : Option SelectorKind)
    → (validated_as d view action spec label row kind ≡ ok tt)
      ↔ IsFor d view (mutation_extras_are_permissive view action) label row kind spec
validated_as_iff d view action spec label (some has_instance) kind =
    validate_mutation_action_spec_iff d view has_instance action spec label
validated_as_iff d view action spec label none (some kind) =
    validate_selector_action_spec_iff view kind spec label
validated_as_iff d view action spec label none none =
    validate_custom_action_spec_iff d view action spec label

action_specs_iff :
    (d : Descriptions) (view : ViewClass) (specs : Dict ActionSpec)
    → (validate_action_specs d view specs ≡ ok tt) ↔ AreDeclaredActions d view specs
unfolding validate_action_specs validate_action_spec
action_specs_iff d view [] = (λ h. tt, λ h. refl)
action_specs_iff d view ((action, spec) ∷ rest) =
    chain_iff
      (validated_as_iff d view action spec (action_label view action) (get action mutation_actions)
        (get action selector_action_kind))
      (action_specs_iff d view rest)

-- A viewset is mounted exactly where each action's spec is of the action's sort and valid there: a
-- mutation's is a service spec or a polymorphic one that is handed a row where the action has one,
-- a list's or a retrieve's is a selector spec of that kind that is filtered once, and any other
-- action's is either.
pub as_view_iff :
    (d : Descriptions) (view : ActionView)
    → (as_view d view ≡ ok tt) ↔ AreDeclaredActions d view.class_ view.action_specs
unfolding as_view
as_view_iff d view = action_specs_iff d view.class_ view.action_specs
