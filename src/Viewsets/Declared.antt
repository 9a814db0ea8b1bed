-- ===== src/Viewsets/Declared.antt =====
-- The check of `action_specs` when a viewset is mounted: `as_view` of viewsets/utils.py.
pub mod Accepts
pub mod Served
use djangorestframework_serv.Prelude.{
  String, Bool, true, false, ◌||◌, Option, none, some, List, [], ◌∷◌, Dict, get, contains,
  if◌then◌else◌, Result, ok, err, ◌>>◌,
}
use djangorestframework_serv.Config.{
  Label, named, field, key, Checked, not_a_service_spec, not_a_selector_spec, not_an_action_spec,
}
use djangorestframework_serv.Specs.{
  SelectorKind, list, retrieve, SelectorSpec, ServiceSpec, PolymorphicServiceSpec,
}
use djangorestframework_serv.Validation.Parts.{ViewClass, validate_filter_set_no_backend_conflict}
use djangorestframework_serv.Validation.Nested.{Descriptions}
use djangorestframework_serv.Validation.Whole.{
  validate_service_spec, validate_polymorphic_service_spec, validate_selector_spec,
}
use djangorestframework_serv.Viewsets.Actions.{
  ActionSpec, service_action, selector_action, polymorphic_action, other_action, ActionView,
}

-- `_MUTATION_ACTIONS`: whether each action acts on a row.
abbrev pub mutation_actions : Dict Bool
mutation_actions =
    ("create", false) ∷ ("update", true) ∷ ("partial_update", true) ∷ ("destroy", true) ∷ []

-- `_SELECTOR_ACTION_KIND`
abbrev pub selector_action_kind : Dict SelectorKind
selector_action_kind = ("list", list) ∷ ("retrieve", retrieve) ∷ []

-- `_mutation_extras_are_permissive`
unfoldable pub mutation_extras_are_permissive : ViewClass → String → Bool
unfolding contains
mutation_extras_are_permissive view action =
    view.overrides_service_kwargs || contains action view.service_kwargs_actions

-- `_validate_mutation_action_spec`, for an action that acts on a row or not.
unfoldable pub validate_mutation_action_spec :
    Descriptions → ViewClass → Bool → String → ActionSpec → Label → Checked
unfolding validate_service_spec validate_polymorphic_service_spec mutation_extras_are_permissive
validate_mutation_action_spec d view has_instance action (polymorphic_action identity poly) label =
    validate_polymorphic_service_spec d poly label has_instance
      (mutation_extras_are_permissive view action)
validate_mutation_action_spec d view has_instance action (service_action spec) label =
    validate_service_spec d spec label has_instance (mutation_extras_are_permissive view action)
validate_mutation_action_spec d view has_instance action _ label = err (not_a_service_spec label)

abbrev pub no_second_filter : SelectorKind → ViewClass → SelectorSpec → Label → Checked
no_second_filter list view spec label = validate_filter_set_no_backend_conflict view spec label
no_second_filter retrieve view spec label = ok tt

-- `_validate_selector_action_spec`, for an action of this kind.
unfoldable pub validate_selector_action_spec :
    ViewClass → SelectorKind → ActionSpec → Label → Checked
unfolding validate_selector_spec validate_filter_set_no_backend_conflict
validate_selector_action_spec view kind (selector_action spec) label =
    validate_selector_spec spec label (some kind) >> no_second_filter kind view spec label
validate_selector_action_spec view kind _ label = err (not_a_selector_spec label)

-- `_validate_custom_action_spec`
unfoldable pub validate_custom_action_spec :
    Descriptions → ViewClass → String → ActionSpec → Label → Checked
unfolding validate_service_spec validate_polymorphic_service_spec validate_selector_spec
    mutation_extras_are_permissive
validate_custom_action_spec d view action (polymorphic_action identity poly) label =
    validate_polymorphic_service_spec d poly label true (mutation_extras_are_permissive view action)
validate_custom_action_spec d view action (service_action spec) label =
    validate_service_spec d spec label true (mutation_extras_are_permissive view action)
validate_custom_action_spec d view action (selector_action spec) label =
    validate_selector_spec spec label none
validate_custom_action_spec d view action (other_action t) label = err (not_an_action_spec label)

abbrev pub validated_as :
    Descriptions
    → ViewClass
    → String
    → ActionSpec
    → Label
    → Option Bool
    → Option SelectorKind
    → Checked
validated_as d view action spec label (some has_instance) kind =
    validate_mutation_action_spec d view has_instance action spec label
validated_as d view action spec label none (some kind) =
    validate_selector_action_spec view kind spec label
validated_as d view action spec label none none =
    validate_custom_action_spec d view action spec label

abbrev pub action_label : ViewClass → String → Label
action_label view action = key (field (named view.class_name) "action_specs") action

-- `_validate_action_spec`
unfoldable pub validate_action_spec : Descriptions → ViewClass → String → ActionSpec → Checked
unfolding get validate_mutation_action_spec validate_selector_action_spec
    validate_custom_action_spec
validate_action_spec d view action spec =
    validated_as d view action spec (action_label view action) (get action mutation_actions)
      (get action selector_action_kind)

unfoldable pub validate_action_specs : Descriptions → ViewClass → Dict ActionSpec → Checked
unfolding validate_action_spec
validate_action_specs d view [] = ok tt
validate_action_specs d view ((action, spec) ∷ rest) =
    validate_action_spec d view action spec >> validate_action_specs d view rest

-- What `as_view` checks before DRF builds the view.
unfoldable pub as_view : Descriptions → ActionView → Checked
unfolding validate_action_specs
as_view d view = validate_action_specs d view.class_ view.action_specs
