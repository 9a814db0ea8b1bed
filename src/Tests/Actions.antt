-- ===== src/Tests/Actions.antt =====
-- A viewset of orders, and the theorems at it.
use djangorestframework_serv.Prelude.{
  String, ◌≡◌, refl, ◌↔◌, true, none, some, [], ◌∷◌, get, ok, or_else,
}
use djangorestframework_serv.Specs.{
  ServiceSpec, PermissionEntry, permission_class, variant, PolymorphicServiceSpec, discriminate,
}
use djangorestframework_serv.Validation.Signature.{validate_callable_signature}
use djangorestframework_serv.Validation.Parts.{
  validate_permission_classes, validate_preconditions, validate_success_status,
  validate_response_finalizer, validate_input_serializer, validate_row_affordances,
}
use djangorestframework_serv.Validation.Nested.{
  refuse_misplaced_schema_markers, selector_callables, refuse_filters_named_like_fields,
  service_callables,
}
use djangorestframework_serv.Validation.Whole.Accepts.{IsValidService}
use djangorestframework_serv.Viewsets.Actions.{
  selector_action, polymorphic_action, ActionView, Choices, Discriminate,
  resolve_action_service_spec,
}
use djangorestframework_serv.Viewsets.Declared.{
  as_view, mutation_actions, mutation_extras_are_permissive,
}
use djangorestframework_serv.Viewsets.Declared.Accepts.{AreDeclaredActions, as_view_iff}
use djangorestframework_serv.Viewsets.Declared.Served.{
  resolve_action_service_spec-IsValidService, DeclaredAs,
}
use djangorestframework_serv.Viewsets.Permissions.{get_permissions, holds}
use djangorestframework_serv.Viewsets.Permissions.Checked.{get_permissions-covers}
use djangorestframework_serv.Tests.Examples.{orders, update_spec, two_ways, described, order_view}

abbrev order_viewset : ActionView
order_viewset = record {
  class_ = order_view;
  action_specs = ("list", selector_action orders) ∷ ("update", polymorphic_action 7 two_ways) ∷ [];
  handlers = [];
  permission_classes = permission_class "AllowAny" ∷ [];
}

as_view_iff_example :
    (as_view described order_viewset ≡ ok tt)
    ↔ AreDeclaredActions described order_viewset.class_ order_viewset.action_specs
as_view_iff_example = as_view_iff described order_viewset

abbrev by_phone : Discriminate
by_phone fn = ok "phone"

abbrev by_web : Discriminate
by_web fn = ok "online"

mounted : as_view described order_viewset ≡ ok tt
unfolding as_view validate_permission_classes validate_preconditions refuse_misplaced_schema_markers
    selector_callables validate_callable_signature validate_success_status
    validate_response_finalizer validate_input_serializer validate_row_affordances
    refuse_filters_named_like_fields service_callables
mounted = refl

partial_update_row : get "partial_update" mutation_actions ≡ some true
unfolding get
partial_update_row = refl

abbrev phoned : Choices
phoned = (7, variant update_spec) ∷ []

served_by_phone :
    resolve_action_service_spec by_phone order_viewset.action_specs "partial_update" "PATCH" []
    ≡ ok (variant update_spec, phoned)
unfolding resolve_action_service_spec
served_by_phone = refl

resolve_action_service_spec-IsValidService_example :
    (declared : String) × DeclaredAs order_viewset "partial_update" declared
    × IsValidService described true (mutation_extras_are_permissive order_view declared) update_spec
resolve_action_service_spec-IsValidService_example =
    resolve_action_service_spec-IsValidService described order_viewset by_phone "partial_update"
      "PATCH" true update_spec phoned mounted partial_update_row served_by_phone

abbrev authenticated : PermissionEntry
authenticated = permission_class "IsAuthenticated"

-- The same actions, with the variant's own permissions: the online variant is open to all.
abbrev open_spec : ServiceSpec
open_spec = record update_spec { permission_classes = none }

abbrev discriminated : PolymorphicServiceSpec
discriminated = record {
  discriminator = two_ways.discriminator;
  specs = ("online", variant open_spec) ∷ ("phone", variant update_spec) ∷ [];
  permission_strategy = discriminate;
}

abbrev discriminated_viewset : ActionView
discriminated_viewset = record order_viewset {
  action_specs = ("update", polymorphic_action 7 discriminated) ∷ [];
}

permissions_checked :
    get_permissions by_phone discriminated_viewset (some "partial_update") []
    ≡ ok (authenticated ∷ [], phoned)
unfolding get_permissions
permissions_checked = refl

served_after_the_check :
    resolve_action_service_spec by_web discriminated_viewset.action_specs "partial_update" "PATCH"
      phoned
    ≡ ok (variant update_spec, phoned)
unfolding resolve_action_service_spec
served_after_the_check = refl

asked_permission :
    holds authenticated
      (or_else update_spec.permission_classes discriminated_viewset.permission_classes)
    ≡ true
unfolding holds
asked_permission = refl

get_permissions-covers_example : holds authenticated (authenticated ∷ []) ≡ true
get_permissions-covers_example =
    get_permissions-covers by_phone by_web discriminated_viewset "partial_update" "PATCH"
      (authenticated ∷ []) phoned phoned update_spec authenticated permissions_checked
      served_after_the_check asked_permission
