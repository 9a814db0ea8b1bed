-- ===== src/Viewsets/Permissions.antt =====
-- The permissions of an action: `get_permissions` of viewsets/utils.py. A permission class is
-- instantiated by DRF, so the list of the classes stands for the list of instances.
pub mod Union
pub mod Checked
use djangorestframework_serv.Prelude.{
  ℕ, String, Bool, true, false, ◌||◌, Option, none, some, List, [], ◌∷◌, ◌++◌, if◌then◌else◌,
  or_else, Result, ok, err, ◌>>=◌, any, values,
}
use djangorestframework_serv.Specs.{
  PermissionEntry, PermissionStrategy, union, discriminate, require_identical,
  PolymorphicServiceSpec, Variant, variant, not_variant,
}
use djangorestframework_serv.Validation.Whole.{same_entry}
use djangorestframework_serv.Viewsets.Actions.{
  ActionSpec, service_action, selector_action, polymorphic_action, other_action, ActionView,
  RequestError, attribute_error, Choices, Discriminate, resolve_polymorphic_service_spec,
  resolve_action_spec,
}

-- `permission_class in classes`
unfoldable pub holds : PermissionEntry → List PermissionEntry → Bool
holds p [] = false
holds p (q ∷ qs) = same_entry p q || holds p qs

-- The inner loop of `_polymorphic_permissions`.
unfoldable pub add_new : List PermissionEntry → List PermissionEntry → List PermissionEntry
unfolding holds
add_new classes [] = classes
add_new classes (p ∷ ps) = add_new (if holds p classes then classes else classes ++ (p ∷ [])) ps

-- The outer loop, over the variants; `default` is the view's own `permission_classes`.
unfoldable pub union_classes :
    (default classes : List PermissionEntry)
    → List Variant
    → Result RequestError (List PermissionEntry)
unfolding add_new
union_classes default classes [] = ok classes
union_classes default classes (not_variant t ∷ vs) = err (attribute_error t)
union_classes default classes (variant spec ∷ vs) =
    union_classes default (add_new classes (or_else spec.permission_classes default)) vs

abbrev pub classes_of :
    (default : List PermissionEntry) → Variant → Result RequestError (List PermissionEntry)
classes_of default (variant spec) = ok (or_else spec.permission_classes default)
classes_of default (not_variant t) = err (attribute_error t)

abbrev pub by_strategy :
    PermissionStrategy
    → Discriminate
    → (default : List PermissionEntry) → ℕ
    → PolymorphicServiceSpec
    → Choices
    → Result RequestError (List PermissionEntry × Choices)
by_strategy discriminate ask default identity poly choices = do
  chosen ← resolve_polymorphic_service_spec ask identity poly choices
  classes ← classes_of default chosen.0
  ok (classes, chosen.1)
by_strategy _ ask default identity poly choices = do
  classes ← union_classes default [] (values poly.specs)
  ok (classes, choices)

-- `_polymorphic_permissions`, with the view's cache before and after.
unfoldable pub polymorphic_permissions :
    Discriminate
    → (default : List PermissionEntry) → ℕ
    → PolymorphicServiceSpec
    → Choices
    → Result RequestError (List PermissionEntry × Choices)
unfolding resolve_polymorphic_service_spec union_classes
polymorphic_permissions ask default identity poly choices =
    by_strategy poly.permission_strategy ask default identity poly choices

abbrev pub permissions_for :
    Discriminate
    → (default : List PermissionEntry) → Choices
    → Option ActionSpec
    → Result RequestError (List PermissionEntry × Choices)
permissions_for ask default choices none = ok (default, choices)
permissions_for ask default choices (some (polymorphic_action identity poly)) =
    polymorphic_permissions ask default identity poly choices
permissions_for ask default choices (some (service_action spec)) =
    ok (or_else spec.permission_classes default, choices)
permissions_for ask default choices (some (selector_action spec)) =
    ok (or_else spec.permission_classes default, choices)
permissions_for ask default choices (some (other_action t)) = err (attribute_error t)

-- `get_permissions`
unfoldable pub get_permissions :
    Discriminate
    → ActionView
    → Option String
    → Choices
    → Result RequestError (List PermissionEntry × Choices)
unfolding resolve_action_spec polymorphic_permissions
get_permissions ask view action choices =
    permissions_for ask view.permission_classes choices (resolve_action_spec view action)
