-- ===== src/Dispatch.antt =====
-- The permission check ahead of dispatch: `enforce_permissions` of
-- dispatch/enforce_permissions.py.
pub mod Enforced
pub mod Declared
pub mod Unknown
pub mod Edge
pub mod Authors
use djangorestframework_serv.Prelude.{
  String, Bool, true, false, Option, none, some, List, [], ◌∷◌, if◌then◌else◌, or_else, Result, ok,
  err, ◌>>◌,
}
use djangorestframework_serv.Specs.{PermissionEntry}

-- What a permission class of the project does when it is asked: `reads_attribute` is an
-- AttributeError.
pub data Verdict : Type 0 where
  admits refuses reads_attribute : Verdict

pub record Permissions : Type 0 where
  pub has_permission : PermissionEntry → Verdict
  pub has_object_permission : PermissionEntry → Verdict

-- What the check raises, with the permission class that it raises it for.
pub data Denial : Type 0 where
  permission_denied : PermissionEntry → Denial
  request_missing : PermissionEntry → Denial
  attribute_error : PermissionEntry → Denial

-- One call under `_naming_the_missing_request`, and the `_deny` that follows a refusal.
unfoldable pub ask : (has_request : Bool) → PermissionEntry → Verdict → Result Denial (Unit {0})
ask has_request p admits = ok tt
ask has_request p refuses = err (permission_denied p)
ask has_request p reads_attribute =
    if has_request then err (attribute_error p) else err (request_missing p)

-- The body of the loop; `is_model` is `isinstance(instance, Model)`.
unfoldable pub enforce_one :
    Permissions → (has_request is_model : Bool) → PermissionEntry → Result Denial (Unit {0})
unfolding ask
enforce_one permissions has_request is_model p =
    ask has_request p (permissions.has_permission p)
    >> (if is_model then ask has_request p (permissions.has_object_permission p) else ok tt)

unfoldable pub enforce_all :
    Permissions → (has_request is_model : Bool) → List PermissionEntry → Result Denial (Unit {0})
unfolding enforce_one
enforce_all permissions has_request is_model [] = ok tt
enforce_all permissions has_request is_model (p ∷ ps) =
    enforce_one permissions has_request is_model p
    >> enforce_all permissions has_request is_model ps

-- `enforce_permissions`: a spec without `permission_classes` is not guarded here.
unfoldable pub enforce_permissions :
    Permissions
    → (has_request is_model : Bool) → Option (List PermissionEntry)
    → Result Denial (Unit {0})
unfolding enforce_all
enforce_permissions permissions has_request is_model classes =
    enforce_all permissions has_request is_model (or_else classes [])
