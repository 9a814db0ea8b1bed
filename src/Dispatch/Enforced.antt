-- ===== src/Dispatch/Enforced.antt =====
-- When the permission check admits a call, and what it raises without a request.
use djangorestframework_serv.Prelude.{
  ◌≡◌, ◌↔◌, refl, Bool, true, false, Option, List, [], ◌∷◌, or_else, ok, All, chain_iff,
  if◌then◌else◌,
}
use djangorestframework_serv.Specs.{PermissionEntry}
use djangorestframework_serv.Dispatch.{
  Verdict, admits, refuses, reads_attribute, Permissions, ask, enforce_one, enforce_all,
  enforce_permissions,
}

-- The class admits the call, and the row where there is one.
abbrev pub Admits : Permissions → Bool → PermissionEntry → Type 0
Admits permissions is_model p =
    (permissions.has_permission p ≡ admits)
    × (is_model ≡ true → permissions.has_object_permission p ≡ admits)

ask_iff :
    (has_request : Bool) (p : PermissionEntry) (v : Verdict)
    → (ask has_request p v ≡ ok tt) ↔ (v ≡ admits)
unfolding ask
ask_iff has_request p admits = (λ h. refl, λ h. refl)
ask_iff has_request p refuses = (λ h. cc, λ h. cc)
ask_iff true p reads_attribute = (λ h. cc, λ h. cc)
ask_iff false p reads_attribute = (λ h. cc, λ h. cc)

ask_row_iff :
    (has_request is_model : Bool) (p : PermissionEntry) (v : Verdict)
    → ((if is_model then ask has_request p v else ok tt) ≡ ok tt) ↔ (is_model ≡ true → v ≡ admits)
ask_row_iff has_request true p v =
    let one = ask_iff has_request p v in (λ h _. one.0 h, λ h. one.1 (h refl))
ask_row_iff has_request false p v = (λ h e. absurd (cc), λ h. refl)

enforce_all_iff :
    (permissions : Permissions) (has_request is_model : Bool) (ps : List PermissionEntry)
    → (enforce_all permissions has_request is_model ps ≡ ok tt)
      ↔ All (Admits permissions is_model) ps
unfolding enforce_all enforce_one
enforce_all_iff permissions has_request is_model [] = (λ h. tt, λ h. refl)
enforce_all_iff permissions has_request is_model (p ∷ ps) =
    chain_iff
      (chain_iff (ask_iff has_request p (permissions.has_permission p))
        (ask_row_iff has_request is_model p (permissions.has_object_permission p)))
      (enforce_all_iff permissions has_request is_model ps)

-- The check admits a call exactly where each permission class of the spec admits it, and admits
-- the row where the target is a model instance.
pub enforce_permissions_iff :
    (permissions : Permissions) (has_request is_model : Bool)
    (classes : Option (List PermissionEntry))
    → (enforce_permissions permissions has_request is_model classes ≡ ok tt)
      ↔ All (Admits permissions is_model) (or_else classes [])
unfolding enforce_permissions
enforce_permissions_iff permissions has_request is_model classes =
    enforce_all_iff permissions has_request is_model (or_else classes [])
