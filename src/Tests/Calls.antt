-- ===== src/Tests/Calls.antt =====
-- Declared arguments and permission checks at concrete calls.
use djangorestframework_serv.Prelude.{
  first_some, put, ◌≡◌, refl, ◌↔◌, String, true, false, Option, none, some, List, [], ◌∷◌, ◌++◌,
  Dict, get, contains, or_else, ok, All, subst, Distinct, keys, ok-injective,
}
use djangorestframework_serv.Config.{named}
use djangorestframework_serv.Values.{Value, null, unset, int, str}
use djangorestframework_serv.Specs.{Read, url_kwarg, query_param, PermissionEntry, permission_class}
use djangorestframework_serv.Callables.{Callable}
use djangorestframework_serv.Layers.{Providers, resolve_extra_kwargs}
use djangorestframework_serv.Layers.Precedence.{Answered, resolve_extra_kwargs_lem}
use djangorestframework_serv.Tests.Examples.{taking}
use djangorestframework_serv.Channels.{validate_channel_names, routed}
use djangorestframework_serv.Channels.Routed.{RoutesOwn, routed_lem}
use djangorestframework_serv.Dispatch.{Permissions, admits, refuses, enforce_permissions}
use djangorestframework_serv.Dispatch.Enforced.{Admits, enforce_permissions_iff}

abbrev reads : List Read
reads =
    url_kwarg (record {
      name = "order";
      type_name = "integer";
      description = none;
      default = unset;
      required = true;
    })
    ∷ query_param (record {
      name = "currency";
      type_name = "string";
      description = none;
      default = str "EUR";
      required = false;
    })
    ∷ []

abbrev seeds : List String
seeds = "request" ∷ "user" ∷ []

abbrev arguments : Dict Value
arguments = ("order", int 7) ∷ ("currency", null) ∷ ("user", str "someone else") ∷ []

reads_pass : validate_channel_names seeds (named "cancel") reads ("page" ∷ []) ≡ ok tt
unfolding validate_channel_names
reads_pass = refl

routed_lem_example :
    All (RoutesOwn arguments (routed reads arguments)) reads
    × (contains "user" (seeds ++ ("page" ∷ [])) ≡ true → get "user" (routed reads arguments) ≡ none)
routed_lem_example =
    routed_lem seeds (named "cancel") reads ("page" ∷ []) arguments "user" reads_pass

abbrev owners_only : Permissions
owners_only = record { has_permission = λ p. admits; has_object_permission = λ p. refuses }

abbrev guarded : Option (List PermissionEntry)
guarded = some (permission_class "IsOwner" ∷ [])

enforce_permissions_iff_example :
    (enforce_permissions owners_only false true guarded ≡ ok tt)
    ↔ All (Admits owners_only true) (or_else guarded [])
enforce_permissions_iff_example = enforce_permissions_iff owners_only false true guarded

abbrev by_tenant : Providers String
by_tenant fn = ok (("tenant", str fn.qualname) ∷ ("region", unset) ∷ [])

tenant_dicts : (fn : Callable) (d : Dict Value) → by_tenant fn ≡ ok d → Distinct (keys d)
unfolding contains
tenant_dicts fn d h = subst (λ e. Distinct (keys e)) (ok-injective h) (refl, (refl, tt))

abbrev view_wide : Callable
view_wide = taking "get_service_kwargs" []

abbrev of_spec : Callable
of_spec = taking "spec_kwargs" []

abbrev extras : Dict Value
extras = ("tenant", str "spec_kwargs") ∷ []

extras_resolved : resolve_extra_kwargs by_tenant (some view_wide) none (some of_spec) ≡ ok extras
unfolding resolve_extra_kwargs put
extras_resolved = refl

resolve_extra_kwargs_lem_example :
    (c : Dict Value) × (a : Dict Value) × (s : Dict Value) × Answered by_tenant (some view_wide) c
    × Answered by_tenant none a
    × Answered by_tenant (some of_spec) s
    × ((k : String) → get k extras ≡ first_some (get k s) (first_some (get k a) (get k c)))
resolve_extra_kwargs_lem_example =
    resolve_extra_kwargs_lem by_tenant (some view_wide) none (some of_spec) extras tenant_dicts
      extras_resolved
