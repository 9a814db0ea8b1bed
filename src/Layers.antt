-- ===== src/Layers.antt =====
-- The layers of providers for the extra arguments of a call: `resolve_extra_kwargs` of
-- views/utils.py.
pub mod Precedence
use djangorestframework_serv.Prelude.{
  Option, [], ◌∷◌, if◌then◌else◌, none, some, Dict, update, Result, ok, err, ◌>>=◌,
}
use djangorestframework_serv.Callables.{Callable}
use djangorestframework_serv.Values.{Value, is_unset}

-- What a provider of the project answers to the request, or raises.
abbrev pub Providers : Type 0 → Type 0
Providers E = Callable → Result E (Dict Value)

-- `{key: value for key, value in d.items() if value is not UNSET}`
unfoldable pub without_unset : Dict Value → Dict Value
without_unset [] = []
without_unset ((k, v) ∷ d) =
    let rest = without_unset d in if is_unset v then rest else (k, v) ∷ rest

-- `_invoke_provider`
unfoldable pub invoke_provider : {E : Type 0} → Providers E → Callable → Result E (Dict Value)
unfolding without_unset
invoke_provider answers fn = do d ← answers fn; ok (without_unset d)

abbrev pub layer : {E : Type 0} → Providers E → Option Callable → Dict Value → Result E (Dict Value)
layer answers none extras = ok extras
layer answers (some fn) extras = do more ← invoke_provider answers fn; ok (update extras more)

-- `resolve_extra_kwargs`, by the hooks that the view has: the view-wide one, the action's, and the
-- provider of the spec.
unfoldable pub resolve_extra_kwargs :
    {E : Type 0}
    → Providers E
    → (catch_all action_hook spec_kwargs : Option Callable) → Result E (Dict Value)
unfolding update invoke_provider
resolve_extra_kwargs answers catch_all action_hook spec_kwargs = do
  first ← layer answers catch_all []
  second ← layer answers action_hook first
  layer answers spec_kwargs second
