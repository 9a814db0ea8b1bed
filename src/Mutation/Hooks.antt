-- ===== src/Mutation/Hooks.antt =====
-- The hooks of a mutation's answer: `resolve_success_status` and `apply_response_finalizer`
-- (views/mutation). A hook is project code, so what it returns is a parameter of the calls.
use djangorestframework_serv.Prelude.{
  ℕ, String, Option, none, some, [], ◌∷◌, Dict, get, has, all, any, Bool, ◌&&◌, not, if◌then◌else◌,
  Result, ok, err,
}
use djangorestframework_serv.Values.{Value, is_null}
use djangorestframework_serv.Callables.{
  Callable, is_positional_only, required_kw_params, resolve_callable_kwargs,
}
use djangorestframework_serv.Specs.{
  SuccessStatus, status_code, status_callable, other_status, Finalizer, finalizer_callable,
  other_finalizer,
}
use djangorestframework_serv.Mutation.Errors.{Response}

-- What a pool holds: a value of the call, the response under construction, or an object that only
-- hooks look into.
pub data PoolValue : Type 0 where
  value : Value → PoolValue
  response_value : Response → PoolValue
  request view : PoolValue

abbrev pub Pool : Type 0
Pool = Dict PoolValue

-- The `TypeError`s of Python's call: a required parameter without an argument, and a hook that
-- cannot be called.
pub data CallError : Type 0 where
  missing_argument : String → CallError
  not_callable : String → CallError

-- A parameter that can only be passed by its position, and has to be: no keyword reaches it.
unfoldable pub needs_position : Callable → Bool
unfolding any
needs_position fn = any (λ p. is_positional_only p.kind && not p.has_default) fn.parameters

-- `fn(**resolve_callable_kwargs(fn, pool))`, for a `fn` that answers `result`. The call has no
-- positional arguments.
unfoldable pub call_with :
    {A : Type 0} → (Callable → Pool → A) → Callable → Pool → Result CallError A
unfolding all required_kw_params resolve_callable_kwargs needs_position get
call_with result fn pool =
    let kwargs = resolve_callable_kwargs fn pool in
    if all (λ k. has k kwargs) (required_kw_params fn) && not (needs_position fn)
    then ok (result fn kwargs)
    else err (missing_argument fn.qualname)

unfoldable pub resolve_success_status :
    (Callable → Pool → ℕ) → Option SuccessStatus → ℕ → Pool → Result CallError ℕ
unfolding call_with
resolve_success_status answers none default pool = ok default
resolve_success_status answers (some (status_code n)) default pool = ok n
resolve_success_status answers (some (status_callable fn)) default pool = call_with answers fn pool
resolve_success_status answers (some (other_status t)) default pool = err (not_callable t)

abbrev add_present : String → Value → Pool → Pool
add_present name v pool = if is_null v then pool else (name, value v) ∷ pool

-- The pool of `apply_response_finalizer`: `instance` and `data` are there only where they are not
-- None.
abbrev pub finalizer_pool : Response → (result instance_ validated : Value) → Pool
finalizer_pool response result instance_ validated =
    ("response", response_value response)
    ∷ ("request", request)
    ∷ ("view", view)
    ∷ ("result", value result)
    ∷ add_present "instance" instance_ (add_present "data" validated [])

abbrev or_response : Response → Option Response → Response
or_response response none = response
or_response response (some r) = r

abbrev finalized : Response → Result CallError (Option Response) → Result CallError Response
finalized response (ok r) = ok (or_response response r)
finalized response (err e) = err e

unfoldable pub apply_response_finalizer :
    (Callable → Pool → Option Response)
    → Option Finalizer
    → Response
    → (result instance_ validated : Value) → Result CallError Response
unfolding call_with
apply_response_finalizer answers none response result instance_ validated = ok response
apply_response_finalizer answers (some (finalizer_callable fn)) response result instance_
      validated =
    finalized response (call_with answers fn (finalizer_pool response result instance_ validated))
apply_response_finalizer answers (some (other_finalizer t)) response result instance_ validated =
    err (not_callable t)

-- The pool of a status hook in `render_mutation_response`.
abbrev pub status_pool : (result instance_ : Value) → Pool
status_pool result instance_ =
    ("request", request)
    ∷ ("view", view)
    ∷ ("result", value result)
    ∷ add_present "instance" instance_ []
