-- ===== src/Mutation/Response/Hooked.antt =====
-- Whether the hooks of a validated spec can be called on the pool that a mutation builds.
use djangorestframework_serv.Prelude.{
  ℕ, String, ◌≡◌, refl, sym, not, ap, ◌∙◌, inl, inr, Bool, true, false, ◌||◌, Option, none, some,
  List, [], ◌∷◌, get, has, all-of, all-fails, contains, if◌then◌else◌, is_some, ok, err, arith,
  eq_iff,
}
use djangorestframework_serv.Values.{Value, null, is_null}
use djangorestframework_serv.Config.{Label}
use djangorestframework_serv.Callables.{
  Callable, required_kw_params, accepts_var_keyword, resolve_callable_kwargs, declared_names,
}
use djangorestframework_serv.Callables.Binding.{get-resolve_callable_kwargs}
use djangorestframework_serv.Specs.{status_callable}
use djangorestframework_serv.Validation.Signature.Offers.{required-declared}
use djangorestframework_serv.Validation.Parts.{validate_success_status, success_status_keys}
use djangorestframework_serv.Validation.Parts.Accepts.{NeedsOnly, success_status_iff}
use djangorestframework_serv.Mutation.Hooks.{
  Pool, needs_position, missing_argument, call_with, resolve_success_status, status_pool, PoolValue,
}

closed_needs :
    (allowed : List String) (fn : Callable)
    → accepts_var_keyword fn ≡ false
    → NeedsOnly allowed fn
    → (k : String) → contains k (required_kw_params fn) ≡ true
    → contains k allowed ≡ true
closed_needs allowed fn closed (inl open') k m = absurd (ground arith)
closed_needs allowed fn closed (inr needs) k m = needs k m

swapped :
    {A : Type 0} (b : Bool) (a : A) (name : String)
    → (if not b then ok a else err (missing_argument name))
      ≡ (if b then err (missing_argument name) else ok a)
swapped true a name = refl
swapped false a name = refl

-- A hook without `**kwargs` is called wherever the pool holds each keyword that it requires, and no
-- parameter has to be passed by its position.
call_with_bound :
    {A : Type 0} (answers : Callable → Pool → A) (fn : Callable) (pool : Pool)
    → accepts_var_keyword fn ≡ false
    → ((k : String) → contains k (required_kw_params fn) ≡ true → has k pool ≡ true)
    → call_with answers fn pool ≡ (
        if needs_position fn
        then err (missing_argument fn.qualname)
        else ok (answers fn (resolve_callable_kwargs fn pool)))
unfolding call_with
call_with_bound answers fn pool closed supplied =
    rw
      (all-of (λ k. has k (resolve_callable_kwargs fn pool)) (required_kw_params fn)
        (λ k m.
          let bound = get-resolve_callable_kwargs fn pool k in
          let name = required-declared fn k m in let there = supplied k m in ground arith))
      (swapped (needs_position fn) (answers fn (resolve_callable_kwargs fn pool)) fn.qualname)

status_pool_holds :
    (result instance_ : Value) (k : String)
    → is_null instance_ ≡ false
    → contains k success_status_keys ≡ true
    → has k (status_pool result instance_) ≡ true
unfolding contains get
status_pool_holds result instance_ k there h = ground (
  arith,
  eq_iff k "result",
  eq_iff k "instance",
  eq_iff k "request",
  eq_iff k "view",
  eq_iff "result" k,
  eq_iff "instance" k,
  eq_iff "request" k,
  eq_iff "view" k,
)

-- A status callable without `**kwargs` that passed the validator is called wherever the mutation
-- acts on a row, and its answer is the status; unless it has a required positional-only parameter,
-- which the validator lets pass: then the call misses an argument.
pub success_status_answers :
    (answers : Callable → Pool → ℕ) (fn : Callable) (label : Label) (default_status : ℕ)
    (result instance_ : Value)
    → validate_success_status (some (status_callable fn)) label ≡ ok tt
    → accepts_var_keyword fn ≡ false
    → is_null instance_ ≡ false
    → resolve_success_status answers
        (some (status_callable fn))
        default_status
        (status_pool result instance_)
      ≡ (if needs_position fn
          then err (missing_argument fn.qualname)
          else ok (answers fn (resolve_callable_kwargs fn (status_pool result instance_))))
unfolding resolve_success_status
success_status_answers answers fn label default_status result instance_ valid closed there =
    let needs = (success_status_iff (some (status_callable fn)) label).0 valid in
    call_with_bound answers fn (status_pool result instance_) closed λ k m.
      status_pool_holds result instance_ k there
        (closed_needs success_status_keys fn closed needs k m)

only_instance :
    (k : String) → contains k ("instance" ∷ []) ≡ true → contains k success_status_keys ≡ true
unfolding contains
only_instance k m = ground (arith, eq_iff k "instance", eq_iff "instance" k)

no_row_in_pool : (result : Value) → get "instance" (status_pool result null) ≡ none
unfolding get
no_row_in_pool result = refl

none_either_way :
    (b : Bool) (o : Option PoolValue) → o ≡ none → is_some (if b then o else none) ≡ false
none_either_way b o h = ground arith

unbound_row :
    (fn : Callable) (result : Value)
    → has "instance" (resolve_callable_kwargs fn (status_pool result null)) ≡ false
unbound_row fn result =
    ap is_some (get-resolve_callable_kwargs fn (status_pool result null) "instance")
    ∙ none_either_way (accepts_var_keyword fn || contains "instance" (declared_names fn))
        (get "instance" (status_pool result null)) (no_row_in_pool result)

first_needed : (ks : List String) → ks ≡ "instance" ∷ [] → contains "instance" ks ≡ true
first_needed ks h = rw h (unfold contains in refl)

-- Where the mutation acts on no row, a status callable whose one required parameter is `instance`
-- passes the validator and still cannot be called: Python misses the argument.
pub success_status_needs_a_row :
    (answers : Callable → Pool → ℕ) (fn : Callable) (label : Label) (default_status : ℕ)
    (result : Value)
    → accepts_var_keyword fn ≡ false
    → required_kw_params fn ≡ "instance" ∷ []
    → (validate_success_status (some (status_callable fn)) label ≡ ok tt)
      × (resolve_success_status answers
            (some (status_callable fn))
            default_status
            (status_pool result null)
          ≡ err (missing_argument fn.qualname))
unfolding resolve_success_status call_with
success_status_needs_a_row answers fn label default_status result closed one = (
  (success_status_iff (some (status_callable fn)) label).1
      (inr λ k m. only_instance k (ap (contains k) (sym one) ∙ m)),
  rw (
      all-fails (λ k. has k (resolve_callable_kwargs fn (status_pool result null))) "instance"
        (required_kw_params fn) (first_needed (required_kw_params fn) one) (unbound_row fn result)),
)
