-- ===== src/Validation/Signature.antt =====
-- `validate_callable_signature`: the required keyword parameters of a callable against what the
-- framework hands over.
pub mod Offers
use djangorestframework_serv.Prelude.{
  ℕ, String, ◌≡◌, refl, sym, ap, ◌∙◌, ◌≢◌, ◌↔◌, ◌⊎◌, inl, inr, Bool, true, false, ◌&&◌, ◌||◌, not,
  Option, none, some, List, [], ◌∷◌, ◌++◌, Dict, get, has, keep, contains, if◌then◌else◌, is_some,
  is_empty, Result, ok, err, ◌>>◌, refuse_if, >>-eq-ok, refuse_if-eq-ok, arith, eq_iff, ◌==◌,
  Bool-cases, or_false_left, or_false_right, ne_of_eq_false, and_true_left, and_true_right,
}
use djangorestframework_serv.Config.{
  Label, Checked, needs_data, needs_serializer, needs_instance, needs_result, unknown_required,
}
use djangorestframework_serv.Callables.{
  Parameter, Callable, by_keyword, names, required_kw_params, accepts_var_keyword, declared_names,
  resolve_callable_kwargs,
}
use djangorestframework_serv.Callables.Binding.{get-resolve_callable_kwargs}

-- The keyword arguments of `validate_callable_signature`: what the framework will hand over.
pub record Offered : Type 0 where
  pub has_data : Bool
  pub has_instance : Bool
  pub has_result : Bool
  pub spec_kwargs : Option Callable
  pub permissive_extras : Bool
  pub extra_known_keys : List String

abbrev add_when : Bool → List String → List String → List String
add_when b names rest = if b then names ++ rest else rest

unfoldable pub known_keys : Offered → List String
known_keys o =
    "request"
    ∷ "user"
    ∷ add_when o.has_data ("data" ∷ "serializer" ∷ []) (
        add_when o.has_instance ("instance" ∷ [])
          (add_when o.has_result ("result" ∷ []) o.extra_known_keys))

unfoldable pub unknown_names : Offered → List String → List String
unfolding keep contains known_keys
unknown_names o required = keep (λ name. not (contains name (known_keys o))) required

-- The checks of a callable that takes no `**kwargs`, on its required keyword parameters.
unfoldable pub validate_required : Label → Offered → List String → Checked
unfolding unknown_names
validate_required label o required = do
  refuse_if (contains "data" required && not o.has_data) (needs_data label)
  refuse_if (contains "serializer" required && not o.has_data) (needs_serializer label)
  refuse_if (contains "instance" required && not o.has_instance) (needs_instance label)
  refuse_if (contains "result" required && not o.has_result) (needs_result label)
  if o.permissive_extras || is_some o.spec_kwargs
      then ok tt
      else refuse_if (not (is_empty (unknown_names o required)))
          (unknown_required label (unknown_names o required))

unfoldable pub validate_callable_signature : Callable → Label → Offered → Checked
unfolding accepts_var_keyword required_kw_params validate_required
validate_callable_signature fn label o =
    if accepts_var_keyword fn then ok tt else validate_required label o (required_kw_params fn)

-- Whether the framework hands over an argument of this name: the four keys of its own each have
-- their source, and any other name is its own, one of the extra keys or left to a provider.
unfoldable pub offers : Offered → String → Bool
unfolding contains
offers o k =
    if k == "data" || k == "serializer"
    then o.has_data
    else if k == "instance"
    then o.has_instance
    else if k == "result"
    then o.has_result
    else o.permissive_extras
      || is_some o.spec_kwargs
      || (k == "request" || (k == "user" || contains k o.extra_known_keys))

-- Every required keyword parameter is handed over.
abbrev pub IsOffered : Offered → Callable → Type 0
IsOffered o fn = (k : String) → contains k (required_kw_params fn) ≡ true → offers o k ≡ true
