-- ===== src/Callables.antt =====
-- Callables as `inspect.signature` shows them, and the binding of a pool of values to their
-- parameters by name (rest_framework_services/views/utils.py, `resolve_callable_kwargs`).
pub mod Binding
use djangorestframework_serv.Prelude.{
  String, Bool, true, false, Option, List, [], ◌∷◌, ◌&&◌, not, any, keep, contains, map, Dict, get,
  if◌then◌else◌, none, some,
}
use djangorestframework_serv.Annotations.{Annotation}

pub data ParameterKind : Type 0 where
  positional_only positional_or_keyword var_positional keyword_only var_keyword : ParameterKind

-- `hint` is the parameter's entry in `callable_type_hints`.
pub record Parameter : Type 0 where
  pub name : String
  pub kind : ParameterKind
  pub has_default : Bool
  pub hint : Option Annotation

pub record Callable : Type 0 where
  pub qualname : String
  pub parameters : List Parameter

abbrev pub by_keyword : ParameterKind → Bool
by_keyword positional_or_keyword = true
by_keyword keyword_only = true
by_keyword _ = false

abbrev pub is_var_keyword : ParameterKind → Bool
is_var_keyword var_keyword = true
is_var_keyword _ = false

abbrev pub is_positional_only : ParameterKind → Bool
is_positional_only positional_only = true
is_positional_only _ = false

abbrev pub is_var_positional : ParameterKind → Bool
is_var_positional var_positional = true
is_var_positional _ = false

abbrev pub names : List Parameter → List String
names [] = []
names (p ∷ ps) = p.name ∷ names ps

-- `_required_kw_params`: the names in the dictionary that it returns.
unfoldable pub required_kw_params : Callable → List String
unfolding keep
required_kw_params fn = names (keep (λ p. by_keyword p.kind && not p.has_default) fn.parameters)

-- `_accepts_var_keyword`
unfoldable pub accepts_var_keyword : Callable → Bool
unfolding any
accepts_var_keyword fn = any (λ p. is_var_keyword p.kind) fn.parameters

-- `{name: pool[name] for name in declared_names if name in pool}`
unfoldable pub pick {ℓ} : {V : Type ℓ} → List String → Dict V → Dict V
unfolding get
pick [] pool = []
pick (k ∷ ks) pool =
    let rest = pick ks pool in elim (get k pool) [ none ↦ rest | some v ↦ (k, v) ∷ rest ]

unfoldable pub declared_names : Callable → List String
unfolding keep
declared_names fn = names (keep (λ p. by_keyword p.kind) fn.parameters)

-- `views.utils.resolve_callable_kwargs`
unfoldable pub resolve_callable_kwargs {ℓ} : {V : Type ℓ} → Callable → Dict V → Dict V
unfolding accepts_var_keyword declared_names pick
resolve_callable_kwargs fn pool =
    if accepts_var_keyword fn then pool else pick (declared_names fn) pool
