-- ===== src/Callables/Binding.antt =====
-- What a callable receives when a pool is bound to it by name.
use djangorestframework_serv.Prelude.{
  String, ◌≡◌, refl, ◌||◌, none, List, [], ◌∷◌, arith, eq_iff, contains, Dict, get, if◌then◌else◌,
  Option-cases,
}
use djangorestframework_serv.Callables.{
  Callable, accepts_var_keyword, pick, declared_names, resolve_callable_kwargs,
}

pub get-pick {ℓ} :
    {V : Type ℓ} (k : String) (ks : List String) (pool : Dict V)
    → get k (pick ks pool) ≡ (if contains k ks then get k pool else none)
unfolding get pick contains
get-pick k [] pool = refl
get-pick k (j ∷ ks) pool =
    ground (arith, eq_iff k j, eq_iff j k, get-pick k ks pool, Option-cases (get j pool))

-- A callable is handed exactly the entries of the pool that it names, and the whole pool if it
-- takes `**kwargs`.
pub get-resolve_callable_kwargs {ℓ} :
    {V : Type ℓ} (fn : Callable) (pool : Dict V) (k : String)
    → get k (resolve_callable_kwargs fn pool)
      ≡ (if accepts_var_keyword fn || contains k (declared_names fn) then get k pool else none)
unfolding resolve_callable_kwargs
get-resolve_callable_kwargs fn pool k = ground (arith, get-pick k (declared_names fn) pool)
