-- ===== src/Prelude/Dicts.antt =====
-- Python dictionaries with string keys, as association lists in insertion order.
use Prim.Native.String.{String}
use mathlib.Core.Path.{◌≡◌, refl, sym, ap, ◌∙◌}
use mathlib.Core.Logic.{inl, inr}
use mathlib.Core.Bool.{Bool, true, false, ◌||◌}
use mathlib.Core.Option.{Option, none, some}
use mathlib.Core.List.{List, [], ◌∷◌}
use native.Mathlib.Omega.{arith}
use text.Mathlib.Text.{◌==◌}
use text.Mathlib.TextEquality.{eq_iff}
use djangorestframework_serv.Prelude.Tests.{
  if◌then◌else◌, is_some, first_some, Bool-cases, or_false_right,
}
use djangorestframework_serv.Prelude.Lists.{contains, Distinct, eq_sym}

abbrev pub Dict {ℓ} : Type ℓ → Type ℓ
Dict V = List (String × V)

module _ {ℓ} {V : Type ℓ} where
  -- `d.get(k)`
  unfoldable pub get : String → Dict V → Option V
  get k [] = none
  get k ((j, v) ∷ d) = if j == k then some v else get k d

  -- `k in d`
  abbrev pub has : String → Dict V → Bool
  has k d = is_some (get k d)

  -- `d[k] = v`: the value of a present key is replaced where it stands
  unfoldable pub put : String → V → Dict V → Dict V
  put k v [] = (k, v) ∷ []
  put k v ((j, w) ∷ d) = if j == k then (j, v) ∷ d else (j, w) ∷ put k v d

  -- `d.update(e)`, and `{**d, **e}`
  unfoldable pub update : Dict V → Dict V → Dict V
  update d [] = d
  update d ((k, v) ∷ e) = update (put k v d) e

  abbrev pub keys : Dict V → List String
  keys [] = []
  keys ((k, v) ∷ d) = k ∷ keys d

  abbrev pub values : Dict V → List V
  values [] = []
  values ((k, v) ∷ d) = v ∷ values d

  pub get-put :
      (k j : String) (v : V) (d : Dict V) → get j (put k v d) ≡ (if k == j then some v else get j d)
  unfolding get put
  get-put k j v [] = refl
  get-put k j v ((i, w) ∷ d) = ground (arith, eq_iff k j, eq_iff i k, eq_iff i j, get-put k j v d)

  pub get-absent : (k : String) (d : Dict V) → contains k (keys d) ≡ false → get k d ≡ none
  unfolding get contains
  get-absent k [] h = refl
  get-absent k ((j, v) ∷ d) h =
      let ih = get-absent k d (or_false_right (k == j) (contains k (keys d)) h) in
      ground (arith, eq_sym j k)

  -- Of a dictionary whose keys are distinct, the entries win.
  pub get-update :
      (k : String) (d e : Dict V)
      → Distinct (keys e)
      → get k (update d e) ≡ first_some (get k e) (get k d)
  unfolding get update
  get-update k d [] distinct = refl
  get-update k d ((j, v) ∷ e) (new, distinct) =
      let rest = get-absent j e new in
      let placed = get-put j k v d in
      get-update k (put j v d) e distinct ∙ elim (Bool-cases (j == k)) [
        | inl e' ↦
            let none_there = ap (λ i. get i e) (sym ((eq_iff j k).0 e')) ∙ rest in
            rw (none_there, placed, e') refl
        | inr e' ↦ rw (placed, e') refl
      ]

  pub contains-put :
      (j k : String) (v : V) (d : Dict V)
      → contains j (keys (put k v d)) ≡ ((j == k) || contains j (keys d))
  unfolding put contains
  contains-put j k v [] = refl
  contains-put j k v ((i, w) ∷ d) =
      let ih = contains-put j k v d in ground (arith, eq_iff j k, eq_iff i k, eq_iff j i)

  pub put-Distinct :
      (k : String) (v : V) (d : Dict V) → Distinct (keys d) → Distinct (keys (put k v d))
  unfolding put contains
  put-Distinct k v [] h = (refl, tt)
  put-Distinct k v ((i, w) ∷ d) (new, distinct) = go (i == k) refl (put-Distinct k v d distinct)
    where
      go :
          (b : Bool)
          → (i == k) ≡ b
          → Distinct (keys (put k v d))
          → Distinct (keys (if b then (i, v) ∷ d else (i, w) ∷ put k v d))
      go true e rest = (new, distinct)
      go false e rest = (contains-put i k v d ∙ ground arith, rest)
