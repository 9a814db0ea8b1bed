-- ===== src/Dispatch/Edge/Dicts.antt =====
-- What the dictionaries of the routing hold under a name.
use djangorestframework_serv.Prelude.{
  first_some, String, ◌≡◌, refl, sym, ap, ◌∙◌, Bool, true, false, ◌||◌, not, Option, none, some,
  List, [], ◌∷◌, Dict, get, put, get-put, update, contains, arith, eq_iff, ◌==◌, inl, inr,
  Bool-cases,
}
use djangorestframework_serv.Values.{Value}
use djangorestframework_serv.Dispatch.Edge.{gather, drop}

-- The entries with each value changed under its name.
abbrev pub change_values : (String → Value → Value) → Dict Value → Dict Value
change_values f [] = []
change_values f ((k, v) ∷ d) = (k, f k v) ∷ change_values f d

abbrev pub change : (Value → Value) → Option Value → Option Value
change f none = none
change f (some v) = some (f v)

-- A value that only some names have.
abbrev pub only : Bool → Option Value → Option Value
only true o = o
only false o = none

pub only-none : (b : Bool) → only b none ≡ none
only-none true = refl
only-none false = refl

pub get-drop :
    (k : String) (names : List String) (d : Dict Value)
    → get k (drop names d) ≡ only (not (contains k names)) (get k d)
unfolding get drop
get-drop k names [] = sym (only-none (not (contains k names)))
get-drop k names ((j, v) ∷ d) =
    let ih = get-drop k names d in
    elim (Bool-cases (j == k)) [
      | inl e ↦ let same = ap (λ i. contains i names) ((eq_iff j k).0 e) in ground arith
      | inr e ↦ ground arith
    ]

unfoldable pub extended : String → Option Value → Dict Value → Dict Value
extended j none rest = rest
extended j (some v) rest = (j, v) ∷ rest

pub gather-cons :
    (value : String → Option Value) (j : String) (names : List String)
    → gather value (j ∷ names) ≡ extended j (value j) (gather value names)
unfolding gather extended
gather-cons value j names = go (value j)
  where
    go :
        (o : Option Value)
        → (elim o [ none ↦ gather value names | some v ↦ (j, v) ∷ gather value names ])
          ≡ extended j o (gather value names)
    go none = refl
    go (some v) = refl

-- One more name that is gathered.
get-update-extended :
    (k j : String) (f : String → Value → Value) (o found : Option Value) (rest : Bool)
    (names : Dict Value) (d : Dict Value)
    → ((d : Dict Value)
        → get k (update d (change_values f names))
          ≡ first_some (only rest (change (f k) found)) (get k d))
    → ((k == j) ≡ true → found ≡ o)
    → get k (update d (change_values f (extended j o names)))
      ≡ first_some (only ((k == j) || rest) (change (f k) found)) (get k d)
unfolding get update extended
get-update-extended k j f none found rest names d ih same = elim (Bool-cases (k == j)) [
  | inl e ↦ let gone = same e in let there = ih d in ground (arith, only-none rest)
  | inr e ↦ let there = ih d in ground arith
]
get-update-extended k j f (some v) found rest names d ih same = elim (Bool-cases (k == j)) [
  | inl e ↦
      let here = same e in
      let there = ih (put j (f j v) d) in
      let changed = ap (λ i. f i v) ((eq_iff k j).0 e) in
      ground (arith, get-put j k (f j v) d, eq_iff k j, eq_iff j k)
  | inr e ↦
      let there = ih (put j (f j v) d) in
      ground (arith, get-put j k (f j v) d, eq_iff k j, eq_iff j k)
]

-- What is gathered goes over what was there.
pub get-update-gather :
    (k : String) (f : String → Value → Value) (value : String → Option Value) (names : List String)
    (d : Dict Value)
    → get k (update d (change_values f (gather value names)))
      ≡ first_some (only (contains k names) (change (f k) (value k))) (get k d)
unfolding get update gather contains
get-update-gather k f value [] d = refl
get-update-gather k f value (j ∷ names) d =
    ap (λ e. get k (update d (change_values f e))) (gather-cons value j names)
    ∙ get-update-extended k j f (value j) (value k) (contains k names) (gather value names) d
        (get-update-gather k f value names) (λ e. ap value ((eq_iff k j).0 e))
