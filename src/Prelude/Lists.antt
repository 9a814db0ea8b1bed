-- ===== src/Prelude/Lists.antt =====
-- Lists that are searched, filtered and measured.
use Prim.Native.Nat.{ℕ, suc}
use Prim.Native.String.{String}
use mathlib.Core.Path.{◌≡◌, refl, sym, ap, ◌∙◌}
use mathlib.Core.Logic.{◌↔◌, inl, inr}
use mathlib.Core.Bool.{Bool, true, false, ◌&&◌, ◌||◌}
use mathlib.Core.List.{List, [], ◌∷◌, ◌++◌}
use native.Mathlib.Omega.{arith}
use text.Mathlib.Text.{◌==◌}
use text.Mathlib.TextEquality.{eq_iff}
use djangorestframework_serv.Prelude.Tests.{if◌then◌else◌, Bool-cases}

module _ {ℓ} {A : Type ℓ} where
  abbrev pub length : List A → ℕ
  length [] = 0
  length (x ∷ xs) = suc (length xs)

  unfoldable pub any : (A → Bool) → List A → Bool
  any p [] = false
  any p (x ∷ xs) = p x || any p xs

  unfoldable pub all : (A → Bool) → List A → Bool
  all p [] = true
  all p (x ∷ xs) = p x && all p xs

  -- `[x for x in xs if p(x)]`
  unfoldable pub keep : (A → Bool) → List A → List A
  keep p [] = []
  keep p (x ∷ xs) = let rest = keep p xs in if p x then x ∷ rest else rest

  abbrev pub is_empty : List A → Bool
  is_empty [] = true
  is_empty (x ∷ xs) = false

  pub keep-nil :
      (p : A → Bool) (xs : List A)
      → keep p xs ≡ []
      → all (λ x. if p x then false else true) xs ≡ true
  unfolding keep all
  keep-nil p [] h = refl
  keep-nil p (x ∷ xs) h = ground (arith, keep-nil p xs)

module _ {ℓ κ} {A : Type ℓ} where
  -- Every element of a list satisfies `P`.
  abbrev pub All : (A → Type κ) → List A → Type κ
  All P [] = Unit
  All P (x ∷ xs) = P x × All P xs

-- `name in names`
unfoldable pub contains : String → List String → Bool
contains k [] = false
contains k (x ∷ xs) = k == x || contains k xs

-- `names.count(name)`
unfoldable pub count : String → List String → ℕ
count k [] = 0
count k (x ∷ xs) = let rest = count k xs in if k == x then suc rest else rest

-- No name stands twice.
abbrev pub Distinct : List String → Type 0
Distinct [] = Unit
Distinct (x ∷ xs) = (contains x xs ≡ false) × Distinct xs

pub eq_sym : (a b : String) → (a == b) ≡ (b == a)
eq_sym a b = ground (arith, eq_iff a b, eq_iff b a)

-- None of the names stands in `seen`.
abbrev pub Apart : List String → List String → Type 0
Apart seen ks = All (λ k. contains k seen ≡ false) ks

pub Apart-nil : (ks : List String) → Apart [] ks
unfolding contains
Apart-nil [] = tt
Apart-nil (k ∷ ks) = (refl, Apart-nil ks)

-- One more name in `seen` is one name that the others are not.
pub Apart-cons :
    (b : String) (seen ks : List String)
    → Apart (b ∷ seen) ks ↔ ((contains b ks ≡ false) × Apart seen ks)
unfolding contains
Apart-cons b seen [] = (λ h. (refl, tt), λ h. tt)
Apart-cons b seen (k ∷ ks) =
    let ih = Apart-cons b seen ks in
    (
      λ (h, hs).
          let (absent, apart) = ih.0 hs in (ground (arith, eq_sym k b), (ground arith, apart)),
      λ (h, (here, apart)). (ground (arith, eq_sym k b), ih.1 (ground arith, apart)),
    )

pub all-of :
    (p : String → Bool) (ks : List String)
    → ((k : String) → contains k ks ≡ true → p k ≡ true)
    → all p ks ≡ true
unfolding all contains
all-of p [] h = refl
all-of p (k ∷ ks) h =
    let rest = all-of p ks (λ j m. h j (ground arith)) in
    let here = h k (ground (arith, eq_iff k k)) in ground arith

pub all-fails :
    (p : String → Bool) (k : String) (ks : List String)
    → contains k ks ≡ true
    → p k ≡ false
    → all p ks ≡ false
unfolding all contains
all-fails p k [] m h = cc
all-fails p k (j ∷ ks) m h = elim (Bool-cases (k == j)) [
  | inl e ↦ let same = (eq_iff k j).0 e in let fails = ap p (sym same) ∙ h in ground arith
  | inr e ↦ let rest = all-fails p k ks (ground arith) h in ground arith
]

pub keep-nil-contains :
    (p : String → Bool) (k : String) (xs : List String)
    → keep p xs ≡ []
    → contains k xs ≡ true
    → p k ≡ false
unfolding keep contains
keep-nil-contains p k [] h m = cc
keep-nil-contains p k (x ∷ xs) h m = elim (Bool-cases (p x)) [
  | inl e ↦ ground arith
  | inr e ↦ elim (Bool-cases (k == x)) [
    | inl same ↦ ap p ((eq_iff k x).0 same) ∙ e
    | inr other ↦ keep-nil-contains p k xs (ground arith) (ground arith)
  ]
]

pub keep-eq-nil :
    (p : String → Bool) (xs : List String)
    → ((k : String) → contains k xs ≡ true → p k ≡ false)
    → keep p xs ≡ []
unfolding keep contains
keep-eq-nil p [] h = refl
keep-eq-nil p (x ∷ xs) h =
    let ih = keep-eq-nil p xs (λ k m. h k (ground arith)) in
    let here = h x (ground (arith, eq_iff x x)) in ground arith

pub contains-append :
    (k : String) (xs ys : List String) → contains k (xs ++ ys) ≡ (contains k xs || contains k ys)
unfolding contains
contains-append k [] ys = refl
contains-append k (x ∷ xs) ys = ground (arith, contains-append k xs ys)

pub contains-keep :
    (p : String → Bool) (k : String) (xs : List String)
    → contains k (keep p xs) ≡ (p k && contains k xs)
unfolding contains keep
contains-keep p k [] = ground arith
contains-keep p k (x ∷ xs) =
    let ih = contains-keep p k xs in
    elim (Bool-cases (k == x)) [
      | inl e ↦ let same = ap p ((eq_iff k x).0 e) in ground arith
      | inr e ↦ ground arith
    ]
