-- ===== src/Dispatch/Authors/Claims.antt =====
-- Which key of an author's values claims an argument.
use djangorestframework_serv.Prelude.{
  String, ◌≡◌, refl, sym, ap, ◌∙◌, Bool, true, false, ◌&&◌, not, some, List, [], ◌∷◌, Dict, get,
  get-put, put-Distinct, has, put, keys, contains, Distinct, is_some, some-inj, if◌then◌else◌, ◌==◌,
  arith, eq_iff, inl, inr, Bool-cases,
}
use djangorestframework_serv.Values.{Value, is_unset}
use djangorestframework_serv.Dispatch.Authors.{own_names, wire_name, claim}

pub claim-Distinct :
    (names : List String) (wire : Dict String) (vs : Dict Value) (named : Dict String)
    → Distinct (keys named)
    → Distinct (keys (claim names wire vs named))
unfolding claim
claim-Distinct names wire [] named h = h
claim-Distinct names wire ((k, v) ∷ vs) named h =
    claim-Distinct names wire vs _
      (go (not (contains k names) && not (has (wire_name wire k) named)))
  where
    go : (b : Bool) → Distinct (keys (if b then put (wire_name wire k) k named else named))
    go true = put-Distinct (wire_name wire k) k named h
    go false = h

contains-own_names :
    (names : List String) (vs : Dict Value) (k : String)
    → contains k (keys vs) ≡ false
    → contains k (keys (own_names names vs)) ≡ false
unfolding own_names contains
contains-own_names names [] k h = refl
contains-own_names names ((j, v) ∷ vs) k h = let ih = contains-own_names names vs k in ground arith

pub own_names-Distinct :
    (names : List String) (vs : Dict Value)
    → Distinct (keys vs)
    → Distinct (keys (own_names names vs))
unfolding own_names
own_names-Distinct names [] h = tt
own_names-Distinct names ((j, v) ∷ vs) (new, distinct) =
    go (contains j names && not (is_unset v)) (contains-own_names names vs j new)
      (own_names-Distinct names vs distinct)
  where
    go :
        (b : Bool)
        → contains j (keys (own_names names vs)) ≡ false
        → Distinct (keys (own_names names vs))
        → Distinct (keys (if b then (j, j) ∷ own_names names vs else own_names names vs))
    go true absent rest = (absent, rest)
    go false absent rest = rest

pub get-own_names :
    (names : List String) (vs : Dict Value) (k : String) (v : Value)
    → contains k names ≡ true
    → get k vs ≡ some v
    → is_unset v ≡ false
    → get k (own_names names vs) ≡ some k
unfolding own_names get
get-own_names names [] k v listed there here = cc
get-own_names names ((j, w) ∷ vs) k v listed there here = elim (Bool-cases (j == k)) [
  | inl e ↦
      let same = (eq_iff j k).0 e in
      let named = ap (λ i. contains i names) same ∙ listed in
      let value : w ≡ v = some-inj (ap (λ b. if b then some w else get k vs) (sym e) ∙ there) in
      let kept = ap is_unset value ∙ here in ground (arith, same)
  | inr e ↦
      let later : get k vs ≡ some v = ap (λ b. if b then some w else get k vs) (sym e) ∙ there in
      let ih = get-own_names names vs k v listed later here in ground (arith, eq_iff j k)
]

-- A claim that stands is not taken over.
pub get-claim :
    (names : List String) (wire : Dict String) (vs : Dict Value) (named : Dict String)
    (k key : String)
    → get k named ≡ some key
    → get k (claim names wire vs named) ≡ some key
unfolding claim
get-claim names wire [] named k key h = h
get-claim names wire ((j, v) ∷ vs) named k key h =
    get-claim names wire vs _ k key (go (has (wire_name wire j) named) refl)
  where
    go :
        (b : Bool)
        → has (wire_name wire j) named ≡ b
        → get k (if not (contains j names) && not b then put (wire_name wire j) j named else named)
          ≡ some key
    go true e = ground arith
    go false e = elim (Bool-cases (wire_name wire j == k)) [
      | inl same ↦
          let there = ap (λ i. is_some (get i named)) ((eq_iff (wire_name wire j) k).0 same) in
          let some_there = ap is_some h in ground arith
      | inr other ↦ let kept = get-put (wire_name wire j) k j named in ground arith
    ]
