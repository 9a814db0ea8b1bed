-- ===== src/Dispatch/Authors/Placed.antt =====
-- An author's value for an argument is the argument's value.
use djangorestframework_serv.Prelude.{
  ok, err, Result, ok-injective, is_empty, String, ◌≡◌, refl, sym, ap, ◌∙◌, Bool, true, false, ◌&&◌,
  not, Option, none, some, List, [], ◌∷◌, Dict, get, get-absent, get-update, first_some, keys,
  contains, Distinct, or_else, or_false_left, or_false_right, if◌then◌else◌, ◌==◌, arith, eq_iff,
  inl, inr, Bool-cases,
}
use djangorestframework_serv.Values.{Value, is_unset}
use djangorestframework_serv.Dispatch.Edge.{drop}
use djangorestframework_serv.Dispatch.Edge.Dicts.{get-drop, only}
use djangorestframework_serv.Dispatch.Authors.Claims.{
  claim-Distinct, own_names-Distinct, get-own_names, get-claim,
}
use djangorestframework_serv.Dispatch.Authors.{
  CallerNames, all_names, own_names, claim, supplied, place, placements, AuthorCall, Authored,
  seeds_answered, route_values, route_author_values, split_author_values,
}

same_both : (b : Bool) (o : Option Value) → o ≡ (if b then o else o)
same_both true o = refl
same_both false o = refl

abbrev claimed : List String → Dict Value → String → Option String → Option Value
claimed names vs k none = none
claimed names vs k (some key) = supplied names k (get key vs)

get-place :
    (j k : String) (o : Option Value) (placed : Dict Value)
    → get k (place j o placed) ≡ (if j == k then first_some o (get k placed) else get k placed)
unfolding get
get-place j k none placed = same_both (j == k) (get k placed)
get-place j k (some v) placed = refl

-- An argument takes the value of the key that claims it.
get-placements :
    (names : List String) (vs : Dict Value) (named : Dict String) (k : String)
    → Distinct (keys named)
    → get k (placements names vs named) ≡ claimed names vs k (get k named)
unfolding placements get
get-placements names vs [] k h = refl
get-placements names vs ((j, key) ∷ named) k (new, distinct) =
    let ih = get-placements names vs named k distinct in
    get-place j k (supplied names j (get key vs)) (placements names vs named)
    ∙ elim (Bool-cases (j == k)) [
      | inl e ↦
          let same = (eq_iff j k).0 e in
          let gone = ap (λ i. get i named) (sym same) ∙ get-absent j named new in
          let none_later = ih ∙ ap (claimed names vs k) gone in
          let here = ap (λ i. supplied names i (get key vs)) same in ground arith
      | inr e ↦ ground arith
    ]

contains-placements :
    (names : List String) (vs : Dict Value) (named : Dict String) (k : String)
    → contains k (keys named) ≡ false
    → contains k (keys (placements names vs named)) ≡ false
unfolding placements contains
contains-placements names vs [] k h = refl
contains-placements names vs ((j, key) ∷ named) k h =
    go (supplied names j (get key vs))
      (contains-placements names vs named k (or_false_right (k == j) _ h))
      (or_false_left (k == j) _ h)
  where
    go :
        (o : Option Value)
        → contains k (keys (placements names vs named)) ≡ false
        → (k == j) ≡ false
        → contains k (keys (place j o (placements names vs named))) ≡ false
    go none absent other = absent
    go (some v) absent other = ground arith

placements-Distinct :
    (names : List String) (vs : Dict Value) (named : Dict String)
    → Distinct (keys named)
    → Distinct (keys (placements names vs named))
unfolding placements
placements-Distinct names vs [] h = tt
placements-Distinct names vs ((j, key) ∷ named) (new, distinct) =
    go (supplied names j (get key vs)) (contains-placements names vs named j new)
      (placements-Distinct names vs named distinct)
  where
    go :
        (o : Option Value)
        → contains j (keys (placements names vs named)) ≡ false
        → Distinct (keys (placements names vs named))
        → Distinct (keys (place j o (placements names vs named)))
    go none absent rest = rest
    go (some v) absent rest = (absent, rest)

abbrev pub argument : String → Option (Dict Value) → Option Value
argument k none = none
argument k (some arguments) = get k arguments

-- Values that name an argument are put over what was there.
split_author_values-supplies :
    (callers : CallerNames) (wire : Dict String) (vs arguments : Dict Value) (k : String)
    (v : Value)
    → Distinct (keys vs)
    → contains k (all_names callers) ≡ true
    → get k vs ≡ some v
    → is_unset v ≡ false
    → argument k (split_author_values callers wire vs (some arguments)).arguments ≡ some v
unfolding split_author_values
split_author_values-supplies callers wire vs arguments k v distinct listed there here =
    let names : List String = all_names callers in
    let own : Dict String = own_names names vs in
    let named : Dict String = claim names wire vs own in
    let apart = claim-Distinct names wire vs own (own_names-Distinct names vs distinct) in
    let stands = get-claim names wire vs own k k (get-own_names names vs k v listed there here) in
    let counts : (not (is_unset v) && contains k names) ≡ true = ground arith in
    get-update k arguments (placements names vs named) (placements-Distinct names vs named apart)
    ∙ ap (λ o. first_some o (get k arguments))
        (get-placements names vs named k apart
          ∙ ap (claimed names vs k) stands
          ∙ ap (supplied names k) there
          ∙ ap (λ b. if b then some v else none) counts)

contains-drop :
    (names : List String) (d : Dict Value) (k : String)
    → contains k (keys d) ≡ false
    → contains k (keys (drop names d)) ≡ false
unfolding drop contains
contains-drop names [] k h = refl
contains-drop names ((j, v) ∷ d) k h = let ih = contains-drop names d k in ground arith

drop-Distinct :
    (names : List String) (d : Dict Value) → Distinct (keys d) → Distinct (keys (drop names d))
unfolding drop
drop-Distinct names [] h = tt
drop-Distinct names ((j, v) ∷ d) (new, distinct) =
    go (contains j names) (contains-drop names d j new) (drop-Distinct names d distinct)
  where
    go :
        (b : Bool)
        → contains j (keys (drop names d)) ≡ false
        → Distinct (keys (drop names d))
        → Distinct (keys (if b then drop names d else (j, v) ∷ drop names d))
    go true absent rest = rest
    go false absent rest = (absent, rest)

route_values-supplies :
    (call : AuthorCall) (provided arguments : Dict Value) (k : String) (v : Value)
    → Distinct (keys provided)
    → contains k (all_names call.callers) ≡ true
    → contains k call.shadowed ≡ false
    → get k provided ≡ some v
    → is_unset v ≡ false
    → argument k (route_values call provided (some arguments)).arguments ≡ some v
unfolding route_values split_author_values
route_values-supplies call provided arguments k v distinct listed unshadowed there here =
    split_author_values-supplies call.callers call.wire (drop call.shadowed provided) _ k v
      (drop-Distinct call.shadowed provided distinct) listed
      (get-drop k call.shadowed provided
        ∙ ap (λ b. only (not b) (get k provided)) unshadowed
        ∙ there)
      here

accepted :
    {A E : Type 0} (b : Bool) (a : A) (e : E) (found : A)
    → ◌≡◌ {A = Result E A} (if b then ok a else err e) (ok found)
    → a ≡ found
accepted true a e found h = ok-injective h
accepted false a e found h = cc

-- Where the spec's provider answers a value for an argument of the call, it is the argument's value,
-- over the hooks of the view and over what the caller sent. The name is not one that only a
-- filter reads and a callable hides, the keys of the answer are those of a dictionary, and an UNSET
-- answer is none.
pub route_author_values-supplies :
    (call : AuthorCall) (provided arguments : Dict Value) (authored : Authored) (k : String)
    (v : Value)
    → route_author_values call (some arguments) ≡ ok authored
    → call.answered ≡ some provided
    → Distinct (keys provided)
    → contains k (all_names call.callers) ≡ true
    → contains k call.shadowed ≡ false
    → get k provided ≡ some v
    → is_unset v ≡ false
    → argument k authored.arguments ≡ some v
unfolding route_author_values
route_author_values-supplies call provided arguments authored k v routed_as answer distinct listed
      unshadowed there here =
    let answers : Dict Value = or_else call.answered [] in
    let same : answers ≡ provided = ap (λ o. or_else o []) answer in
    ap (λ a. argument k a.arguments)
      (sym (accepted (is_empty (seeds_answered call answers)) _ _ authored routed_as))
    ∙ ap (λ d. argument k (route_values call d (some arguments)).arguments) same
    ∙ route_values-supplies call provided arguments k v distinct listed unshadowed there here
