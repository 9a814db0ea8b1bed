-- ===== src/Channels/Routed.antt =====
-- What a validated set of declarations routes.
use djangorestframework_serv.Prelude.{
  count, keep-nil-contains, String, ◌≡◌, refl, ◌∙◌, Bool, true, false, not, Option, none, some,
  or_else, List, [], ◌∷◌, ◌++◌, Dict, get, put, contains, is_empty, if◌then◌else◌, ltb, ok,
  >>-eq-ok, refuse_if, refuse_if-eq-ok, ◌==◌, Distinct, All, arith, get-put, or_false_left,
  or_false_right, Bool-cases, inl, inr, eq_refl, eq_sym,
}
use djangorestframework_serv.Config.{Label}
use djangorestframework_serv.Values.{Value, is_unset, is_null, null}
use djangorestframework_serv.Specs.{Read, channel, Channel}
use djangorestframework_serv.Channels.{
  declared_channels, collisions, repeated, validate_channel_names, routed_value, route_one,
  route_from, routed,
}

count-absent : (k : String) (xs : List String) → count k xs ≡ 0 → contains k xs ≡ false
unfolding count contains
count-absent k [] h = refl
count-absent k (x ∷ xs) h = let ih = count-absent k xs in ground arith

-- Where no name is counted twice, the names are distinct.
counted-Distinct :
    (xs : List String)
    → ((k : String) → contains k xs ≡ true → ltb 1 (count k xs) ≡ false)
    → Distinct xs
unfolding count contains
counted-Distinct [] h = tt
counted-Distinct (x ∷ xs) h = (
  count-absent x xs (let one = h x (ground (arith, eq_refl x)) in ground (arith, eq_refl x)),
  counted-Distinct xs (λ k m. let more = h k (ground arith) in ground arith),
)

empty_of : (xs : List String) → not (is_empty xs) ≡ false → xs ≡ []
empty_of [] h = refl
empty_of (x ∷ xs) h = cc

get-route_one :
    (c : Channel) (arguments done : Dict Value) (k : String)
    → get k (route_one c arguments done) ≡ (
        if c.name == k
        then if is_unset (routed_value c arguments)
          then get k done
          else some (routed_value c arguments)
        else get k done)
get-route_one c arguments done k =
    go (is_unset (routed_value c arguments)) (get-put c.name k (routed_value c arguments) done)
  where
    go :
        (b : Bool)
        → get k (put c.name (routed_value c arguments) done)
          ≡ (if c.name == k then some (routed_value c arguments) else get k done)
        → get k (if b then done else put c.name (routed_value c arguments) done) ≡ (
            if c.name == k
            then if b then get k done else some (routed_value c arguments)
            else get k done)
    go true h = ground arith
    go false h = h

-- A routed value under a name that is not declared from here on was there before.
route_from-others :
    (rs : List Read) (arguments done : Dict Value) (k : String)
    → contains k (declared_channels rs) ≡ false
    → get k (route_from rs arguments done) ≡ get k done
unfolding route_from contains
route_from-others [] arguments done k h = refl
route_from-others (r ∷ rs) arguments done k h =
    let one = get-route_one (channel r) arguments done k in
    let other = eq_sym (channel r).name k ∙ or_false_left (k == (channel r).name) _ h in
    route_from-others rs arguments (route_one (channel r) arguments done) k (or_false_right _ _ h)
    ∙ ground arith

abbrev unless_unset : Value → Option Value
unless_unset Value.unset = none
unless_unset v = some v

-- What stands under a declaration, by the argument of its name and by its default: a missing
-- argument and None give way to the default, and UNSET is no value.
abbrev pub declared_value : (argument : Option Value) → (default : Value) → Option Value
declared_value none default = unless_unset default
declared_value (some Value.null) default = unless_unset default
declared_value (some v) default = unless_unset v

abbrev pub RoutesOwn : Dict Value → Dict Value → Read → Type 0
RoutesOwn arguments found r =
    get (channel r).name found ≡ declared_value (get (channel r).name arguments) (channel r).default

routed_value_lem :
    (c : Channel) (arguments : Dict Value)
    → (if is_unset (routed_value c arguments) then none else some (routed_value c arguments))
      ≡ declared_value (get c.name arguments) c.default
routed_value_lem c arguments = go (get c.name arguments)
  where
    unset_lem : (v : Value) → (if is_unset v then none else some v) ≡ unless_unset v
    unset_lem v = ground arith

    go :
        (o : Option Value)
        → (if is_unset (if is_null (or_else o null) then c.default else or_else o null)
            then none
            else some (if is_null (or_else o null) then c.default else or_else o null))
          ≡ declared_value o c.default
    go none = unset_lem c.default
    go (some Value.null) = unset_lem c.default
    go (some v) = refl

route_from-own :
    (rs : List Read) (arguments done : Dict Value)
    → Distinct (declared_channels rs)
    → All (λ k. get k done ≡ none) (declared_channels rs)
    → All (RoutesOwn arguments (route_from rs arguments done)) rs
unfolding route_from contains
route_from-own [] arguments done distinct fresh = tt
route_from-own (r ∷ rs) arguments done (new, distinct) (absent, fresh) = (
  route_from-others rs arguments (route_one (channel r) arguments done) (channel r).name new ∙ own,
  route_from-own rs arguments (route_one (channel r) arguments done) distinct
      (still_fresh (declared_channels rs) new fresh),
)
  where
    written : get (channel r).name (route_one (channel r) arguments done) ≡ (
        if is_unset (routed_value (channel r) arguments)
        then none
        else some (routed_value (channel r) arguments))
    written =
        let one = get-route_one (channel r) arguments done (channel r).name in
        ground (arith, eq_refl (channel r).name)

    own : RoutesOwn arguments (route_one (channel r) arguments done) r
    own = written ∙ routed_value_lem (channel r) arguments

    still_fresh :
        (ks : List String)
        → contains (channel r).name ks ≡ false
        → All (λ k. get k done ≡ none) ks
        → All (λ k. get k (route_one (channel r) arguments done) ≡ none) ks
    still_fresh [] apart none_yet = tt
    still_fresh (k ∷ ks) apart (here, more) = (
      let one = get-route_one (channel r) arguments done k in
          let other = or_false_left ((channel r).name == k) _ apart in ground arith,
      still_fresh ks (or_false_right _ _ apart) more,
    )

abbrev the_empty : Dict Value
the_empty = []

fresh_dict : (ks : List String) → All (λ k. get k the_empty ≡ none) ks
unfolding get
fresh_dict [] = tt
fresh_dict (k ∷ ks) = (refl, fresh_dict ks)

-- Of a set of declarations that was validated: the names are distinct and none of them is reserved.
validated_names :
    (seeds : List String) (label : Label) (declarations : List Read) (reserved : List String)
    → validate_channel_names seeds label declarations reserved ≡ ok tt
    → Distinct (declared_channels declarations)
      × ((k : String)
          → contains k (seeds ++ reserved) ≡ true
          → contains k (declared_channels declarations) ≡ false)
unfolding validate_channel_names
validated_names seeds label declarations reserved h =
    let names = declared_channels declarations in
    let (apart, more) =
      >>-eq-ok (refuse_if (not (is_empty (collisions (seeds ++ reserved) names))) _) _ h in
    let (once, _) = >>-eq-ok (refuse_if (not (is_empty (repeated names))) _) _ more in
    let no_collision =
      empty_of (collisions (seeds ++ reserved) names) (refuse_if-eq-ok _ _ apart) in
    let no_repeat = empty_of (repeated names) (refuse_if-eq-ok _ _ once) in
    (
      counted-Distinct names
          (λ k m. keep-nil-contains (λ j. ltb 1 (count j names)) k names no_repeat m),
      λ k taken. elim (Bool-cases (contains k names)) [
        | inl m ↦
            let free =
              keep-nil-contains (λ j. contains j (seeds ++ reserved)) k names no_collision m in
            cc
        | inr absent ↦ absent
      ],
    )

-- From arguments of any shape, a validated set of declarations routes under each declared name the
-- argument, or the default where the argument is missing or None, or nothing where there is no
-- default either; and it routes nothing under a reserved name.
pub routed_lem :
    (seeds : List String) (label : Label) (declarations : List Read) (reserved : List String)
    (arguments : Dict Value) (k : String)
    → validate_channel_names seeds label declarations reserved ≡ ok tt
    → All (RoutesOwn arguments (routed declarations arguments)) declarations
      × (contains k (seeds ++ reserved) ≡ true → get k (routed declarations arguments) ≡ none)
unfolding routed
routed_lem seeds label declarations reserved arguments k h =
    let (distinct, apart) = validated_names seeds label declarations reserved h in
    (
      route_from-own declarations arguments [] distinct
          (fresh_dict (declared_channels declarations)),
      λ taken. route_from-others declarations arguments [] k (apart k taken) ∙ (unfold get in refl),
    )
