-- ===== src/Construction/Aliases.antt =====
-- The annotations that a selector spec generates for its affordances (`_validate_affordances` of
-- types/selector_spec.py): each has a name of its own.
use djangorestframework_serv.Prelude.{
  String, ◌≡◌, refl, ap, ◌∙◌, Option, none, some, List, [], ◌∷◌, ◌++◌, contains, Dict, get, is_some,
  keys, or_else, ok, err, refuse_if, ◌==◌, Distinct, Apart, Apart-cons, >>=-eq-ok, >>-eq-ok,
  ok-injective, refuse_if-eq-ok, arith, eq_sym,
}
use djangorestframework_serv.Config.{Config}
use djangorestframework_serv.Specs.{
  Affordance, declared, DeclarerEntry, declarer, not_declarer, DeclarerKey, text_key, other_key,
  DeclarerMapping, declarer_mapping, not_mapping, SelectorSpec,
}
use djangorestframework_serv.Construction.{
  affordance_alias, validate_aliases, validate_declarers, validate_mapping, as_check,
  validate_selector_affordances,
}

-- The aliases of one entry of the mapping, and of all of it, in order.
abbrev pub aliases : String → List Affordance → List String
aliases name [] = []
aliases name (a ∷ as') = affordance_alias name a.code ∷ aliases name as'

abbrev entry_aliases : DeclarerKey → DeclarerEntry → List String
entry_aliases (text_key name) (declarer affordances) = aliases name (declared affordances)
entry_aliases _ _ = []

abbrev pub all_aliases : List (DeclarerKey × DeclarerEntry) → List String
all_aliases [] = []
all_aliases ((name, entry) ∷ rest) = entry_aliases name entry ++ all_aliases rest

abbrev pub generated : SelectorSpec → List String
generated spec = elim spec.affordances [
  | none ↦ []
  | some m ↦ elim m [ declarer_mapping entries ↦ all_aliases entries | not_mapping t ↦ [] ]
]

has-keys : (k : String) (d : Dict String) → contains k (keys d) ≡ is_some (get k d)
unfolding contains get
has-keys k [] = refl
has-keys k ((j, v) ∷ d) = ground (arith, has-keys k d, eq_sym k j)

-- What the loop over one entry adds to the aliases owned so far.
aliases_sound :
    (own : List String) (name : String) (owners owners' : Dict String) (as' : List Affordance)
    (rest : List String)
    → validate_aliases own name owners as' ≡ ok owners'
    → Apart (keys owners') rest × (Distinct rest × Apart own rest)
    → Apart (keys owners) (aliases name as' ++ rest)
      × (Distinct (aliases name as' ++ rest) × Apart own (aliases name as' ++ rest))
unfolding validate_aliases
aliases_sound own name owners owners' [] rest h later = rw (ap (λ o. keys o) (ok-injective h)) later
aliases_sound own name owners owners' (a ∷ as') rest h later =
    let alias = affordance_alias name a.code in
    let (free, h1) = >>-eq-ok (refuse_if (contains alias own) _) _ h in
    let (new, h2) = >>-eq-ok (refuse_if (is_some (get alias owners)) _) _ h1 in
    let (apart, (distinct, others)) =
      aliases_sound own name ((alias, name) ∷ owners) owners' as' rest h2 later in
    let (absent, apart') = (Apart-cons alias (keys owners) (aliases name as' ++ rest)).0 apart in
    (
      (has-keys alias owners ∙ refuse_if-eq-ok _ _ new, apart'),
      ((absent, distinct), (refuse_if-eq-ok _ _ free, others)),
    )

declarers_sound :
    (own : List String) (owners owners' : Dict String)
    (entries : List (DeclarerKey × DeclarerEntry))
    → validate_declarers own owners entries ≡ ok owners'
    → Apart (keys owners) (all_aliases entries)
      × (Distinct (all_aliases entries) × Apart own (all_aliases entries))
unfolding validate_declarers
declarers_sound own owners owners' [] h = (tt, (tt, tt))
declarers_sound own owners owners' ((other_key t, entry) ∷ rest) h = absurd (cc)
declarers_sound own owners owners' ((text_key name, not_declarer t) ∷ rest) h =
    absurd (ground arith)
declarers_sound own owners owners' ((text_key name, declarer affordances) ∷ rest) h =
    let (named, h1) = >>-eq-ok (refuse_if (name == "") _) _ h in
    let (mid, found, h2) =
      >>=-eq-ok (validate_aliases own name owners (declared affordances)) _ h1 in
    aliases_sound own name owners mid (declared affordances) (all_aliases rest) found
      (declarers_sound own mid owners' rest h2)

mapping_sound :
    (own : List String) (entries : List (DeclarerKey × DeclarerEntry))
    → as_check (validate_declarers own [] entries) ≡ ok tt
    → Distinct (all_aliases entries) × Apart own (all_aliases entries)
mapping_sound own entries h = go (validate_declarers own [] entries) refl h
  where
    go :
        (r : Config (Dict String))
        → validate_declarers own [] entries ≡ r
        → as_check r ≡ ok tt
        → Distinct (all_aliases entries) × Apart own (all_aliases entries)
    go (ok owners) e h = (declarers_sound own [] owners entries e).1
    go (err refused) e h = absurd (cc)

-- Of a selector spec that was built, each affordance of each entry is answered under an annotation
-- that no other affordance and no declared annotation has, although the alias joins the entry's
-- name and the code by underscores that both may hold.
pub generated-Distinct :
    (spec : SelectorSpec)
    → validate_selector_affordances spec ≡ ok tt
    → Distinct (generated spec) × Apart (keys (or_else spec.annotations [])) (generated spec)
unfolding validate_selector_affordances
generated-Distinct spec h = go spec.affordances refl h
  where
    own : List String
    own = keys (or_else spec.annotations [])

    go :
        (o : Option DeclarerMapping)
        → spec.affordances ≡ o
        → validate_mapping own o ≡ ok tt
        → Distinct (generated spec) × Apart own (generated spec)
    go none e h = rw e (tt, tt)
    go (some (not_mapping t)) e h = absurd (cc)
    go (some (declarer_mapping entries)) e h = rw e (mapping_sound own entries h)
