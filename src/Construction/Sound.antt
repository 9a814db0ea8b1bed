-- ===== src/Construction/Sound.antt =====
-- What holds of a spec that was built.
use djangorestframework_serv.Prelude.{
  ℕ, ◌+◌, String, ◌≡◌, refl, ap, ◌↔◌, Bool, true, false, ◌&&◌, not, Option, none, some, List, [],
  ◌∷◌, contains, is_some, ok, err, refuse_if, Distinct, Apart, Apart-nil, Apart-cons, All,
  chain_iff, refuse_if_iff, trans_iff, >>=-eq-ok, >>-eq-ok, ok-injective, refuse_if-eq-ok, arith,
  eq_iff,
}
use djangorestframework_serv.Values.{Value}
use djangorestframework_serv.Config.{ConfigError, Config, code_declared_twice, row_condition_on_set}
use djangorestframework_serv.Specs.{
  Affordance, is_row_condition, AffordanceEntry, an_affordance, not_affordance, AffordanceSequence,
  affordance_sequence, not_sequence, affordance_entries, Read, channel, ServiceSpec, ManyArgument,
  many_name, not_a_text,
}
use djangorestframework_serv.Construction.{
  validate_metadata, Reads, ReadEntry, a_read, not_read, text, not_reads, reads_of,
  validate_read_entries, validate_reads, is_identifier, is_argument_name, is_default_argument,
  default_many_argument, validate_many_argument, validate_target_lookups,
  validate_affordance_entries, operates_on_set, validate_sequence, validate_service_affordances,
  construct_service,
}

abbrev pub codes : List Affordance → List String
codes [] = []
codes (a ∷ as') = a.code ∷ codes as'

abbrev pub read_names : List Read → List String
read_names [] = []
read_names (r ∷ rs) = (channel r).name ∷ read_names rs

abbrev pub IsAffordance : AffordanceEntry → Type 0
IsAffordance (an_affordance a) = Unit
IsAffordance (not_affordance t) = ⊥

-- Every entry is an affordance, no code stands twice, and none on a set is a condition on the row.
abbrev pub AreAffordances : Bool → List AffordanceEntry → Type 0
AreAffordances on_set entries =
    All IsAffordance entries
    × (Distinct (codes (affordance_entries entries))
        × All (λ a. (is_row_condition a.when && on_set) ≡ false) (affordance_entries entries))

affordance_entries_iff :
    (on_set : Bool) (i : ℕ) (seen : List String) (entries : List AffordanceEntry)
    → (validate_affordance_entries on_set i seen entries ≡ ok tt)
      ↔ (Apart seen (codes (affordance_entries entries)) × AreAffordances on_set entries)
unfolding validate_affordance_entries
affordance_entries_iff on_set i seen [] = (λ h. (tt, (tt, (tt, tt))), λ h. refl)
affordance_entries_iff on_set i seen (not_affordance t ∷ rest) = (λ h. cc, λ h. absurd h.1.0.0)
affordance_entries_iff on_set i seen (an_affordance a ∷ rest) =
    let fresh = Apart-cons a.code seen (codes (affordance_entries rest)) in
    trans_iff
      (chain_iff (refuse_if_iff (contains a.code seen) (code_declared_twice a.code)) (
        chain_iff (refuse_if_iff (is_row_condition a.when && on_set) (row_condition_on_set i))
          (affordance_entries_iff on_set (i + 1) (a.code ∷ seen) rest)))
      (
        λ (new, (row, (apart, (entries, (distinct, rows))))).
            let (absent, apart') = fresh.0 apart in
            ((new, apart'), ((tt, entries), ((absent, distinct), (row, rows)))),
        λ ((new, apart'), ((_, entries), ((absent, distinct), (row, rows)))).
            (new, (row, (fresh.1 (absent, apart'), (entries, (distinct, rows))))),
      )

abbrev pub AreDeclared : Bool → Option AffordanceSequence → Type 0
AreDeclared on_set none = Unit
AreDeclared on_set (some (not_sequence t)) = ⊥
AreDeclared on_set (some (affordance_sequence entries)) = AreAffordances on_set entries

sequence_iff :
    (on_set : Bool) (o : Option AffordanceSequence)
    → (validate_sequence on_set o ≡ ok tt) ↔ AreDeclared on_set o
sequence_iff on_set none = (λ h. tt, λ h. refl)
sequence_iff on_set (some (not_sequence t)) = (λ h. cc, λ h. absurd h)
sequence_iff on_set (some (affordance_sequence entries)) =
    let (to, from) = affordance_entries_iff on_set 0 [] entries in
    (λ h. (to h).1, λ h. from (Apart-nil (codes (affordance_entries entries)), h))

-- The affordances of a service spec pass exactly where they are a sequence of affordances with
-- distinct codes, none of them a condition on the row where the spec operates on a set.
pub validate_service_affordances_iff :
    (spec : ServiceSpec)
    → (validate_service_affordances spec ≡ ok tt)
      ↔ AreDeclared (operates_on_set spec) spec.affordances
unfolding validate_service_affordances
validate_service_affordances_iff spec = sequence_iff (operates_on_set spec) spec.affordances

abbrev pub as_entries : List Read → List ReadEntry
as_entries [] = []
as_entries (r ∷ rs) = a_read r ∷ as_entries rs

read_entries_sound :
    (label : String) (i : ℕ) (seen : List String) (entries : List ReadEntry) (rs : List Read)
    → validate_read_entries label i seen entries ≡ ok rs
    → (entries ≡ as_entries rs) × (Apart seen (read_names rs) × Distinct (read_names rs))
unfolding validate_read_entries
read_entries_sound label i seen [] rs h = rw (← ok-injective h) (refl, (tt, tt))
read_entries_sound label i seen (not_read t ∷ rest) rs h = cc
read_entries_sound label i seen (a_read r ∷ rest) rs h =
    let name = (channel r).name in
    let (new, more) = >>-eq-ok (refuse_if (contains name seen) _) _ h in
    let (rs', found, made) =
      >>=-eq-ok (validate_read_entries label (i + 1) (name ∷ seen) rest) _ more in
    let (same, (apart, distinct)) = read_entries_sound label (i + 1) (name ∷ seen) rest rs' found in
    let (absent, apart') = (Apart-cons name seen (read_names rs')).0 apart in
    rw (← ok-injective made)
      (ap (λ es. a_read r ∷ es) same, ((refuse_if-eq-ok _ _ new, apart'), (absent, distinct)))

reads_sound :
    (label : String) (reads : Reads) (rs : List Read)
    → validate_reads label reads ≡ ok rs
    → (reads ≡ reads_of (as_entries rs)) × Distinct (read_names rs)
unfolding validate_reads
reads_sound label (text s) rs h = (cc, absurd (no_reads h))
  where
    no_reads : {e : ConfigError} → ◌≡◌ {A = Config (List Read)} (err e) (ok rs) → ⊥
    no_reads p = cc
reads_sound label (not_reads t) rs h = (cc, absurd (no_reads h))
  where
    no_reads : {e : ConfigError} → ◌≡◌ {A = Config (List Read)} (err e) (ok rs) → ⊥
    no_reads p = cc
reads_sound label (reads_of entries) rs h =
    let (same, (apart, distinct)) = read_entries_sound label 0 [] entries rs h in
    (ap reads_of same, distinct)

-- The name is a text, and an identifier.
abbrev pub IsArgumentName : ManyArgument → Type 0
IsArgumentName name = (text : String) × (name ≡ many_name text) × (is_identifier text ≡ true)

-- What `__post_init__` of a service spec establishes.
pub record IsBuilt (spec : ServiceSpec) : Type 0 where
  pub identifier : IsArgumentName spec.many_argument
  pub names_a_list : spec.many ≡ false → spec.many_argument ≡ many_name default_many_argument
  pub one_lookup :
      (is_some spec.instance_selector_spec && is_some spec.collection_selector_spec) ≡ false
  pub list_has_no_instance : spec.many ≡ true → is_some spec.instance_selector_spec ≡ false
  pub list_has_no_collection : spec.many ≡ true → is_some spec.collection_selector_spec ≡ false
  pub affordances : AreDeclared (operates_on_set spec) spec.affordances
  pub reads : Distinct (read_names spec.reads)

many_argument_sound :
    (spec : ServiceSpec)
    → validate_many_argument spec ≡ ok tt
    → IsArgumentName spec.many_argument
      × (spec.many ≡ false → spec.many_argument ≡ many_name default_many_argument)
unfolding validate_many_argument
many_argument_sound spec h =
    let (a, b) = >>-eq-ok (refuse_if (not (is_argument_name spec.many_argument)) _) _ h in
    (
      named spec.many_argument (ground (arith, refuse_if-eq-ok _ _ a)),
      λ single. is_the_default spec.many_argument (ground (arith, refuse_if-eq-ok _ _ b)),
    )
  where
    named : (name : ManyArgument) → is_argument_name name ≡ true → IsArgumentName name
    named (many_name text') e = (text', refl, e)
    named (not_a_text t) e = cc

    is_the_default :
        (name : ManyArgument)
        → is_default_argument name ≡ true
        → name ≡ many_name default_many_argument
    is_the_default (many_name text') e = ap many_name ((eq_iff text' default_many_argument).0 e)
    is_the_default (not_a_text t) e = cc

target_lookups_sound :
    (spec : ServiceSpec)
    → validate_target_lookups spec ≡ ok tt
    → ((is_some spec.instance_selector_spec && is_some spec.collection_selector_spec) ≡ false)
      × ((spec.many ≡ true → is_some spec.instance_selector_spec ≡ false)
          × (spec.many ≡ true → is_some spec.collection_selector_spec ≡ false))
unfolding validate_target_lookups
target_lookups_sound spec h = ground arith

-- A service spec that was built is the one declared, with its reads as a tuple, and satisfies
-- `IsBuilt`.
pub construct_service_sound :
    (metadata : Value) (reads : Reads) (fields built : ServiceSpec)
    → construct_service metadata reads fields ≡ ok built
    → (reads ≡ reads_of (as_entries built.reads))
      × (built ≡ record fields { reads = built.reads })
      × IsBuilt built
unfolding construct_service
construct_service_sound metadata reads fields built h =
    let (m, h1) = >>-eq-ok (validate_metadata metadata "ServiceSpec") _ h in
    let (rs, found, h2) = >>=-eq-ok (validate_reads "ServiceSpec" reads) _ h1 in
    let spec : ServiceSpec = record fields { reads = rs } in
    let (argument, h3) = >>-eq-ok (validate_many_argument spec) _ h2 in
    let (lookups, h4) = >>-eq-ok (validate_target_lookups spec) _ h3 in
    let (affordances, h5) = >>-eq-ok (validate_service_affordances spec) _ h4 in
    let (same, distinct) = reads_sound "ServiceSpec" reads rs found in
    let (identifier, names_a_list) = many_argument_sound spec argument in
    let (one, (no_instance, no_collection)) = target_lookups_sound spec lookups in
    rw (← ok-injective h5) (
      same,
      refl,
      record {
        identifier = identifier;
        names_a_list = names_a_list;
        one_lookup = one;
        list_has_no_instance = no_instance;
        list_has_no_collection = no_collection;
        affordances = (validate_service_affordances_iff spec).0 affordances;
        reads = distinct;
      },
    )
