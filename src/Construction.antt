-- ===== src/Construction.antt =====
-- What `ServiceSpec` and `SelectorSpec` check when they are built (`__post_init__` of
-- types/service_spec.py and types/selector_spec.py, with types/utils.py).
pub mod Sound
pub mod Aliases
use Prim.Native.Char.{code}
use Prim.Native.String.{◌++◌ as text_append}
use djangorestframework_serv.Prelude.{
  ℕ, ◌+◌, String, Bool, true, false, ◌&&◌, ◌||◌, not, Option, none, some, List, [], ◌∷◌, ◌++◌,
  contains, Dict, get, if◌then◌else◌, is_some, is_empty, keys, or_else, Result, ok, err, ◌>>=◌,
  ◌>>◌, refuse_if, ◌==◌, leb, nat_eq,
}
use djangorestframework_serv.Values.{Value, null, dict}
use djangorestframework_serv.Config.{
  ConfigError, Config, Checked, metadata_not_a_mapping, reads_not_a_sequence, read_not_declared,
  read_declared_twice, bad_many_argument, many_argument_without_many, two_target_lookups,
  lookup_with_many, affordances_not_a_sequence, not_an_affordance, code_declared_twice,
  row_condition_on_set, affordances_not_a_mapping, affordance_key_not_text,
  not_an_affordance_declarer, alias_taken_by_annotation, alias_declared_twice,
}
use djangorestframework_serv.Specs.{
  Affordance, is_row_condition, AffordanceEntry, an_affordance, not_affordance, AffordanceSequence,
  affordance_sequence, not_sequence, declared, Channel, Read, channel, DeclarerEntry, declarer,
  not_declarer, DeclarerKey, text_key, other_key, DeclarerMapping, declarer_mapping, not_mapping,
  SelectorSpec, ServiceSpec, ManyArgument, many_name, not_a_text,
}

-- `validate_metadata`
unfoldable pub validate_metadata : Value → String → Checked
validate_metadata null label = ok tt
validate_metadata (dict entries) label = ok tt
validate_metadata _ label = err (metadata_not_a_mapping label)

-- What a caller passes as `reads`.
pub data ReadEntry : Type 0 where
  a_read : Read → ReadEntry
  not_read : String → ReadEntry

pub data Reads : Type 0 where
  text not_reads : String → Reads
  reads_of : List ReadEntry → Reads

-- The loop of `validate_reads`: from the index `i`, with the names that stand before it.
unfoldable pub validate_read_entries :
    String → ℕ → List String → List ReadEntry → Config (List Read)
unfolding contains
validate_read_entries label i names [] = ok []
validate_read_entries label i names (not_read t ∷ rest) = err (read_not_declared label i)
validate_read_entries label i names (a_read r ∷ rest) = do
  refuse_if (contains (channel r).name names) (read_declared_twice label (channel r).name)
  reads ← validate_read_entries label (i + 1) ((channel r).name ∷ names) rest
  ok (r ∷ reads)

unfoldable pub validate_reads : String → Reads → Config (List Read)
unfolding validate_read_entries
validate_reads label (text s) = err (reads_not_a_sequence label)
validate_reads label (not_reads t) = err (reads_not_a_sequence label)
validate_reads label (reads_of entries) = validate_read_entries label 0 [] entries

abbrev is_letter : ℕ → Bool
is_letter c = (leb b'A' c && leb c b'Z') || ((leb b'a' c && leb c b'z') || nat_eq c b'_')

abbrev is_digit : ℕ → Bool
is_digit c = leb b'0' c && leb c b'9'

unfoldable pub is_word : String → Bool
is_word String.[] = true
is_word (String.◌∷◌ c s) = (is_letter (code c) || is_digit (code c)) && is_word s

-- `_MANY_ARGUMENT_NAME.fullmatch(name)`, for `[A-Za-z_][A-Za-z0-9_]*`
unfoldable pub is_identifier : String → Bool
unfolding is_word
is_identifier String.[] = false
is_identifier (String.◌∷◌ c s) = is_letter (code c) && is_word s

abbrev pub default_many_argument : String
default_many_argument = "items"

-- `isinstance(name, str)`, and the pattern matches the whole of it
abbrev pub is_argument_name : ManyArgument → Bool
is_argument_name (many_name name) = is_identifier name
is_argument_name (not_a_text t) = false

-- `name == _DEFAULT_MANY_ARGUMENT`
abbrev pub is_default_argument : ManyArgument → Bool
is_default_argument (many_name name) = name == default_many_argument
is_default_argument (not_a_text t) = false

abbrev shown_argument : ManyArgument → String
shown_argument (many_name name) = name
shown_argument (not_a_text t) = t

-- `_validate_many_argument`
unfoldable pub validate_many_argument : ServiceSpec → Checked
unfolding is_identifier
validate_many_argument spec = do
  refuse_if (not (is_argument_name spec.many_argument))
      (bad_many_argument (shown_argument spec.many_argument))
  refuse_if (not spec.many && not (is_default_argument spec.many_argument))
      (many_argument_without_many (shown_argument spec.many_argument))

unfoldable pub validate_target_lookups : ServiceSpec → Checked
validate_target_lookups spec = do
  refuse_if (is_some spec.instance_selector_spec && is_some spec.collection_selector_spec)
      two_target_lookups
  if not spec.many then ok tt else do
    refuse_if (is_some spec.instance_selector_spec) (lookup_with_many "instance_selector_spec")
    refuse_if (is_some spec.collection_selector_spec) (lookup_with_many "collection_selector_spec")

-- The loop of `_validate_affordances` of a service spec that operates on a set or not.
unfoldable pub validate_affordance_entries :
    (on_set : Bool) → ℕ → List String → List AffordanceEntry → Checked
unfolding contains is_row_condition
validate_affordance_entries on_set i codes [] = ok tt
validate_affordance_entries on_set i codes (not_affordance t ∷ rest) = err (not_an_affordance i)
validate_affordance_entries on_set i codes (an_affordance a ∷ rest) = do
  refuse_if (contains a.code codes) (code_declared_twice a.code)
  refuse_if (is_row_condition a.when && on_set) (row_condition_on_set i)
  validate_affordance_entries on_set (i + 1) (a.code ∷ codes) rest

abbrev pub operates_on_set : ServiceSpec → Bool
operates_on_set spec = spec.many || is_some spec.collection_selector_spec

abbrev pub validate_sequence : Bool → Option AffordanceSequence → Checked
validate_sequence on_set none = ok tt
validate_sequence on_set (some (not_sequence t)) = err affordances_not_a_sequence
validate_sequence on_set (some (affordance_sequence entries)) =
    validate_affordance_entries on_set 0 [] entries

unfoldable pub validate_service_affordances : ServiceSpec → Checked
unfolding validate_affordance_entries
validate_service_affordances spec = validate_sequence (operates_on_set spec) spec.affordances

-- `ServiceSpec.__post_init__`, of the fields `metadata` and `reads` and the others.
unfoldable pub construct_service : Value → Reads → ServiceSpec → Config ServiceSpec
unfolding validate_metadata validate_reads validate_many_argument validate_target_lookups
    validate_service_affordances
construct_service metadata reads fields = do
  validate_metadata metadata "ServiceSpec"
  reads' ← validate_reads "ServiceSpec" reads
  let spec = record fields { reads = reads' }
  validate_many_argument spec
  validate_target_lookups spec
  validate_service_affordances spec
  ok spec

-- `affordance_alias`: f"affordance__{name}__{code}"
unfoldable pub affordance_alias : String → String → String
affordance_alias name code' = text_append "affordance__" (text_append name (text_append "__" code'))

-- The aliases of one entry, against the annotations and the aliases owned so far.
unfoldable pub validate_aliases :
    List String → String → Dict String → List Affordance → Config (Dict String)
unfolding contains get affordance_alias
validate_aliases own name owners [] = ok owners
validate_aliases own name owners (a ∷ rest) =
    let alias = affordance_alias name a.code in
    do
      refuse_if (contains alias own) (alias_taken_by_annotation name alias)
      refuse_if (is_some (get alias owners))
          (alias_declared_twice name (or_else (get alias owners) "") alias)
      validate_aliases own name ((alias, name) ∷ owners) rest

unfoldable pub validate_declarers :
    List String → Dict String → List (DeclarerKey × DeclarerEntry) → Config (Dict String)
unfolding validate_aliases
validate_declarers own owners [] = ok owners
validate_declarers own owners ((other_key t, entry) ∷ rest) = err affordance_key_not_text
validate_declarers own owners ((text_key name, not_declarer t) ∷ rest) = do
  refuse_if (name == "") affordance_key_not_text
  err (not_an_affordance_declarer name)
validate_declarers own owners ((text_key name, declarer affordances) ∷ rest) = do
  refuse_if (name == "") affordance_key_not_text
  owners' ← validate_aliases own name owners (declared affordances)
  validate_declarers own owners' rest

abbrev pub as_check : Config (Dict String) → Checked
as_check (ok owners) = ok tt
as_check (err e) = err e

abbrev pub validate_mapping : List String → Option DeclarerMapping → Checked
validate_mapping own none = ok tt
validate_mapping own (some (not_mapping t)) = err affordances_not_a_mapping
validate_mapping own (some (declarer_mapping entries)) =
    as_check (validate_declarers own [] entries)

unfoldable pub validate_selector_affordances : SelectorSpec → Checked
unfolding validate_declarers
validate_selector_affordances spec =
    validate_mapping (keys (or_else spec.annotations [])) spec.affordances

unfoldable pub construct_selector : Value → Reads → SelectorSpec → Config SelectorSpec
unfolding validate_metadata validate_reads validate_selector_affordances
construct_selector metadata reads fields = do
  validate_metadata metadata "SelectorSpec"
  reads' ← validate_reads "SelectorSpec" reads
  let spec = record fields { reads = reads' }
  validate_selector_affordances spec
  ok spec
