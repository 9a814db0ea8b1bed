-- ===== src/Audience/Answers.antt =====
-- The answers of the affordances, projected into each rendered object (audience/utils.py, and
-- `add_affordances` of views/utils.py).
pub mod Availability
use djangorestframework_serv.Prelude.{
  ℕ, zero, suc, String, Bool, true, false, not, Option, none, some, List, [], ◌∷◌, ◌++◌, Dict, get,
  has, put, keys, if◌then◌else◌, is_some, is_empty, Result, ok, err, ◌>>=◌, ◌>>◌, refuse_if, ◌==◌,
}
use djangorestframework_serv.Values.{
  Value, null, unset, bool, int, float, str, seq, dict, object, Items, nil, cons, Entries, end,
  entry, odd_entry, items, of_items, named_entries, of_entries, is_null, put_entry,
}
use djangorestframework_serv.Config.{
  Config, rendered_not_an_object, affordances_key_taken, no_affordance_answer,
}
use djangorestframework_serv.Specs.{
  Affordance, declared, DeclarerEntry, declarer, DeclarerKey, text_key, DeclarerMapping,
  declarer_mapping, SelectorSpec, ServiceSpec,
}
use djangorestframework_serv.Construction.{affordance_alias}

abbrev pub affordances_key : String
affordances_key = "affordances"

-- The affordances of each named operation, of a selector spec that was built.
abbrev pub Declared : Type 0
Declared = Dict (List Affordance)

abbrev pub declared_entries : List (DeclarerKey × DeclarerEntry) → Declared
declared_entries [] = []
declared_entries ((text_key name, declarer affordances) ∷ rest) =
    (name, declared affordances) ∷ declared_entries rest
declared_entries (_ ∷ rest) = declared_entries rest

abbrev pub declared_mapping : Option DeclarerMapping → Option Declared
declared_mapping (some (declarer_mapping entries)) = some (declared_entries entries)
declared_mapping _ = none

-- `rendered_affordances`, of a service spec and of a selector spec
unfoldable pub rendered_affordances : ServiceSpec → Option Declared
rendered_affordances spec = elim spec.output_selector_spec [
  | none ↦ none
  | some nested ↦ declared_mapping nested.affordances
]

unfoldable pub rendered_selector_affordances : SelectorSpec → Option Declared
rendered_selector_affordances spec = declared_mapping spec.affordances

-- A rendered row: what `row.get(alias)` or `getattr(row, alias)` finds.
abbrev pub Row : Type 0
Row = Dict Value

-- Whether Python takes the value for true.
unfoldable pub truthy : Value → Bool
truthy null = false
truthy unset = true
truthy (bool b) = b
truthy (int zero) = false
truthy (int (suc n)) = true
truthy (float text) = not (text == "0.0")
truthy (str text) = not (text == "")
truthy (seq nil) = false
truthy (seq (cons v vs)) = true
truthy (dict end) = false
truthy (dict es) = true
truthy (object t) = true

-- The answer of one operation for one row.
pub data Answer : Type 0 where
  available : Answer
  unknown : Answer
  refused : (code reason : String) → Answer

abbrev pub flag : Row → String → Config Value
flag row alias = elim (get alias row) [ none ↦ err no_affordance_answer | some v ↦ ok v ]

-- The step of the inner loop of `_answers`, with the answer of the rest of the loop: an unanswered
-- flag and a false one each break out of it.
abbrev pub answer_step : Affordance → Value → Config Answer → Config Answer
answer_step a v rest =
    if is_null v then ok unknown else if truthy v then rest else ok (refused a.code a.reason)

unfoldable pub answer : Row → String → List Affordance → Config Answer
unfolding truthy affordance_alias get
answer row name [] = ok available
answer row name (a ∷ as') =
    let rest = answer row name as' in
    flag row (affordance_alias name a.code) >>= λ v. answer_step a v rest

abbrev pub answer_value : Answer → Value
answer_value available = dict (entry "available" (bool true) end)
answer_value unknown = dict (entry "available" (bool false) end)
answer_value (refused code reason) =
    dict
      (entry "available" (bool false) (entry "code" (str code) (entry "reason" (str reason) end)))

unfoldable pub answers : Row → Declared → Config (Dict Answer)
unfolding answer
answers row [] = ok []
answers row ((name, as') ∷ rest) = do
  a ← answer row name as'
  more ← answers row rest
  ok ((name, a) ∷ more)

abbrev pub answer_entries : Dict Answer → Entries
answer_entries [] = end
answer_entries ((name, a) ∷ rest) = entry name (answer_value a) (answer_entries rest)

-- `_with_answers`
unfoldable pub with_answers : Value → Row → Declared → Config Value
unfolding answers get put_entry
with_answers (dict item) row affordances = do
  refuse_if (has affordances_key (named_entries item)) affordances_key_taken
  found ← answers row affordances
  ok (dict (put_entry affordances_key (dict (answer_entries found)) item))
with_answers _ row affordances = err rendered_not_an_object

-- `with_affordances` with `many`: the payload and the rows are walked together, and `zip` raises
-- where one is longer.
unfoldable pub with_row_answers : List Value → List Row → Declared → Config (List Value)
unfolding with_answers
with_row_answers [] [] affordances = ok []
with_row_answers (item ∷ payload) (row ∷ rows) affordances = do
  first ← with_answers item row affordances
  rest ← with_row_answers payload rows affordances
  ok (first ∷ rest)
with_row_answers _ _ affordances = err rendered_not_an_object

-- `add_affordances` of one value: nothing is added where none is declared or there is no value.
unfoldable pub add_affordances : Option Declared → Value → Option Row → Config Value
unfolding with_answers
add_affordances none payload row = ok payload
add_affordances (some affordances) payload none = ok payload
add_affordances (some affordances) payload (some row) = with_answers payload row affordances

abbrev object_schema : Entries → List Value → Value
object_schema properties required = dict (
    entry "type" (str "object")
      (entry "properties" (dict properties) (entry "required" (seq (of_items required)) end)))

abbrev boolean_schema : Value
boolean_schema = dict (entry "type" (str "boolean") end)

abbrev code_values : List Affordance → List Value
code_values [] = []
code_values (a ∷ as') = str a.code ∷ code_values as'

abbrev answer_properties : List Affordance → Entries
answer_properties [] = entry "available" boolean_schema end
answer_properties (a ∷ as') = entry "available" boolean_schema (
    entry "code"
      (dict
        (entry "type" (str "string") (entry "enum" (seq (of_items (code_values (a ∷ as')))) end)))
      (entry "reason" (dict (entry "type" (str "string") end)) end))

abbrev schema_properties : Declared → Entries
schema_properties [] = end
schema_properties ((name, as') ∷ rest) =
    entry name (object_schema (answer_properties as') (str "available" ∷ []))
      (schema_properties rest)

abbrev name_values : List String → List Value
name_values [] = []
name_values (k ∷ ks) = str k ∷ name_values ks

-- `affordance_schema`
unfoldable pub affordance_schema : Declared → Value
affordance_schema affordances =
    object_schema (schema_properties affordances) (name_values (keys affordances))
