-- ===== src/JsonSchema/Choices.antt =====
-- The schema of a choice field, and the defaults that a schema may publish
-- (`_choice_schema`, `_json_type_of`, `_is_json_native` and `_publishable_default` of
-- jsonschema/utils.py).
pub mod Admitted
use djangorestframework_serv.Prelude.{
  ℕ, String, Bool, true, false, ◌&&◌, not, Option, none, some, List, [], ◌∷◌, ◌++◌, any, all,
  if◌then◌else◌, ◌==◌,
}
use djangorestframework_serv.Values.{
  Value, null, unset, bool, int, float, str, seq, dict, object, Items, nil, cons, Entries, end,
  entry, odd_entry, of_items, is_null,
}

-- `_is_json_native`
unfoldable mutual
  pub is_json_native : Value → Bool
  is_json_native null = true
  is_json_native unset = false
  is_json_native (bool b) = true
  is_json_native (int n) = true
  is_json_native (float text) = true
  is_json_native (str text) = true
  is_json_native (seq vs) = items_native vs
  is_json_native (dict es) = entries_native es
  is_json_native (object t) = false

  pub items_native : Items → Bool
  items_native nil = true
  items_native (cons v vs) = is_json_native v && items_native vs

  pub entries_native : Entries → Bool
  entries_native end = true
  entries_native (entry k v es) = is_json_native v && entries_native es
  entries_native (odd_entry k v es) = false

-- `field.default`: rest_framework's `empty`, a callable, or a value.
pub data Default : Type 0 where
  no_default callable_default : Default
  default_value : Value → Default

-- `_publishable_default`
unfoldable pub publishable_default : Default → Option Value
unfolding is_json_native
publishable_default no_default = none
publishable_default callable_default = none
publishable_default (default_value v) = if is_json_native v then some v else none

-- A choice with the texts of its value and of its label, `str(value)` and `str(label)`.
pub record Choice : Type 0 where
  pub value : Value
  pub text : String
  pub label : String

-- `allow_blank` is false where the field class has no such attribute.
pub record ChoiceField : Type 0 where
  pub choices : List Choice
  pub allow_blank : Bool
  pub allow_null : Bool

abbrev pub is_blank : Value → Bool
is_blank (str text) = text == ""
is_blank _ = false

abbrev pub choice_values : List Choice → List Value
choice_values [] = []
choice_values (c ∷ cs) = c.value ∷ choice_values cs

abbrev add_value : Bool → Value → List Value → List Value
add_value b v vs = if b then v ∷ vs else vs

-- The values that `allow_blank` and `allow_null` add.
unfoldable pub extra_values : Bool → ChoiceField → List Value
unfolding any
extra_values widen f =
    add_value (widen && (f.allow_blank && not (any is_blank (choice_values f.choices)))) (str "")
      (add_value (widen && (f.allow_null && not (any is_null (choice_values f.choices)))) null [])

-- `_json_type_of`
abbrev pub json_type_of : Value → Option String
json_type_of (bool b) = some "boolean"
json_type_of (int n) = some "integer"
json_type_of (float text) = some "number"
json_type_of (str text) = some "string"
json_type_of _ = none

abbrev same_type : Option String → Option String → Bool
same_type (some s) (some t) = s == t
same_type none none = true
same_type _ _ = false

-- The one type that all the values have, where they have one and it is not None.
unfoldable pub shared_type : List Value → Option String
unfolding all
shared_type [] = none
shared_type (v ∷ vs) =
    if all (λ w. same_type (json_type_of v) (json_type_of w)) vs then json_type_of v else none

abbrev pub with_type : Option String → Entries → Entries
with_type none es = es
with_type (some t) es = entry "type" (str t) es

abbrev titled : List Choice → List Value
titled [] = []
titled (c ∷ cs) = dict (entry "const" c.value (entry "title" (str c.label) end)) ∷ titled cs

abbrev untitled : List Value → List Value
untitled [] = []
untitled (v ∷ vs) = dict (entry "const" v end) ∷ untitled vs

-- `_choice_schema`
unfoldable pub choice_schema : Bool → ChoiceField → Entries
unfolding extra_values shared_type all
choice_schema widen f =
    let values = choice_values f.choices ++ extra_values widen f in
    with_type (shared_type values) (
      if all (λ c. c.label == c.text) f.choices
      then entry "enum" (seq (of_items values)) end
      else entry "oneOf" (seq (of_items (titled f.choices ++ untitled (extra_values widen f)))) end)
