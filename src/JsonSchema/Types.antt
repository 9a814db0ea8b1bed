-- ===== src/JsonSchema/Types.antt =====
-- The schema of a Python type (`_python_type_to_schema` and `_parametrised_type_to_schema` of
-- jsonschema/utils.py). `Any` is the class of that name.
pub mod Sizes
pub mod Described
use djangorestframework_serv.Prelude.{
  ℕ, zero, suc, String, Bool, true, false, Option, none, some, List, [], ◌∷◌, Dict, get, Result, ok,
  err, ◌>>=◌,
}
use djangorestframework_serv.Config.{Config, ConfigError}
use djangorestframework_serv.Values.{
  Value, bool, str, seq, dict, Items, nil, cons, Entries, end, entry, of_items,
}
use djangorestframework_serv.Annotations.{
  Annotation, none_type, class_type, enum_type, literal, annotated, union, applied, typed_dict,
  applied_typed_dict, Annotations, Arguments, one, several, list_origin, set_origin,
  frozenset_origin, dict_origin, Origin,
}
use djangorestframework_serv.JsonSchema.Fields.{typed, formatted, or_empty}
use djangorestframework_serv.Annotations.Markers.{Markers, read_schema_markers}

-- What stops the description of a type: a marker out of place, or the end of the fuel.
pub data TypeError : Type 0 where
  exhausted : TypeError
  misplaced : ConfigError → TypeError

abbrev pub Described : Type 0
Described = Result TypeError Entries

abbrev pub reading : Config Markers → Result TypeError Markers
reading (ok m) = ok m
reading (err e) = err (misplaced e)

-- `_PYTHON_TYPE_TO_SCHEMA`, of the classes by name
abbrev pub python_type_to_schema : Dict Entries
python_type_to_schema =
    ("str", typed "string")
    ∷ ("int", typed "integer")
    ∷ ("float", typed "number")
    ∷ ("bool", typed "boolean")
    ∷ ("Decimal", formatted "decimal")
    ∷ ("datetime", formatted "date-time")
    ∷ ("date", formatted "date")
    ∷ ("time", formatted "time")
    ∷ ("UUID", formatted "uuid")
    ∷ []

abbrev pub any_type : Annotation
any_type = class_type "Any"

abbrev enumerated : List Value → Entries
enumerated values = entry "enum" (seq (of_items values)) end

abbrev array_schema : Bool → Entries → Entries
array_schema true items =
    entry "type" (str "array") (entry "items" (dict items) (entry "uniqueItems" (bool true) end))
array_schema false items = entry "type" (str "array") (entry "items" (dict items) end)

abbrev mapping_schema : Entries → Entries
mapping_schema end = typed "object"
mapping_schema schema = entry "type" (str "object") (entry "additionalProperties" (dict schema) end)

-- The item type, `Any` where there is none, and the value type of a dictionary.
abbrev pub item_type : Arguments → Annotation
item_type (one a args) = a
item_type _ = any_type

abbrev pub value_type : Arguments → Option Annotation
value_type (one key (one value args)) = some value
value_type _ = none

module _ (describe : Annotation → Described) where
  -- The schemas of the members of a union
  unfoldable pub member_schemas : Annotations → Result TypeError Items
  member_schemas Annotations.nil = ok nil
  member_schemas (Annotations.cons a as') =
      describe a >>= λ schema. member_schemas as' >>= λ rest. ok (cons (dict schema) rest)

  abbrev pub of_value : Option Annotation → Described
  of_value none = ok (mapping_schema end)
  of_value (some value) = describe value >>= λ schema. ok (mapping_schema schema)

  abbrev pub of_origin : Origin → Arguments → Described
  of_origin list_origin args = describe (item_type args) >>= λ items. ok (array_schema false items)
  of_origin set_origin args = describe (item_type args) >>= λ items. ok (array_schema true items)
  of_origin frozenset_origin args =
      describe (item_type args) >>= λ items. ok (array_schema true items)
  of_origin dict_origin args = of_value (value_type args)
  of_origin _ args = ok end

  -- A type that no rule of the registry describes
  unfoldable pub built_in_schema : Annotation → Described
  unfolding member_schemas get
  built_in_schema none_type = ok (typed "null")
  built_in_schema (class_type name) = ok (or_empty (get name python_type_to_schema))
  built_in_schema (enum_type values) = ok (enumerated values)
  built_in_schema (literal values) = ok (enumerated values)
  built_in_schema (union as') =
      member_schemas as' >>= λ schemas. ok (entry "anyOf" (seq schemas) end)
  built_in_schema (applied origin args) = of_origin origin args
  built_in_schema _ = ok end

  abbrev pub ruled : Option Entries → Annotation → Described
  ruled (some schema) a = ok schema
  ruled none a = built_in_schema a

-- `_python_type_to_schema`, on fuel, with the rule of `registry.python_types` for a type
unfoldable pub type_to_schema : (Annotation → Option Entries) → ℕ → Annotation → Described
unfolding built_in_schema read_schema_markers
type_to_schema rule zero a = err exhausted
type_to_schema rule (suc fuel) a = reading (read_schema_markers a) >>= λ m.
    ruled (type_to_schema rule fuel) (rule m.underlying) m.underlying
