-- ===== src/JsonSchema/Fields.antt =====
-- The schema of one field of a serializer (`_field_to_schema_default`, `field_to_schema` and
-- `apply_field_override` of jsonschema/utils.py). How a nested serializer is described is an
-- argument.
use djangorestframework_serv.Prelude.{
  String, Bool, true, false, Option, none, some, List, [], ◌∷◌, Dict, contains, and_then,
  if◌then◌else◌,
}
use djangorestframework_serv.Values.{Value, int, bool, str, dict, Entries, end, entry}
use djangorestframework_serv.JsonSchema.Choices.{Default, ChoiceField, choice_schema}

-- The value under "field" of an `@extend_schema_field` annotation: a dictionary, or another form.
pub data Override : Type 0 where
  fragment : Entries → Override
  opaque_override : Override

-- `_spectacular_annotation`, where it is a dictionary: its "field", and the keys that
-- `@extend_schema_serializer` sets. An example is None where its value is missing or `empty`.
pub record SpectacularAnnotation : Type 0 where
  pub field : Option Override
  pub exclude_fields : Option (List String)
  pub deprecate_fields : List String
  pub examples : List (Option Value)

-- What every field has. `types` are the names of the classes that it is an instance of, and `label`
-- and `help_text` are the texts.
pub record FieldInfo : Type 0 where
  pub types : List String
  pub read_only : Bool
  pub write_only : Bool
  pub required : Bool
  pub allow_null : Bool
  pub default : Default
  pub label : Option String
  pub help_text : Option String
  pub annotation : Option SpectacularAnnotation

-- The classes of fields that the walk tells apart, over the serializer instances `I`.
mutual
  pub data Field (I : Type 0) : Type 0 where
    field : FieldInfo → Kind I → Field I

  pub data Kind (I : Type 0) : Type 0 where
    list_field : Kind I
    list_of : Field I → Kind I
    list_serializer : Option I → Kind I
    serializer : I → Kind I
    multiple_choice : (allow_empty : Bool) → ChoiceField → Kind I
    choice : ChoiceField → Kind I
    other : Kind I

abbrev pub info : {I : Type 0} → Field I → FieldInfo
info (field i k) = i

-- The first entry whose class the field is an instance of.
unfoldable pub rule_schema : List String → Dict Entries → Option Entries
unfolding contains
rule_schema types [] = none
rule_schema types ((rule_type, schema) ∷ rules) =
    if contains rule_type types then some schema else rule_schema types rules

abbrev pub typed : String → Entries
typed t = entry "type" (str t) end

abbrev pub formatted : String → Entries
formatted f = entry "type" (str "string") (entry "format" (str f) end)

-- `_DRF_FIELD_TO_SCHEMA`
abbrev pub drf_field_to_schema : Dict Entries
drf_field_to_schema =
    ("BooleanField", typed "boolean")
    ∷ ("IntegerField", typed "integer")
    ∷ ("FloatField", typed "number")
    ∷ ("DecimalField", formatted "decimal")
    ∷ ("DateTimeField", formatted "date-time")
    ∷ ("DateField", formatted "date")
    ∷ ("TimeField", formatted "time")
    ∷ ("UUIDField", formatted "uuid")
    ∷ ("EmailField", formatted "email")
    ∷ ("URLField", formatted "uri")
    ∷ ("IPAddressField", typed "string")
    ∷ ("JSONField", end)
    ∷ ("CharField", typed "string")
    ∷ []

abbrev pub array_of : Entries → Entries
array_of items = entry "type" (str "array") (entry "items" (dict items) end)

abbrev pub or_empty : Option Entries → Entries
or_empty none = end
or_empty (some schema) = schema

-- The schema of a multiple choice: an array of distinct members.
abbrev pub multiple_schema : Bool → ChoiceField → Entries
multiple_schema allow_empty f = entry "type" (str "array") (
    entry "items" (dict (choice_schema false f))
      (entry "uniqueItems" (bool true) (if allow_empty then end else entry "minItems" (int 1) end)))

-- `apply_field_override`
abbrev pub override_of : Option Override → Entries → Entries
override_of (some (fragment schema)) default_schema = schema
override_of _ default_schema = default_schema

abbrev pub apply_field_override : Option SpectacularAnnotation → Entries → Entries
apply_field_override none default_schema = default_schema
apply_field_override (some annotation) default_schema = override_of annotation.field default_schema

-- A rule of the registry leaves the rest of the field unread.
abbrev pub or_walk : Option Entries → Option Entries → Option Entries
or_walk (some schema) walk = some schema
or_walk none walk = walk

-- `field_to_schema` and `_field_to_schema_default`, with the rules of the registry and the
-- description of a nested serializer, which may be missing where the fuel is spent.
unfoldable mutual
  unfolding rule_schema

  pub field_to_schema :
      {I : Type 0} → Dict Entries → (I → Option Entries) → Field I → Option Entries
  field_to_schema rules describe (field i k) =
      and_then (or_walk (rule_schema i.types rules) (kind_to_schema rules describe i.types k))
        (λ schema. some (apply_field_override i.annotation schema))

  pub kind_to_schema :
      {I : Type 0} → Dict Entries → (I → Option Entries) → List String → Kind I → Option Entries
  kind_to_schema rules describe types list_field = some (array_of end)
  kind_to_schema rules describe types (list_of child) =
      and_then (field_to_schema rules describe child) (λ schema. some (array_of schema))
  kind_to_schema rules describe types (list_serializer none) = some (array_of end)
  kind_to_schema rules describe types (list_serializer (some i)) =
      and_then (describe i) (λ schema. some (array_of schema))
  kind_to_schema rules describe types (serializer i) = describe i
  kind_to_schema rules describe types (multiple_choice allow_empty f) =
      some (multiple_schema allow_empty f)
  kind_to_schema rules describe types (choice f) = some (choice_schema true f)
  kind_to_schema rules describe types other =
      some (or_empty (rule_schema types drf_field_to_schema))
