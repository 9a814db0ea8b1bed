-- ===== src/JsonSchema/Serializers.antt =====
-- The walk that describes a serializer (`serializer_to_schema` of
-- jsonschema/utils.py, with the texts and tests that they call).
pub mod Bounded
pub mod Published
use djangorestframework_serv.Prelude.{
  ℕ, zero, suc, String, Bool, true, false, ◌&&◌, ◌||◌, not, Option, none, some, List, [], ◌∷◌, Dict,
  contains, count, length, is_some, is_empty, and_then, if◌then◌else◌, ◌==◌, leb,
}
use djangorestframework_serv.Values.{
  Value, null, bool, str, seq, dict, Entries, end, entry, of_items, of_entries, put_entry, is_null,
}
use djangorestframework_serv.JsonSchema.Overrides.{ObjectSchema, apply_serializer_overrides}
use djangorestframework_serv.JsonSchema.Choices.{
  Default, no_default, callable_default, default_value, publishable_default,
}
use djangorestframework_serv.JsonSchema.Fields.{
  SpectacularAnnotation, FieldInfo, Field, info, field_to_schema,
}

-- The methods of Python's texts that the source calls.
pub record Texts : Type 0 where
  pub replace : (text old new : String) → String
  pub capitalize : String → String

-- The serializer instances of an application: the class of each, its fields in order, and the
-- annotation of a class. Two instances of a class may have different fields, and the instances that
-- are reached from one another need not come to an end.
pub record Serializers (I : Type 0) : Type 0 where
  pub class_of : I → String
  pub fields : I → Dict (Field I)
  pub annotation : String → Option SpectacularAnnotation

-- What a caller of the walk sets.
pub record Options : Type 0 where
  pub rules : Dict Entries
  pub for_output : Bool
  pub max_depth : Option ℕ

-- `_always_rendered`
abbrev declares_default : Default → Bool
declares_default no_default = false
declares_default _ = true

abbrev pub always_rendered : FieldInfo → Bool
always_rendered i = i.required || (declares_default i.default || i.allow_null)

-- `_derived_label` and `_declared_label`
abbrev pub derived_label : Texts → String → String
derived_label texts name = texts.capitalize (texts.replace name "_" " ")

abbrev pub declared_label : Texts → String → Option String → Option String
declared_label texts name none = none
declared_label texts name (some label) =
    if label == derived_label texts name then none else some label

-- `field.write_only if for_output else field.read_only`
abbrev pub hides_field : Bool → FieldInfo → Bool
hides_field true i = i.write_only
hides_field false i = i.read_only

-- `_always_rendered(field) if for_output else field.required`
abbrev pub demands_field : Bool → FieldInfo → Bool
demands_field true i = always_rendered i
demands_field false i = i.required

abbrev with_default : Bool → Option Value → Entries → Entries
with_default false (some v) schema = put_entry "default" v schema
with_default _ _ schema = schema

abbrev with_title : Option String → Entries → Entries
with_title none schema = schema
with_title (some title) schema = put_entry "title" (str title) schema

abbrev with_description : Option String → Entries → Entries
with_description none schema = schema
with_description (some text) schema =
    if text == "" then schema else put_entry "description" (str text) schema

-- What the loop writes into a property beside the schema of its field.
unfoldable pub annotated : Texts → Bool → String → FieldInfo → Entries → Entries
unfolding put_entry publishable_default
annotated texts for_output name i schema = with_description i.help_text (
    with_title (declared_label texts name i.label)
      (with_default for_output (publishable_default i.default) schema))

abbrev pub add_required : Bool → String → ObjectSchema → ObjectSchema
add_required b name o = record {
  properties = o.properties;
  required = if b then name ∷ o.required else o.required;
  examples = o.examples;
}

abbrev pub add_property : String → Entries → ObjectSchema → ObjectSchema
add_property name schema o = record {
  properties = (name, schema) ∷ o.properties;
  required = o.required;
  examples = o.examples;
}

abbrev pub no_fields : ObjectSchema
no_fields = record { properties = []; required = []; examples = [] }

-- The loop over the fields of a serializer.
module _ {I : Type 0} (texts : Texts) (options : Options) (describe : I → Option Entries) where
  abbrev pub add_field : String → Field I → Bool → ObjectSchema → Option ObjectSchema
  add_field name f true o = some o
  add_field name f false o = and_then (field_to_schema options.rules describe f) (λ schema. some (
      add_required (demands_field options.for_output (info f)) name
        (add_property name (annotated texts options.for_output name (info f) schema) o)))

  unfoldable pub describe_fields : Dict (Field I) → Option ObjectSchema
  unfolding annotated field_to_schema
  describe_fields [] = some no_fields
  describe_fields ((name, f) ∷ rest) =
      and_then (describe_fields rest) (add_field name f (hides_field options.for_output (info f)))

abbrev properties_of : Dict Entries → Entries
properties_of [] = end
properties_of ((k, schema) ∷ d) = entry k (dict schema) (properties_of d)

abbrev strs : List String → List Value
strs [] = []
strs (k ∷ ks) = str k ∷ strs ks

abbrev keyed : String → List Value → Entries → Entries
keyed k [] es = es
keyed k vs es = entry k (seq (of_items vs)) es

-- The dictionary of an object schema.
unfoldable pub object_node : ObjectSchema → Entries
object_node o = entry "type" (str "object") (
    entry "properties" (dict (properties_of o.properties))
      (keyed "required" (strs o.required) (keyed "examples" o.examples end)))

-- `{"type": "object"}`
abbrev pub truncated_node : Entries
truncated_node = entry "type" (str "object") end

-- `_MAX_SERIALIZER_APPEARANCES`
abbrev pub max_serializer_appearances : ℕ
max_serializer_appearances = 4

abbrev pub beyond_bound : Option ℕ → List String → Bool
beyond_bound none path = false
beyond_bound (some depth) path = leb depth (length path)

-- Whether a node is truncated. `path` holds the classes being described, innermost first.
abbrev pub is_truncated : Option ℕ → String → List String → Bool
is_truncated max_depth cls path =
    leb max_serializer_appearances (count cls path) || beyond_bound max_depth path

module _ {I : Type 0} (texts : Texts) (options : Options) (serializers : Serializers I) where
  -- The schema of the fields of a serializer, with the annotation of its class.
  unfoldable pub describe_object : (I → Option Entries) → I → Option ObjectSchema
  unfolding describe_fields apply_serializer_overrides
  describe_object describe i =
      and_then (describe_fields texts options describe (serializers.fields i))
        (λ o. some (apply_serializer_overrides (serializers.annotation (serializers.class_of i)) o))

  unfoldable pub node : Bool → (I → Option Entries) → I → Option Entries
  unfolding describe_object object_node
  node true describe i = some truncated_node
  node false describe i = and_then (describe_object describe i) (λ o. some (object_node o))

  -- `serializer_to_schema`, on fuel
  unfoldable pub serializer_to_schema : ℕ → List String → I → Option Entries
  unfolding node count
  serializer_to_schema zero path i = none
  serializer_to_schema (suc fuel) path i =
      node (is_truncated options.max_depth (serializers.class_of i) path)
        (serializer_to_schema fuel (serializers.class_of i ∷ path)) i
