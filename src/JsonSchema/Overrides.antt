-- ===== src/JsonSchema/Overrides.antt =====
-- The schema of an object, and the annotation of a serializer class that is layered onto it
-- (`apply_serializer_overrides` of jsonschema/utils.py).
use djangorestframework_serv.Prelude.{
  String, Bool, true, false, ◌&&◌, not, Option, none, some, List, [], ◌∷◌, Dict, is_some,
  if◌then◌else◌, ◌==◌,
}
use djangorestframework_serv.Values.{Value, bool, Entries, put_entry, is_null}
use djangorestframework_serv.JsonSchema.Fields.{SpectacularAnnotation}

-- The schema of an object: its properties in order, its required names, and its examples. A key of
-- an empty list is left out of the dictionary.
pub record ObjectSchema : Type 0 where
  pub properties : Dict Entries
  pub required : List String
  pub examples : List Value

-- `properties.pop(name, None)`
unfoldable pub pop : {V : Type 0} → String → Dict V → Dict V
pop k [] = []
pop k ((j, v) ∷ d) = let rest = pop k d in if k == j then rest else (j, v) ∷ rest

-- `if name in names: names.remove(name)`
unfoldable pub remove : String → List String → List String
remove k [] = []
remove k (j ∷ names) = let rest = remove k names in if k == j then names else j ∷ rest

unfoldable pub exclude : List String → ObjectSchema → ObjectSchema
unfolding pop remove
exclude [] o = o
exclude (k ∷ ks) o = exclude ks (record {
  properties = pop k o.properties;
  required = remove k o.required;
  examples = o.examples;
})

-- `if name in properties: properties[name]["deprecated"] = True`
unfoldable pub deprecate_one : String → Dict Entries → Dict Entries
unfolding put_entry
deprecate_one k [] = []
deprecate_one k ((j, schema) ∷ d) =
    (j, if k == j then put_entry "deprecated" (bool true) schema else schema) ∷ deprecate_one k d

unfoldable pub deprecate : List String → Dict Entries → Dict Entries
unfolding deprecate_one
deprecate [] d = d
deprecate (k ∷ ks) d = deprecate ks (deprecate_one k d)

unfoldable pub example_values : List (Option Value) → List Value
example_values [] = []
example_values (none ∷ es) = example_values es
example_values (some v ∷ es) = let rest = example_values es in if is_null v then rest else v ∷ rest

-- The names that an annotation excludes, `annotation.get("exclude_fields") or ()`.
abbrev pub names_or_none : Option (List String) → List String
names_or_none none = []
names_or_none (some names) = names

-- `"field" in annotation and "exclude_fields" not in annotation`: the annotation of a field.
abbrev pub is_of_field : SpectacularAnnotation → Bool
is_of_field a = is_some a.field && not (is_some a.exclude_fields)

abbrev pub excluded : Option SpectacularAnnotation → List String
excluded none = []
excluded (some a) = if is_of_field a then [] else names_or_none a.exclude_fields

abbrev pub layer_annotation : Bool → SpectacularAnnotation → ObjectSchema → ObjectSchema
layer_annotation true a o = o
layer_annotation false a o =
    let kept = exclude (names_or_none a.exclude_fields) o in
    record {
      properties = deprecate a.deprecate_fields kept.properties;
      required = kept.required;
      examples = example_values a.examples;
    }

-- `apply_serializer_overrides`
unfoldable pub apply_serializer_overrides :
    Option SpectacularAnnotation → ObjectSchema → ObjectSchema
unfolding exclude deprecate example_values
apply_serializer_overrides none o = o
apply_serializer_overrides (some a) o = layer_annotation (is_of_field a) a o
