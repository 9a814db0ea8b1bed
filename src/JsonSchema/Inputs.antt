-- ===== src/JsonSchema/Inputs.antt =====
-- The input schema of a callable (`callable_input_schema` and `_typed_dict_to_schema` of
-- jsonschema/utils.py). The schema of a type is an argument
-- (JsonSchema.Types is about it).
pub mod Listed
use djangorestframework_serv.Prelude.{
  String, Bool, true, false, ◌&&◌, ◌||◌, not, Option, none, some, List, [], ◌∷◌, ◌++◌, Dict, get,
  put, contains, is_some, or_else, if◌then◌else◌, Result, ok, err, ◌>>=◌,
}
use djangorestframework_serv.Config.{Config}
use djangorestframework_serv.Values.{str, Entries, end, put_entry}
use djangorestframework_serv.Annotations.{Annotation}
use djangorestframework_serv.Annotations.Markers.{
  Markers, read_schema_markers, read_input_description, TypedDict, unpack_typed_dict, field_types,
  required_fields,
}
use djangorestframework_serv.Callables.{
  Callable, Parameter, is_var_keyword, is_var_positional, is_positional_only,
}

-- The properties and the required names.
pub record InputSchema : Type 0 where
  pub properties : Dict Entries
  pub required : List String

abbrev pub no_inputs : InputSchema
no_inputs = record { properties = []; required = [] }

-- `properties[name] = schema`, and `required.append(name)` where it is required
unfoldable pub add_input : String → Entries → Bool → InputSchema → InputSchema
unfolding put
add_input name schema required s = record {
  properties = put name schema s.properties;
  required = if required then s.required ++ (name ∷ []) else s.required;
}

-- `properties[name]["description"] = description`
abbrev pub describe_input : Option String → Entries → Entries
describe_input none schema = schema
describe_input (some text) schema = put_entry "description" (str text) schema

module _ (type_schema : Annotation → Config Entries) where
  -- A marked input of type `a`: nothing where it is hidden.
  abbrev pub add_marked :
      Bool → String → Annotation → Option String → Bool → InputSchema → Config InputSchema
  add_marked true name a description required s = ok s
  add_marked false name a description required s =
      type_schema a >>= λ schema. ok (add_input name (describe_input description schema) required s)

  abbrev pub add_annotated : String → Annotation → Bool → InputSchema → Config InputSchema
  add_annotated name a required s = read_schema_markers a >>= λ m.
      read_input_description a >>= λ description.
      add_marked m.hidden name a description (m.required || required) s

  abbrev pub unless_dropped : Bool → InputSchema → Config InputSchema → Config InputSchema
  unless_dropped true s added = ok s
  unless_dropped false s added = added

  -- The loop of `_typed_dict_to_schema`, onto what is there
  unfoldable pub add_keys :
      List String → List String → Dict Annotation → InputSchema → Config InputSchema
  unfolding add_input put_entry read_schema_markers read_input_description contains
  add_keys dropped required_keys [] s = ok s
  add_keys dropped required_keys ((name, a) ∷ hs) s =
      unless_dropped (contains name dropped) s
        (add_annotated name a (contains name required_keys) s)
      >>= λ added. add_keys dropped required_keys hs added

  -- The keys of an unpacked TypedDict; any other `**kwargs` adds nothing.
  abbrev pub add_extras : List String → Option TypedDict → InputSchema → Config InputSchema
  add_extras dropped none s = ok s
  add_extras dropped (some td) s =
      add_keys dropped (required_fields td.required_keys td.hints) (field_types td.hints) s

  -- An ordinary parameter, which is required where nothing else supplies it.
  abbrev pub add_ordinary : Bool → Parameter → Option Annotation → InputSchema → Config InputSchema
  add_ordinary inferred p none s = ok (add_input p.name end inferred s)
  add_ordinary inferred p (some a) s = add_annotated p.name a inferred s

  abbrev pub is_inferred : Option (List String) → Parameter → Bool
  is_inferred supplied p =
      is_some supplied && (not p.has_default && not (is_positional_only p.kind))

  abbrev pub add_parameter :
      List String → Option (List String) → Parameter → InputSchema → Config InputSchema
  add_parameter dropped supplied p s =
      if is_var_keyword p.kind
      then add_extras dropped (unpack_typed_dict p.hint) s
      else unless_dropped (contains p.name dropped || is_var_positional p.kind) s
          (add_ordinary (is_inferred supplied p) p p.hint s)

  unfoldable pub add_parameters :
      List String → Option (List String) → List Parameter → InputSchema → Config InputSchema
  unfolding add_keys unpack_typed_dict field_types required_fields
  add_parameters dropped supplied [] s = ok s
  add_parameters dropped supplied (p ∷ ps) s =
      add_parameter dropped supplied p s >>= λ added. add_parameters dropped supplied ps added

  -- `callable_input_schema`, with the names of `skip` and, where they are stated, of `supplied`
  unfoldable pub callable_input_schema :
      List String → Option (List String) → Callable → Config InputSchema
  unfolding add_parameters
  callable_input_schema skip supplied fn =
      add_parameters (skip ++ or_else supplied []) supplied fn.parameters no_inputs
