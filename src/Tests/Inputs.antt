-- ===== src/Tests/Inputs.antt =====
-- The marker readers at annotations of the examples, and a spec as it is constructed.
use djangorestframework_serv.Prelude.{
  Option, or_else, ◌++◌, put, ◌≡◌, ◌↔◌, refl, String, true, false, none, some, List, [], ◌∷◌, any,
  contains, keys, Dict, ok, Distinct, if◌then◌else◌, get, ◌||◌,
}
use djangorestframework_serv.Values.{null, str, Entries, put_entry}
use djangorestframework_serv.Annotations.{
  Annotation, Metadata, annotated, class_type, input_required, input_description, not_client_input,
}
use djangorestframework_serv.Annotations.Markers.{
  Markers, MarkedKeys, carries_a_marker, descriptions, is_hidden, marker_layer, read_schema_markers,
  read_input_description, marked_input_keys, input_hints,
}
use djangorestframework_serv.Annotations.Occurs.{IsMarker, Occurs}
use djangorestframework_serv.Annotations.Occurs.Readers.{read_schema_markers_clean}
use djangorestframework_serv.Annotations.Descriptions.{read_input_description_sound}
use djangorestframework_serv.Annotations.Keys.{marked_input_keys_disjoint}
use djangorestframework_serv.Callables.{
  Callable, Parameter, keyword_only, accepts_var_keyword, declared_names, resolve_callable_kwargs,
}
use djangorestframework_serv.Callables.Binding.{get-resolve_callable_kwargs}
use djangorestframework_serv.Construction.{reads_of, construct_service}
use djangorestframework_serv.Construction.Sound.{as_entries, IsBuilt, construct_service_sound}
use djangorestframework_serv.Config.{Config}
use djangorestframework_serv.JsonSchema.Inputs.{InputSchema, callable_input_schema}
use djangorestframework_serv.JsonSchema.Inputs.Listed.{IsListed, callable_input_schema-IsListed}
use djangorestframework_serv.Tests.Examples.{update_order, update_spec}

abbrev described_text : Annotation
described_text =
    annotated (class_type "str") (input_required ∷ input_description "The order's number." ∷ [])

abbrev described_layer : Markers
described_layer = record { underlying = class_type "str"; required = true; hidden = false }

layer_read : read_schema_markers described_text ≡ ok described_layer
unfolding read_schema_markers carries_a_marker
layer_read = refl

read_schema_markers_clean_example :
    (¬ ((x : Metadata) × IsMarker x × Occurs x described_layer.underlying))
    × ((described_layer.required ≡ true) ↔ Occurs input_required described_text)
    × ((described_layer.hidden ≡ true) ↔ Occurs not_client_input described_text)
    × ((read_input_description described_text ≡ ok none)
        ↔ ¬ ((text : String) × Occurs (input_description text) described_text))
read_schema_markers_clean_example =
    read_schema_markers_clean described_text described_layer layer_read

description_read : read_input_description described_text ≡ ok (some "The order's number.")
unfolding read_input_description carries_a_marker
description_read = refl

read_input_description_sound_example :
    (u : Annotation) × (ms : List Metadata) × (marker_layer described_text ≡ ok (u, ms))
    × (descriptions ms ≡ "The order's number." ∷ [])
    × (any is_hidden ms ≡ false)
read_input_description_sound_example =
    read_input_description_sound described_text "The order's number." description_read

abbrev marked : String → Annotation → Parameter
marked name a = record { name = name; kind = keyword_only; has_default = false; hint = some a }

abbrev marked_service : Callable
marked_service = record {
  qualname = "place_order";
  parameters =
      marked "number" described_text
      ∷ marked "tenant" (annotated (class_type "Tenant") (not_client_input ∷ []))
      ∷ [];
}

abbrev marked_keys : MarkedKeys
marked_keys = record { required = "number" ∷ []; hidden = "tenant" ∷ [] }

keys_read : marked_input_keys marked_service ≡ ok marked_keys
unfolding marked_input_keys read_schema_markers carries_a_marker
keys_read = refl

inputs-Distinct : Distinct (keys (input_hints marked_service.parameters))
unfolding input_hints contains
inputs-Distinct = (refl, (refl, tt))

number_required : contains "number" marked_keys.required ≡ true
unfolding contains
number_required = refl

marked_input_keys_disjoint_example : contains "number" marked_keys.hidden ≡ false
marked_input_keys_disjoint_example =
    marked_input_keys_disjoint marked_service marked_keys "number" inputs-Distinct keys_read
      number_required

abbrev pool : Dict String
pool = ("data", "the data") ∷ ("user", "the user") ∷ []

get-resolve_callable_kwargs_example : get "data" (resolve_callable_kwargs update_order pool) ≡ (
    if accepts_var_keyword update_order || contains "data" (declared_names update_order)
    then get "data" pool
    else none)
get-resolve_callable_kwargs_example = get-resolve_callable_kwargs update_order pool "data"

built : construct_service null (reads_of []) update_spec ≡ ok update_spec
unfolding construct_service
built = refl

construct_service_sound_example :
    (reads_of [] ≡ reads_of (as_entries update_spec.reads))
    × (update_spec ≡ record update_spec { reads = update_spec.reads })
    × IsBuilt update_spec
construct_service_sound_example =
    construct_service_sound null (reads_of []) update_spec update_spec built

abbrev any_text : Annotation → Config Entries
any_text a = ok (Entries.entry "type" (str "string") Entries.end)

abbrev supplied_names : Option (List String)
supplied_names = some ("user" ∷ [])

reflected :
    (s : InputSchema) × (callable_input_schema any_text ("view" ∷ []) supplied_names marked_service
      ≡ ok s)
unfolding callable_input_schema put put_entry contains any read_schema_markers
    read_input_description carries_a_marker
reflected = (_, refl)

callable_input_schema-IsListed_example :
    IsListed (("view" ∷ []) ++ or_else supplied_names []) reflected.0 "number"
callable_input_schema-IsListed_example =
    callable_input_schema-IsListed any_text ("view" ∷ []) supplied_names marked_service reflected.0
      "number" reflected.1
