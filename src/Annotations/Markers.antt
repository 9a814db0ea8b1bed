-- ===== src/Annotations/Markers.antt =====
-- The readers of the schema markers: rest_framework_services/types/read_schema_markers.py,
-- read_input_description.py, unpack_typed_dict.py, typed_dict_input.py and marked_input_keys.py.
use djangorestframework_serv.Prelude.{
  String, Bool, true, false, ◌&&◌, ◌||◌, Option, none, some, List, [], ◌∷◌, ◌++◌, Dict, any,
  contains, if◌then◌else◌, ok, err, ◌>>=◌, ◌>>◌, refuse_if,
}
use djangorestframework_serv.Config.{
  Config, Checked, marked_required_and_hidden, misplaced_marker, described_twice,
  described_and_hidden,
}
use djangorestframework_serv.Annotations.{
  Metadata, input_required, not_client_input, input_description, plain_metadata,
  not_required_origin, required_origin, unpack_origin, Annotation, none_type, annotated, union,
  applied, typed_dict, applied_typed_dict, Annotations, nil, cons, Arguments, end, one, several,
  hints, members, of_members,
}
use djangorestframework_serv.Callables.{Parameter, Callable, by_keyword, is_var_keyword}

unfoldable pub is_marker : Metadata → Bool
is_marker (plain_metadata m) = false
is_marker _ = true

abbrev pub is_required : Metadata → Bool
is_required input_required = true
is_required _ = false

abbrev pub is_hidden : Metadata → Bool
is_hidden not_client_input = true
is_hidden _ = false

unfoldable mutual
  pub carries_a_marker : Annotation → Bool
  carries_a_marker (annotated underlying metadata) =
      any is_marker metadata || carries_a_marker underlying
  carries_a_marker (union as') = one_carries as'
  carries_a_marker (applied origin args) = argument_carries args
  carries_a_marker (applied_typed_dict td required args) = argument_carries args
  carries_a_marker _ = false

  pub one_carries : Annotations → Bool
  one_carries nil = false
  one_carries (cons a as') = carries_a_marker a || one_carries as'

  pub argument_carries : Arguments → Bool
  argument_carries end = false
  argument_carries (one a args) = carries_a_marker a || argument_carries args
  argument_carries (several as' args) = one_carries as' || argument_carries args

unfoldable pub refuse_misplaced_markers : Annotation → Checked
refuse_misplaced_markers a = refuse_if (carries_a_marker a) misplaced_marker

abbrev pub is_none_type : Annotation → Bool
is_none_type none_type = true
is_none_type _ = false

-- `[member for member in members if member is not _NONE_TYPE]`
abbrev pub others : Annotations → List Annotation
others nil = []
others (cons none_type as') = others as'
others (cons a as') = a ∷ others as'

-- `len(others) == 1 and get_origin(others[0]) is Annotated`
abbrev pub only_annotated : List Annotation → Option (Annotation × List Metadata)
only_annotated (annotated inner metadata ∷ []) = some (inner, metadata)
only_annotated _ = none

abbrev pub with_inner : Annotation → Annotations → Annotations
with_inner inner nil = nil
with_inner inner (cons none_type as') = cons none_type (with_inner inner as')
with_inner inner (cons a as') = cons inner (with_inner inner as')

-- `typing.Union[...]` takes the members of a union among its arguments for its own, drops a second
-- `None`, and is its argument where it has one.
abbrev pub flattened : Annotations → List Annotation
flattened nil = []
flattened (cons (union inner) as') = members inner ++ flattened as'
flattened (cons a as') = a ∷ flattened as'

abbrev pub without_none : List Annotation → List Annotation
without_none [] = []
without_none (none_type ∷ as') = without_none as'
without_none (a ∷ as') = a ∷ without_none as'

abbrev pub one_none : List Annotation → List Annotation
one_none [] = []
one_none (none_type ∷ as') = none_type ∷ without_none as'
one_none (a ∷ as') = a ∷ one_none as'

abbrev pub union_of_members : List Annotation → Annotation
union_of_members (a ∷ []) = a
union_of_members as' = union (of_members as')

unfoldable pub union_of : Annotations → Annotation
union_of as' = union_of_members (one_none (flattened as'))

abbrev pub union_layer :
    Option (Annotation × List Metadata) → Annotations → Config (Annotation × List Metadata)
union_layer none as' = do refuse_misplaced_markers (union as'); ok (union as', [])
union_layer (some (inner, metadata)) as' = do
  refuse_misplaced_markers inner
  ok (union_of (with_inner inner as'), metadata)

-- `_marker_layer`
unfoldable pub marker_layer : Annotation → Config (Annotation × List Metadata)
unfolding refuse_misplaced_markers
marker_layer (annotated underlying metadata) = do
  refuse_misplaced_markers underlying
  ok (underlying, metadata)
marker_layer (union as') = union_layer (only_annotated (others as')) as'
marker_layer a = do refuse_misplaced_markers a; ok (a, [])

-- The type behind the layer, and whether it is required and hidden.
pub record Markers : Type 0 where
  pub underlying : Annotation
  pub required : Bool
  pub hidden : Bool

abbrev pub markers_of : Annotation → List Metadata → Config Markers
markers_of underlying metadata =
    if any is_required metadata && any is_hidden metadata
    then err marked_required_and_hidden
    else ok (record {
      underlying = underlying;
      required = any is_required metadata;
      hidden = any is_hidden metadata;
    })

unfoldable pub read_schema_markers : Annotation → Config Markers
unfolding marker_layer any
read_schema_markers a = marker_layer a >>= λ layer. markers_of layer.0 layer.1

abbrev pub descriptions : List Metadata → List String
descriptions [] = []
descriptions (input_description text ∷ ms) = text ∷ descriptions ms
descriptions (_ ∷ ms) = descriptions ms

abbrev pub metadata_of : Annotation → List Metadata
metadata_of (annotated underlying metadata) = metadata
metadata_of _ = []

abbrev pub first_metadata : List Annotation → List Metadata
first_metadata [] = []
first_metadata (a ∷ as') = metadata_of a

-- `_layer_metadata`
unfoldable pub layer_metadata : Annotation → List Metadata
layer_metadata (union as') = first_metadata (others as')
layer_metadata a = metadata_of a

abbrev pub one_description : Bool → List String → Config (Option String)
one_description hidden [] = ok none
one_description hidden (text ∷ []) = if hidden then err described_and_hidden else ok (some text)
one_description hidden (text ∷ other ∷ more) = err described_twice

unfoldable pub read_input_description : Annotation → Config (Option String)
unfolding read_schema_markers layer_metadata
read_input_description a =
    read_schema_markers a >>= λ m. one_description m.hidden (descriptions (layer_metadata a))

pub record TypedDict : Type 0 where
  pub hints : Dict Annotation
  pub required_keys : List String

-- `unpack_typed_dict`
unfoldable pub unpack_typed_dict : Option Annotation → Option TypedDict
unpack_typed_dict (some (applied unpack_origin (one (typed_dict hs required) args))) =
    some (record { hints = hints hs; required_keys = required })
unpack_typed_dict (some (applied unpack_origin (one (applied_typed_dict hs required _) args))) =
    some (record { hints = hints hs; required_keys = required })
unpack_typed_dict _ = none

-- One key of `typed_dict_input`: the type behind `NotRequired` or `Required`, and what the wrapper
-- says of the key.
abbrev pub key_type : Annotation → Annotation
key_type (applied not_required_origin (one a args)) = a
key_type (applied required_origin (one a args)) = a
key_type a = a

abbrev pub key_required : Annotation → Bool → Bool
key_required (applied not_required_origin (one a args)) listed = false
key_required (applied required_origin (one a args)) listed = true
key_required a listed = listed

unfoldable pub field_types : Dict Annotation → Dict Annotation
field_types [] = []
field_types ((name, a) ∷ hs) = (name, key_type a) ∷ field_types hs

unfoldable pub required_fields : List String → Dict Annotation → List String
unfolding contains
required_fields listed [] = []
required_fields listed ((name, a) ∷ hs) =
    let rest = required_fields listed hs in
    if key_required a (contains name listed) then name ∷ rest else rest

-- The annotations that `marked_input_keys` records, in the order of the signature.
abbrev pub parameter_hints : Parameter → Dict Annotation
parameter_hints p =
    if is_var_keyword p.kind
    then elim (unpack_typed_dict p.hint) [ none ↦ [] | some td ↦ field_types td.hints ]
    else if by_keyword p.kind
    then elim p.hint [ none ↦ [] | some a ↦ (p.name, a) ∷ [] ]
    else []

unfoldable pub input_hints : List Parameter → Dict Annotation
unfolding unpack_typed_dict field_types
input_hints [] = []
input_hints (p ∷ ps) = parameter_hints p ++ input_hints ps

-- The names that are marked required, and those that are hidden.
pub record MarkedKeys : Type 0 where
  pub required : List String
  pub hidden : List String

abbrev pub add_if : Bool → String → List String → List String
add_if b name names = if b then name ∷ names else names

abbrev pub recorded : String → Markers → MarkedKeys → MarkedKeys
recorded name m found = record {
  required = add_if m.required name found.required;
  hidden = add_if m.hidden name found.hidden;
}

unfoldable pub record_hints : Dict Annotation → Config MarkedKeys
record_hints [] = ok (record { required = []; hidden = [] })
record_hints ((name, a) ∷ hs) = do
  m ← read_schema_markers a
  found ← record_hints hs
  ok (recorded name m found)

unfoldable pub marked_input_keys : Callable → Config MarkedKeys
unfolding input_hints record_hints
marked_input_keys fn = record_hints (input_hints fn.parameters)
