-- ===== src/Annotations.antt =====
-- Type annotations as `typing.get_origin` and `typing.get_args` show them, and the schema markers
-- that `Annotated` carries (rest_framework_services/types/read_schema_markers.py).
pub mod Markers
pub mod Layer
pub mod Descriptions
pub mod Keys
pub mod Occurs
use djangorestframework_serv.Prelude.{String, Bool, true, false, List, [], ◌∷◌, Dict}
use djangorestframework_serv.Values.{Value}

-- One entry behind the type in `Annotated[X, ...]`.
pub data Metadata : Type 0 where
  input_required : Metadata
  not_client_input : Metadata
  input_description : String → Metadata
  plain_metadata : String → Metadata

-- What `get_origin` returns of a parametrised type, and the bare containers themselves.
pub data Origin : Type 0 where
  list_origin set_origin frozenset_origin dict_origin : Origin
  not_required_origin required_origin unpack_origin : Origin
  other_origin : String → Origin

mutual
  pub data Annotation : Type 0 where
    none_type : Annotation
    class_type : String → Annotation
    enum_type : List Value → Annotation
    literal : List Value → Annotation
    annotated : Annotation → List Metadata → Annotation
    union : Annotations → Annotation
    applied : Origin → Arguments → Annotation
    typed_dict : Hints → List String → Annotation
    -- a generic TypedDict with its arguments
    applied_typed_dict : Hints → List String → Arguments → Annotation

  pub data Annotations : Type 0 where
    nil : Annotations
    cons : Annotation → Annotations → Annotations

  -- An argument is a type or, in `Callable[[X], Y]`, a list of types.
  pub data Arguments : Type 0 where
    end : Arguments
    one : Annotation → Arguments → Arguments
    several : Annotations → Arguments → Arguments

  -- The annotations of a TypedDict's keys.
  pub data Hints : Type 0 where
    done : Hints
    hint : String → Annotation → Hints → Hints

abbrev pub hints : Hints → Dict Annotation
hints done = []
hints (hint name a rest) = (name, a) ∷ hints rest

abbrev pub members : Annotations → List Annotation
members nil = []
members (cons a as') = a ∷ members as'

abbrev pub of_members : List Annotation → Annotations
of_members [] = nil
of_members (a ∷ l) = cons a (of_members l)
