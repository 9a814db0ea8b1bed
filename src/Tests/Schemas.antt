-- ===== src/Tests/Schemas.antt =====
-- The schemas of a tree of categories and of its fields.
use djangorestframework_serv.Prelude.{
  ok, get, ℕ, ◌*◌, ◌<◌, String, ◌≡◌, refl, true, false, ◌||◌, Option, none, some, List, [], ◌∷◌,
  ◌++◌, Dict, keys, contains, count, length, any, all, is_some, Distinct, arith,
}
use djangorestframework_serv.Values.{
  Value, end, dict, entry, seq, Items, null, str, int, Entries, put_entry, is_null,
}
use djangorestframework_serv.Annotations.{
  Annotation, none_type, class_type, annotated, union, applied, Annotations, Arguments, one,
  list_origin, plain_metadata,
}
use djangorestframework_serv.Annotations.Markers.{carries_a_marker, is_marker, union_of}
use djangorestframework_serv.JsonSchema.Types.{Described, type_to_schema}
use djangorestframework_serv.JsonSchema.Types.Described.{is_settled, type_to_schema-returns}
use djangorestframework_serv.JsonSchema.Types.Sizes.{size}
use djangorestframework_serv.JsonSchema.Choices.{
  no_default, default_value, ChoiceField, is_blank, choice_values, choice_schema,
}
use djangorestframework_serv.JsonSchema.Choices.Admitted.{
  alternatives, tally, at_least_one, choice_schema_lem,
}
use djangorestframework_serv.JsonSchema.Fields.{
  SpectacularAnnotation, FieldInfo, Field, field, list_serializer, choice, other,
}
use djangorestframework_serv.JsonSchema.Lists.{
  ListSerializer, listed_input, list_constraints_for_schema,
}
use djangorestframework_serv.JsonSchema.Lists.Enforced.{
  conforms, takes, list_constraints_for_schema_lem,
}
use djangorestframework_serv.JsonSchema.Overrides.{ObjectSchema, excluded}
use djangorestframework_serv.JsonSchema.Serializers.{
  Texts, Options, Serializers, describe_object, serializer_to_schema, truncated_node,
}
use djangorestframework_serv.JsonSchema.Serializers.Bounded.{
  serializer_to_schema-returns, serializer_to_schema-is_some,
}
use djangorestframework_serv.JsonSchema.Serializers.Published.{
  names_where, is_shown, is_demanded, without, describe_object_lem,
}

abbrev states : ChoiceField
states = record {
  choices =
      record { value = str "open"; text = "open"; label = "Open" }
      ∷ record { value = str "paid"; text = "paid"; label = "Paid" }
      ∷ [];
  allow_blank = true;
  allow_null = false;
}

choice_schema_lem_example :
    ((extra : List Value) × (alternatives (choice_schema true states)
        ≡ (choice_values states.choices ++ extra))
      × (all (λ v. is_blank v || is_null v) extra ≡ true))
    × (tally is_blank (alternatives (choice_schema true states))
        ≡ at_least_one states.allow_blank (tally is_blank (choice_values states.choices)))
    × (tally is_null (alternatives (choice_schema true states))
        ≡ at_least_one states.allow_null (tally is_null (choice_values states.choices)))
    × (alternatives (choice_schema false states) ≡ choice_values states.choices)
choice_schema_lem_example = choice_schema_lem states

abbrev some_rows : ListSerializer
some_rows = record { allow_empty = false; min_length = none; max_length = some 10 }

list_constraints_for_schema_lem_example :
    conforms (list_constraints_for_schema (listed_input some_rows)) 0 ≡ takes some_rows 0
list_constraints_for_schema_lem_example = list_constraints_for_schema_lem some_rows 0

abbrev plain : FieldInfo
plain = record {
  types = "CharField" ∷ "Field" ∷ [];
  read_only = false;
  write_only = false;
  required = true;
  allow_null = false;
  default = no_default;
  label = none;
  help_text = none;
  annotation = none;
}

-- A category has a key, a name, a secret, a state and the categories below it.
abbrev category_fields : Dict (Field (Unit {0}))
category_fields =
    ("id", field (record plain { types = "IntegerField" ∷ []; read_only = true }) other)
    ∷ ("name", field plain other)
    ∷ ("secret", field (record plain { write_only = true }) other)
    ∷ (
      "state",
      field
          (record plain {
            types = "ChoiceField" ∷ [];
            required = false;
            default = default_value (str "open");
          })
          (choice states),
    )
    ∷ (
      "children",
      field (record plain { types = "ListSerializer" ∷ [] }) (list_serializer (some tt)),
    )
    ∷ []

abbrev hiding_secrets : SpectacularAnnotation
hiding_secrets = record {
  field = none;
  exclude_fields = some ("secret" ∷ []);
  deprecate_fields = "state" ∷ [];
  examples = some (int 1) ∷ some null ∷ none ∷ [];
}

abbrev categories : Serializers (Unit {0})
categories = record {
  class_of = λ i. "Category";
  fields = λ i. category_fields;
  annotation = λ cls. some hiding_secrets;
}

abbrev texts : Texts
texts = record { replace = λ text old new. text; capitalize = λ text. text }

abbrev as_input : Options
as_input = record { rules = []; for_output = false; max_depth = none }

abbrev classes : List String
classes = "Category" ∷ []

known : (i : Unit {0}) → contains (categories.class_of i) classes ≡ true
unfolding contains
known i = refl

serializer_to_schema-returns_example :
    (schema : Entries) × ((fuel : ℕ)
      → 4 * length classes < fuel
      → serializer_to_schema texts as_input categories fuel [] tt ≡ some schema)
serializer_to_schema-returns_example =
    serializer_to_schema-returns texts as_input categories classes known tt

-- The walk with one unit of fuel less than it needs.
spent : serializer_to_schema texts as_input categories 4 [] tt ≡ none
unfolding serializer_to_schema contains count all any put_entry
spent = refl

abbrev two_levels : Options
two_levels = record as_input { max_depth = some 2 }

serializer_to_schema-is_some_example :
    is_some (serializer_to_schema texts two_levels categories 3 [] tt) ≡ true
serializer_to_schema-is_some_example =
    serializer_to_schema-is_some texts two_levels categories 2 3 refl (omega arith) tt

abbrev truncated : Unit {0} → Option Entries
truncated i = some truncated_node

category_names : Distinct (keys (categories.fields tt))
unfolding contains
category_names = (refl, (refl, (refl, (refl, (refl, tt)))))

category_schema :
    (o : ObjectSchema) × (describe_object texts as_input categories truncated tt ≡ some o)
unfolding describe_object contains count all any put_entry
category_schema = (_, refl)

describe_object_lem_example :
    (keys category_schema.0.properties
      ≡ without
          (excluded (categories.annotation (categories.class_of tt)))
          (names_where (is_shown as_input.for_output) (categories.fields tt)))
    × (category_schema.0.required
        ≡ without
            (excluded (categories.annotation (categories.class_of tt)))
            (names_where (is_demanded as_input.for_output) (categories.fields tt)))
describe_object_lem_example =
    describe_object_lem texts as_input categories truncated tt category_schema.0 category_names
      category_schema.1

-- `list[Annotated[int, ...] | None]`, with the metadata of another library
abbrev optional_numbers : Annotation
optional_numbers = applied list_origin (
    one
      (union (
        Annotations.cons (annotated (class_type "int") (plain_metadata "Field" ∷ []))
          (Annotations.cons none_type Annotations.nil)))
      Arguments.end)

abbrev no_rule : Annotation → Option Entries
no_rule a = none

type_to_schema-returns_example :
    (described : Described) × (is_settled described ≡ true)
    × ((fuel : ℕ)
        → size optional_numbers < fuel
        → type_to_schema no_rule fuel optional_numbers ≡ described)
type_to_schema-returns_example = type_to_schema-returns no_rule optional_numbers

numbers_described :
    type_to_schema no_rule 9 optional_numbers
    ≡ ok (
        entry "type" (str "array") (
          entry "items"
            (dict (
              entry "anyOf"
                (seq (
                  Items.cons
                    (dict (entry "type" (str "integer") end))
                    (Items.cons (dict (entry "type" (str "null") end)) Items.nil)))
                end))
            end))
unfolding type_to_schema carries_a_marker any get is_marker union_of
numbers_described = refl
