-- ===== src/JsonSchema/Lists.antt =====
-- The bounds of the list that a bulk spec validates (`list_constraints_for_schema` of
-- jsonschema/utils.py).
pub mod Enforced
use djangorestframework_serv.Prelude.{
  ℕ, String, Bool, true, false, Option, none, some, or_else, if◌then◌else◌, ltb, nat_eq,
}

-- What a list serializer declares. The class and its `Meta` decide it when it is built, so it is
-- read off the instance.
pub record ListSerializer : Type 0 where
  pub allow_empty : Bool
  pub min_length : Option ℕ
  pub max_length : Option ℕ

-- The declared input: none, a dataclass, or a serializer class with the list serializer that
-- `many=True` builds of it.
pub data ListInput : Type 0 where
  no_input dataclass_input : ListInput
  listed_input : ListSerializer → ListInput

-- "minItems" and "maxItems", where they are set.
pub record ListConstraints : Type 0 where
  pub min_items : Option ℕ
  pub max_items : Option ℕ

abbrev max : ℕ → ℕ → ℕ
max a b = if ltb a b then b else a

-- `max(listed.min_length or 0, 0 if listed.allow_empty else 1)`
abbrev pub minimum : ListSerializer → ℕ
minimum listed = max (or_else listed.min_length 0) (if listed.allow_empty then 0 else 1)

abbrev unless_zero : ℕ → Option ℕ
unless_zero n = if nat_eq n 0 then none else some n

unfoldable pub list_constraints_for_schema : ListInput → ListConstraints
list_constraints_for_schema no_input = record { min_items = none; max_items = none }
list_constraints_for_schema dataclass_input = record { min_items = none; max_items = none }
list_constraints_for_schema (listed_input listed) = record {
  min_items = unless_zero (minimum listed);
  max_items = listed.max_length;
}
