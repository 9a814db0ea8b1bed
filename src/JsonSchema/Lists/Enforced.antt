-- ===== src/JsonSchema/Lists/Enforced.antt =====
-- The published bounds of a list are those that its list serializer declares.
use djangorestframework_serv.Prelude.{
  ℕ, ◌≡◌, Bool, true, false, ◌&&◌, ◌||◌, not, Option, none, some, leb, nat_eq, arith,
}
use djangorestframework_serv.JsonSchema.Lists.{
  ListSerializer, listed_input, ListConstraints, list_constraints_for_schema,
}

abbrev at_least : Option ℕ → ℕ → Bool
at_least none n = true
at_least (some m) n = leb m n

abbrev at_most : Option ℕ → ℕ → Bool
at_most none n = true
at_most (some m) n = leb n m

-- A list of `n` items is within "minItems" and "maxItems".
abbrev pub conforms : ListConstraints → ℕ → Bool
conforms c n = at_least c.min_items n && at_most c.max_items n

-- A list serializer takes a list of `n` items: an empty one only where it may be empty, no fewer
-- than `min_length` and no more than `max_length`.
abbrev pub takes : ListSerializer → ℕ → Bool
takes listed n =
    (listed.allow_empty || not (nat_eq n 0))
    && (at_least listed.min_length n && at_most listed.max_length n)

-- The published bounds of a bulk input admit the lengths that its list serializer takes, and no
-- others: where `allow_empty` and `min_length` disagree the stricter of them is published.
pub list_constraints_for_schema_lem :
    (listed : ListSerializer) (n : ℕ)
    → conforms (list_constraints_for_schema (listed_input listed)) n ≡ takes listed n
unfolding list_constraints_for_schema
list_constraints_for_schema_lem listed n = go listed.allow_empty listed.min_length listed.max_length
  where
    go :
        (allow_empty : Bool) (min_length max_length : Option ℕ)
        → conforms
            (list_constraints_for_schema (
              listed_input (record {
                allow_empty = allow_empty;
                min_length = min_length;
                max_length = max_length;
              })))
            n
          ≡ takes
              (record {
                allow_empty = allow_empty;
                min_length = min_length;
                max_length = max_length;
              })
              n
    go true none top = ground arith
    go false none top = ground arith
    go true (some m) top = ground arith
    go false (some m) top = ground arith
