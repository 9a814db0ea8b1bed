-- ===== src/Dispatch/Authors.antt =====
-- The author's values of a call: those of the view's hooks and of the spec's `kwargs` provider
-- (dispatch/utils.py, `_route_author_values` and `_split_author_values`).
pub mod Claims
pub mod Placed
use djangorestframework_serv.Prelude.{
  String, Bool, true, false, ◌&&◌, ◌||◌, not, Option, none, some, List, [], ◌∷◌, ◌++◌, Dict, get,
  has, put, update, keys, values, contains, keep, is_some, is_empty, or_else, if◌then◌else◌, ◌==◌,
  Result, ok, err, ◌>>◌, ◌>>=◌, refuse_if,
}
use djangorestframework_serv.Dispatch.Edge.{drop}
use djangorestframework_serv.Values.{Value, is_unset}

-- `_caller_names`: what the variant reads, and the fields of its Validator.
pub record CallerNames : Type 0 where
  pub reads : List String
  pub fields : List String

abbrev pub all_names : CallerNames → List String
all_names callers = callers.reads ++ callers.fields

-- `{name: name for name in values if name in names and values[name] is not UNSET}`
unfoldable pub own_names : List String → Dict Value → Dict String
unfolding contains
own_names names [] = []
own_names names ((k, v) ∷ vs) =
    let rest = own_names names vs in
    if contains k names && not (is_unset v) then (k, k) ∷ rest else rest

-- `wire.get(name, name)`
abbrev pub wire_name : Dict String → String → String
wire_name wire k = or_else (get k wire) k

-- A key that is no argument's name claims the argument of its wire name, where none has.
unfoldable pub claim : List String → Dict String → Dict Value → Dict String → Dict String
unfolding contains get put
claim names wire [] named = named
claim names wire ((k, v) ∷ vs) named = claim names wire vs (
    if not (contains k names) && not (has (wire_name wire k) named)
    then put (wire_name wire k) k named
    else named)

-- The value that goes into an argument from the key that claims it.
abbrev pub supplied : List String → String → Option Value → Option Value
supplied names argument none = none
supplied names argument (some v) =
    if not (is_unset v) && contains argument names then some v else none

abbrev pub place : String → Option Value → Dict Value → Dict Value
place argument none placed = placed
place argument (some v) placed = (argument, v) ∷ placed

-- `routed`
unfoldable pub placements : List String → Dict Value → Dict String → Dict Value
unfolding contains get
placements names vs [] = []
placements names vs ((argument, k) ∷ named) =
    place argument (supplied names argument (get k vs)) (placements names vs named)

-- `{argument: named[argument] for argument in routed}`
unfoldable pub claims_of : Dict Value → Dict String → Dict String
unfolding get
claims_of placed [] = []
claims_of placed ((argument, k) ∷ named) =
    let rest = claims_of placed named in if has argument placed then (argument, k) ∷ rest else rest

-- The values that are not taken, less those that are UNSET.
unfoldable pub untaken : List String → Dict Value → Dict Value
unfolding contains
untaken taken [] = []
untaken taken ((k, v) ∷ vs) =
    let rest = untaken taken vs in
    if not (contains k taken) && not (is_unset v) then (k, v) ∷ rest else rest

-- The arguments, with the keys that they are given under, and the values that go on as extras.
-- Arguments that are no mapping are none.
pub record Split : Type 0 where
  pub arguments : Option (Dict Value)
  pub given : Dict String
  pub extras : Dict Value

abbrev pub put_over : Dict Value → Option (Dict Value) → Option (Dict Value)
put_over placed none = none
put_over placed (some arguments) = some (update arguments placed)

-- `_split_author_values`
unfoldable pub split_author_values :
    CallerNames → Dict String → Dict Value → Option (Dict Value) → Split
unfolding own_names claim placements claims_of untaken update
split_author_values callers wire vs arguments =
    let named = claim (all_names callers) wire vs (own_names (all_names callers) vs) in
    let placed = placements (all_names callers) vs named in
    let given = claims_of placed named in
    record {
      arguments = put_over placed arguments;
      given = given;
      extras = untaken (values given) vs;
    }

-- What `_route_author_values` finds of the call: the reserved names of the seeds, the keys that the
-- provider is annotated to fill, the filter's names that a callable hides, its other names for a
-- selector spec, and the wire name of each source of the input serializer. The provider's answer is
-- none where the spec has no provider.
pub record AuthorCall : Type 0 where
  pub seeded : List String
  pub filled : List String
  pub shadowed : List String
  pub filtered : List String
  pub wire : Dict String
  pub callers : CallerNames
  pub hooks : Dict Value
  pub answered : Option (Dict Value)
  pub server_channel : String → String

unfoldable pub restrict : List String → Dict Value → Dict Value
unfolding contains
restrict names [] = []
restrict names ((k, v) ∷ d) =
    let rest = restrict names d in if contains k names then (k, v) ∷ rest else rest

-- The other names of the values under `names`: the wire names of sources, and the sources.
unfoldable pub aliases_of : List String → Dict String → List String
unfolding contains
aliases_of names [] = []
aliases_of names ((source, name) ∷ wire) =
    let rest = aliases_of names wire in
    (if contains source names then name ∷ [] else [])
    ++ ((if contains name names then source ∷ [] else []) ++ rest)

abbrev pub provider_owned : AuthorCall → List String
provider_owned call = keep (λ k. not (contains k call.shadowed)) call.filled

abbrev pub hook_values : AuthorCall → Dict Value
hook_values call =
    drop (call.seeded ++ (provider_owned call ++ aliases_of (provider_owned call) call.wire))
      call.hooks

abbrev pub drop_owned : AuthorCall → Option (Dict Value) → Option (Dict Value)
drop_owned call none = none
drop_owned call (some arguments) =
    some (drop (keep (λ k. not (contains k call.callers.fields)) (provider_owned call)) arguments)

unfoldable pub on_channel : (String → String) → Dict Value → Dict Value
on_channel channel [] = []
on_channel channel ((k, v) ∷ d) = (channel k, v) ∷ on_channel channel d

-- What is handed to the kernel beside the arguments, and what the selector takes beside its filter.
pub record Authored : Type 0 where
  pub arguments : Option (Dict Value)
  pub extras : Dict Value
  pub given : Dict String
  pub beside : Dict Value

-- The author's two sets of values, the provider's over the hooks'.
unfoldable pub route_values : AuthorCall → Dict Value → Option (Dict Value) → Authored
unfolding split_author_values drop restrict aliases_of on_channel keep update contains
route_values call provided arguments =
    let hooks = hook_values call in
    let first =
      split_author_values call.callers call.wire (drop (call.shadowed ++ call.filtered) hooks)
        (drop_owned call arguments) in
    let second =
      split_author_values call.callers call.wire (drop call.shadowed provided) first.arguments in
    record {
      arguments = second.arguments;
      extras =
          update (update first.extras second.extras)
            (on_channel call.server_channel (restrict call.shadowed (update hooks provided)));
      given = update first.given second.given;
      beside = restrict call.filtered (update hooks provided);
    }

-- `sorted(answered.keys() & seeded)`, in the order of the answer
abbrev pub seeds_answered : AuthorCall → Dict Value → List String
seeds_answered call provided = keep (λ k. contains k call.seeded) (keys provided)

-- `_route_author_values`, which refuses a provider's value for a seed
unfoldable pub route_author_values :
    AuthorCall → Option (Dict Value) → Result (List String) Authored
unfolding route_values keep contains
route_author_values call arguments =
    let provided = or_else call.answered [] in
    let taken = seeds_answered call provided in
    if is_empty taken then ok (route_values call provided arguments) else err taken
