-- ===== src/Dispatch/Edge.antt =====
-- The caller's input as the arguments of a dispatch, with the declared channels routed both ways
-- (dispatch/utils.py, `edge_arguments`, `_flat` and `without_seed_names`).
pub mod Dicts
pub mod Routed
pub mod Live
pub mod Withheld
pub mod Sources
use djangorestframework_serv.Prelude.{
  ℕ, String, Bool, true, false, ◌&&◌, ◌||◌, not, Option, none, some, List, [], ◌∷◌, ◌++◌, Dict, get,
  has, put, update, keys, contains, keep, any, is_some, is_empty, if◌then◌else◌,
}
use djangorestframework_serv.Values.{Value, seq, of_items, items}
use djangorestframework_serv.Specs.{ServiceSpec, SelectorSpec, Read, url_kwarg, query_param}
use djangorestframework_serv.Dispatch.Declared.{
  DispatchSpec, service_spec, selector_spec, target_lookup,
}

-- A `QueryDict` of Django: the values of each key.
abbrev pub QueryDict : Type 0
QueryDict = Dict (List Value)

pub data Params : Type 0 where
  query_dict : QueryDict → Params
  mapping : Dict Value → Params
  other_params : Value → Params

-- What the call takes from the libraries: `coerce_flat` under the parameters of the variant, whether
-- a parameter is declared an array, the value that `QueryDict.get` gives of a key's values, and the
-- names that the variant's selector or target lookup reads.
pub record Kernel : Type 0 where
  pub coerce_flat : Dict Value → Dict Value
  pub is_array : String → Bool
  pub last : List Value → Value
  pub reads : List String

-- `view.kwargs` where it is a dictionary, `request.query_params` where it is a `QueryDict`, and
-- `over_http(view)`. `fields` are the `writable_input_names` of the
-- spec, of which a selector spec has none.
pub record Edge : Type 0 where
  pub live : Bool
  pub route : Option (Dict Value)
  pub query : Option QueryDict
  pub fields : List String

-- The arguments, and `view.kwargs` and `request.query_params` as the call leaves them.
pub record RoutedCall : Type 0 where
  pub arguments : Dict Value
  pub route : Option (Dict Value)
  pub query : Option QueryDict

-- `{name: value(name) for name in names if name in source}`
unfoldable pub gather : (String → Option Value) → List String → Dict Value
gather value [] = []
gather value (k ∷ names) =
    let rest = gather value names in elim (value k) [ none ↦ rest | some v ↦ (k, v) ∷ rest ]

-- `for name in names: arguments.pop(name, None)`
unfoldable pub drop : List String → Dict Value → Dict Value
unfolding contains
drop names [] = []
drop names ((k, v) ∷ d) =
    let rest = drop names d in if contains k names then rest else (k, v) ∷ rest

abbrev flat_value : Kernel → String → Option (List Value) → Option Value
flat_value kernel k none = none
flat_value kernel k (some vs) =
    some (if kernel.is_array k then seq (of_items vs) else kernel.last vs)

-- `_flat`, of names that the source has
unfoldable pub flat : Kernel → QueryDict → List String → Dict Value
unfolding gather get
flat kernel source names = gather (λ k. flat_value kernel k (get k source)) names

abbrev optional_reads : Option SelectorSpec → List Read
optional_reads none = []
optional_reads (some lookup) = lookup.reads

-- The declared channels of the spec, and those of a service's target lookup.
abbrev pub declared_reads : DispatchSpec → List Read
declared_reads (service_spec spec) = spec.reads ++ optional_reads (target_lookup spec)
declared_reads (selector_spec spec) = spec.reads

abbrev pub url_kwargs : List Read → List String
url_kwargs [] = []
url_kwargs (url_kwarg c ∷ rs) = c.name ∷ url_kwargs rs
url_kwargs (query_param c ∷ rs) = url_kwargs rs

abbrev pub queried : List Read → List String
queried [] = []
queried (url_kwarg c ∷ rs) = queried rs
queried (query_param c ∷ rs) = c.name ∷ queried rs

abbrev pub routed_names : Kernel → List Read → List String
routed_names kernel reads = url_kwargs reads ++ kernel.reads

-- The route's captures are the arguments.
abbrev pub from_route : Kernel → List Read → Option (Dict Value) → Dict Value → Dict Value
from_route kernel reads none arguments = arguments
from_route kernel reads (some route) arguments =
    update arguments (kernel.coerce_flat (gather (λ k. get k route) (routed_names kernel reads)))

abbrev pub writes_back : List String → Dict Value → Dict Value → String → Bool
writes_back fields route arguments k =
    not (has k route) && (not (contains k fields) && has k arguments)

-- `route[name] = arguments[name]` for the declared names that the route of no live view has, and
-- that are no field of the input.
abbrev pub onto_route :
    Bool → List String → List Read → Dict Value → Option (Dict Value) → Option (Dict Value)
onto_route live fields reads arguments none = none
onto_route true fields reads arguments (some route) = some route
onto_route false fields reads arguments (some route) = some (
    update route (
      gather (λ k. get k arguments) (keep (writes_back fields route arguments) (url_kwargs reads))))

abbrev pub absent_names : QueryDict → Dict Value → List String → List String
absent_names query arguments names = keep (λ k. not (has k arguments) && has k query) names

-- The query string is read for the declared names that are still missing.
abbrev pub from_query : Kernel → List String → Option QueryDict → Dict Value → Dict Value
from_query kernel names none arguments = arguments
from_query kernel names (some query) arguments =
    update arguments (kernel.coerce_flat (flat kernel query (absent_names query arguments names)))

abbrev as_list : Value → List Value
as_list (seq vs) = items vs
as_list v = v ∷ []

-- `merged.setlist(name, ...)` for the names sent that the query string does not have
unfoldable pub merge : QueryDict → Dict Value → QueryDict → QueryDict
unfolding get put
merge query [] merged = merged
merge query ((k, v) ∷ sent) merged =
    merge query sent (if has k query then merged else put k (as_list v) merged)

abbrev pub onto_query : List String → Dict Value → Option QueryDict → Option QueryDict
onto_query names arguments none = none
onto_query names arguments (some query) =
    some (merge query (gather (λ k. get k arguments) names) query)

abbrev pub unless_live : Bool → List String → Dict Value → Dict Value
unless_live live names arguments = if live then drop names arguments else arguments

-- `edge_arguments`, of arguments that are a mapping
unfoldable pub route_arguments : Kernel → Edge → List Read → Dict Value → RoutedCall
unfolding gather drop flat keep contains get put update merge
route_arguments kernel edge reads sent =
    let routed =
      from_route kernel reads edge.route (unless_live edge.live (url_kwargs reads) sent) in
    let asked = unless_live edge.live (queried reads) routed in
    record {
      arguments = from_query kernel (queried reads) edge.query asked;
      route = onto_route edge.live edge.fields reads routed edge.route;
      query = onto_query (queried reads) asked edge.query;
    }

-- What the kernel is handed: routed arguments, or a value that is no mapping.
pub data EdgeArguments : Type 0 where
  unrouted : Value → EdgeArguments
  routed_arguments : RoutedCall → EdgeArguments

-- `edge_arguments`
unfoldable pub edge_arguments : Kernel → Edge → DispatchSpec → Params → EdgeArguments
unfolding route_arguments
edge_arguments kernel edge spec (other_params v) = unrouted v
edge_arguments kernel edge spec (mapping sent) =
    routed_arguments (route_arguments kernel edge (declared_reads spec) sent)
edge_arguments kernel edge spec (query_dict source) = routed_arguments (
    route_arguments kernel edge (declared_reads spec)
      (kernel.coerce_flat (flat kernel source (keys source))))

-- `DROPPED_EDGE_SEEDS`
abbrev pub dropped_edge_seeds : List String
dropped_edge_seeds = "request" ∷ "serializer" ∷ []

-- `without_seed_names`
unfoldable pub without_seed_names : List String → EdgeArguments → EdgeArguments
unfolding drop
without_seed_names reserved (unrouted v) = unrouted v
without_seed_names reserved (routed_arguments call) =
    routed_arguments
      (record call { arguments = drop (reserved ++ dropped_edge_seeds) call.arguments })
