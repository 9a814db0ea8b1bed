-- ===== src/Dispatch/Edge/Sources.antt =====
-- The channel of each argument of a call, seeds included.
use djangorestframework_serv.Prelude.{
  String, ◌&&◌, ◌||◌, is_some, Bool, true, false, not, Option, none, some, List, get, contains,
}
use djangorestframework_serv.Values.{Value}
use djangorestframework_serv.Dispatch.Edge.{
  Params, query_dict, mapping, other_params, Kernel, Edge, EdgeArguments, unrouted,
  routed_arguments, url_kwargs,
}
use djangorestframework_serv.Dispatch.Edge.Dicts.{change}
use djangorestframework_serv.Specs.{Read}
use djangorestframework_serv.Dispatch.Edge.Routed.{in_query}

-- The argument of a name, where the call has arguments.
abbrev pub argument_of : String → EdgeArguments → Option Value
argument_of k (unrouted v) = none
argument_of k (routed_arguments call) = get k call.arguments

-- What the caller sent under a name: a query string's values are read flat and coerced.
abbrev pub sent_value : Kernel → (String → Value → Value) → Params → String → Option Value
sent_value kernel coerced (query_dict sent) k = change (coerced k) (in_query kernel k (some sent))
sent_value kernel coerced (mapping sent) k = get k sent
sent_value kernel coerced (other_params v) k = none

abbrev pub is_mapping : Params → Bool
is_mapping (other_params v) = false
is_mapping _ = true

-- Whether the route captures a name once the call is routed: it did before, or, off HTTP, it takes a
-- declared URL kwarg from the caller that is no input field.
abbrev pub captures : Edge → List Read → (before sent : Option Value) → String → Bool
captures edge reads before sent k =
    is_some before
    || ((not edge.live && is_some edge.route)
        && ((contains k (url_kwargs reads) && not (contains k edge.fields)) && is_some sent))
