-- ===== src/Tests/Arguments.antt =====
-- The arguments of a call that updates an order.
use djangorestframework_serv.Prelude.{
  Distinct, put, update, keep, first_some, String, ◌≡◌, ◌↔◌, refl, ap, true, false, ◌&&◌, ◌||◌, not,
  none, some, List, [], ◌∷◌, Dict, get, keys, contains, keep, ok, err, ◌==◌,
}
use djangorestframework_serv.Values.{Value, str, int}
use djangorestframework_serv.Annotations.{annotated, class_type, not_client_input}
use djangorestframework_serv.Annotations.Markers.{
  marked_input_keys, read_schema_markers, carries_a_marker,
}
use djangorestframework_serv.Callables.{Callable, Parameter, keyword_only}
use djangorestframework_serv.Specs.{
  precondition, preconditions, Read, url_kwarg, query_param, Channel,
}
use djangorestframework_serv.Dispatch.Declared.{
  unexpected, RuntimeAnnotation, unannotated, DispatchSpec, service_spec, server_owned_keys,
}
use djangorestframework_serv.Dispatch.Declared.Owned.{spec_hides, server_owned_keys_lem}
use djangorestframework_serv.Dispatch.Unknown.{
  auto, reject, declared_input_keys, resolve_unknown_arguments,
}
use djangorestframework_serv.Dispatch.Unknown.Refused.{
  Admits, resolve_unknown_arguments_iff, resolve_unknown_arguments-refuses,
}
use djangorestframework_serv.Dispatch.Edge.{Kernel, Edge, url_kwargs, route_arguments}
use djangorestframework_serv.Dispatch.Edge.Withheld.{CallNames}
use djangorestframework_serv.Dispatch.Edge.Dicts.{only}
use djangorestframework_serv.Dispatch.Edge.Routed.{Coerces, in_route}
use djangorestframework_serv.Dispatch.Edge.Live.{route_arguments-keeps, route_arguments-writes}
use djangorestframework_serv.Dispatch.Authors.{AuthorCall, Authored, all_names, route_author_values}
use djangorestframework_serv.Dispatch.Authors.Placed.{argument, route_author_values-supplies}
use djangorestframework_serv.Tests.Examples.{update_spec}

-- A precondition that only the server gives its tenant.
abbrev same_tenant : Callable
same_tenant = record {
  qualname = "same_tenant";
  parameters =
      record {
        name = "tenant";
        kind = keyword_only;
        has_default = false;
        hint = some (annotated (class_type "Tenant") (not_client_input ∷ []));
      }
      ∷ [];
}

abbrev gated : DispatchSpec
gated =
    service_spec
      (record update_spec { preconditions = some (preconditions (precondition same_tenant ∷ [])) })

abbrev at_runtime : Callable → Parameter → RuntimeAnnotation
at_runtime fn p = unannotated

abbrev order_fields : List String
order_fields = "number" ∷ []

abbrev seeds : List String
seeds = "user" ∷ []

abbrev sent : Dict Value
sent = ("number", int 7) ∷ ("tenant", str "another") ∷ []

abbrev owned : List String
owned = "view" ∷ "tenant" ∷ "view" ∷ "view" ∷ []

owns : server_owned_keys gated ≡ ok owned
unfolding server_owned_keys marked_input_keys read_schema_markers carries_a_marker
owns = refl

server_owned_keys_lem_example :
    contains "tenant" owned ≡ (("tenant" == "view") || spec_hides "tenant" gated)
server_owned_keys_lem_example = server_owned_keys_lem gated owned "tenant" owns

listed : declared_input_keys at_runtime gated order_fields auto seeds ≡ ok (some order_fields)
unfolding declared_input_keys server_owned_keys marked_input_keys read_schema_markers
    carries_a_marker keep contains
listed = refl

resolve_unknown_arguments_iff_example :
    (resolve_unknown_arguments at_runtime gated sent reject order_fields seeds auto ≡ ok [])
    ↔ Admits seeds sent (declared_input_keys at_runtime gated order_fields auto seeds)
resolve_unknown_arguments_iff_example =
    resolve_unknown_arguments_iff at_runtime gated sent order_fields seeds auto

tenant_owned : contains "tenant" owned ≡ true
unfolding contains
tenant_owned = refl

no_field : contains "tenant" order_fields ≡ false
unfolding contains
no_field = refl

no_seed : contains "tenant" seeds ≡ false
unfolding contains
no_seed = refl

tenant_sent : contains "tenant" (keys sent) ≡ true
unfolding contains
tenant_sent = refl

resolve_unknown_arguments-refuses_example :
    (names : List String) × (resolve_unknown_arguments at_runtime gated sent reject order_fields
        seeds auto
      ≡ err (unexpected names))
    × (contains "tenant" names ≡ true)
resolve_unknown_arguments-refuses_example =
    resolve_unknown_arguments-refuses at_runtime gated sent order_fields seeds auto owned
      order_fields "tenant" owns listed tenant_owned no_field no_seed tenant_sent

abbrev named_channel : String → Channel
named_channel name = record {
  name = name;
  type_name = "string";
  description = none;
  default = Value.unset;
  required = false;
}

abbrev reads : List Read
reads = url_kwarg (named_channel "tenant") ∷ query_param (named_channel "page") ∷ []

abbrev kernel : Kernel
kernel = record {
  coerce_flat = λ d. d;
  is_array = λ k. false;
  last = λ vs. str "last";
  reads = "pk" ∷ [];
}

abbrev as_sent : String → Value → Value
as_sent k v = v

coerces : Coerces kernel as_sent
coerces [] = refl
coerces ((k, v) ∷ d) = ap (λ e. (k, v) ∷ e) (coerces d)

abbrev live_view : Edge
live_view = record {
  live = true;
  route = some (("tenant", str "own") ∷ ("pk", int 3) ∷ []);
  query = some (("page", str "2" ∷ []) ∷ []);
  fields = order_fields;
}

abbrev offline_route : Dict Value
offline_route = ("pk", int 3) ∷ []

abbrev offline_view : Edge
offline_view = record live_view { live = false; route = some offline_route }

abbrev tenant_read_of_route : DispatchSpec
tenant_read_of_route = service_spec (record update_spec { reads = reads })

-- The target lookup reads the tenant, which is a field of the input too.
abbrev call_names : CallNames
call_names = record {
  input_names = "tenant" ∷ "note" ∷ [];
  seeds = "note" ∷ [];
  hidden_captures = [];
  lookup_reads = "tenant" ∷ [];
  caller_names = [];
}

own_tenant : get "tenant" (route_arguments kernel live_view reads sent).arguments ≡ some (str "own")
unfolding route_arguments
own_tenant = refl

route_arguments-keeps_example :
    ((route_arguments kernel live_view reads sent).route ≡ live_view.route)
    × ((route_arguments kernel live_view reads sent).query ≡ live_view.query)
route_arguments-keeps_example = route_arguments-keeps kernel live_view reads sent refl

route_arguments-writes_example :
    in_route "tenant" (route_arguments kernel offline_view reads sent).route
    ≡ first_some (get "tenant" offline_route) (
        only
          (contains "tenant" (url_kwargs reads) && not (contains "tenant" offline_view.fields))
          (get "tenant" sent))
route_arguments-writes_example =
    route_arguments-writes kernel as_sent offline_view reads sent offline_route "tenant" coerces
      refl refl

abbrev provided : Dict Value
provided = ("tenant", str "own") ∷ ("shop", Value.unset) ∷ []

-- The provider's tenant, over the hook's and the one that the caller sent.
abbrev authored_call : AuthorCall
authored_call = record {
  seeded = seeds;
  filled = "tenant" ∷ [];
  shadowed = [];
  filtered = [];
  wire = ("shop", "tenant") ∷ [];
  callers = record { reads = "tenant" ∷ []; fields = order_fields };
  hooks = ("tenant", str "hooked") ∷ ("user", str "someone") ∷ [];
  answered = some provided;
  server_channel = λ k. k;
}

scoped : (authored : Authored) × (route_author_values authored_call (some sent) ≡ ok authored)
unfolding route_author_values contains keep get put update
scoped = (_, refl)

provided-Distinct : Distinct (keys provided)
unfolding contains
provided-Distinct = (refl, (refl, tt))

tenant_read : contains "tenant" (all_names authored_call.callers) ≡ true
unfolding contains
tenant_read = refl

unshadowed : contains "tenant" authored_call.shadowed ≡ false
unfolding contains
unshadowed = refl

tenant_answered : get "tenant" provided ≡ some (str "own")
unfolding get
tenant_answered = refl

route_author_values-supplies_example : argument "tenant" scoped.0.arguments ≡ some (str "own")
route_author_values-supplies_example =
    route_author_values-supplies authored_call provided sent scoped.0 "tenant" (str "own") scoped.1
      refl provided-Distinct tenant_read unshadowed tenant_answered refl
