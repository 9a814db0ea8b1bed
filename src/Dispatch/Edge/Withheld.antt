-- ===== src/Dispatch/Edge/Withheld.antt =====
-- The arguments of a call as `prepare_edge_call` of dispatch/utils.py composes them, with the names
-- that it takes out of them again: the fields of the input that a seed or the target lookup takes,
-- and the parameters into which a selector's binding spreads nothing. A service spec with `many`
-- goes another way there.
use djangorestframework_serv.Prelude.{
  String, ◌≡◌, refl, Bool, true, false, ◌&&◌, ◌||◌, not, Option, none, some, List, [], ◌++◌, Dict,
  has, contains, keep, contains-keep, contains-append, is_some, if◌then◌else◌, arith,
}
use djangorestframework_serv.Values.{Value}
use djangorestframework_serv.Specs.{ServiceSpec}
use djangorestframework_serv.Dispatch.Declared.{DispatchSpec, service_spec, selector_spec}
use djangorestframework_serv.Dispatch.Edge.{
  Params, Kernel, Edge, EdgeArguments, unrouted, routed_arguments, drop, without_seed_names,
  edge_arguments,
}
use djangorestframework_serv.Dispatch.Edge.Routed.{in_route}

-- The sets of names that the call computes before its arguments: the names of the input
-- serializer's fields, those of the seeds of the call (`edge_seeds`), the captures that the target
-- lookup hides (`hidden_lookup_captures`), the names that the lookup's selector reads as compiled
-- (`_lookup_reads`), and those of `bundled_selector`, of which there is none unless the binding is
-- BUNDLE. They come from what the kernel makes of the spec, and are parameters here.
pub record CallNames : Type 0 where
  pub input_names : List String
  pub seeds : List String
  pub hidden_captures : List String
  pub lookup_reads : List String
  pub caller_names : List String

-- `_seeded_fields`, of the names that the call passes
unfoldable pub seeded_fields : CallNames → ServiceSpec → List String
unfolding keep contains
seeded_fields names spec =
    if is_some spec.input_serializer
    then keep (λ k. contains k (names.seeds ++ (names.hidden_captures ++ names.lookup_reads)))
        names.input_names
    else []

-- `name in route`, where the view has a route
abbrev pub is_captured : Option (Dict Value) → String → Bool
is_captured none k = false
is_captured (some route) k = has k route

-- `excluded - captured` of a service, and `caller_names - route.keys()` of a selector
unfoldable pub withheld : CallNames → DispatchSpec → Option (Dict Value) → List String
unfolding seeded_fields keep contains
withheld names (service_spec spec) route =
    keep (λ k. not (is_captured route k && contains k names.lookup_reads))
      (seeded_fields names spec)
withheld names (selector_spec spec) route = keep (λ k. not (is_captured route k)) names.caller_names

unfoldable pub withhold : CallNames → DispatchSpec → EdgeArguments → EdgeArguments
unfolding withheld drop
withhold names spec (unrouted v) = unrouted v
withhold names spec (routed_arguments call) =
    routed_arguments
      (record call { arguments = drop (withheld names spec call.route) call.arguments })

-- The arguments of a call, as `prepare_edge_call` composes them.
unfoldable pub call_arguments :
    Kernel → Edge → List String → CallNames → DispatchSpec → Params → EdgeArguments
unfolding edge_arguments without_seed_names withhold
call_arguments kernel edge reserved names spec params =
    withhold names spec (without_seed_names reserved (edge_arguments kernel edge spec params))

-- Whether a name is no argument of the call, by whether the route captures it.
abbrev pub is_withheld : CallNames → DispatchSpec → (captured : Bool) → String → Bool
is_withheld names (service_spec spec) captured k =
    (is_some spec.input_serializer && contains k names.input_names)
    && (if contains k names.lookup_reads
        then not captured
        else contains k names.seeds || contains k names.hidden_captures)
is_withheld names (selector_spec spec) captured k = contains k names.caller_names && not captured

contains-seeded_fields :
    (names : CallNames) (spec : ServiceSpec) (k : String)
    → contains k (seeded_fields names spec) ≡ (
        is_some spec.input_serializer
        && (contains k names.input_names
            && (contains k names.seeds
                || (contains k names.hidden_captures || contains k names.lookup_reads))))
unfolding seeded_fields contains
contains-seeded_fields names spec k = go (is_some spec.input_serializer)
  where
    all_seeds : List String
    all_seeds = names.seeds ++ (names.hidden_captures ++ names.lookup_reads)

    go :
        (b : Bool)
        → contains k (if b then keep (λ j. contains j all_seeds) names.input_names else []) ≡ (
            b
            && (contains k names.input_names
                && (contains k names.seeds
                    || (contains k names.hidden_captures || contains k names.lookup_reads))))
    go true =
        let kept = contains-keep (λ j. contains j all_seeds) k names.input_names in
        let first = contains-append k names.seeds (names.hidden_captures ++ names.lookup_reads) in
        let second = contains-append k names.hidden_captures names.lookup_reads in ground arith
    go false = refl

is_captured_lem :
    (route : Option (Dict Value)) (k : String) → is_captured route k ≡ is_some (in_route k route)
is_captured_lem none k = refl
is_captured_lem (some route) k = refl

pub contains-withheld :
    (names : CallNames) (spec : DispatchSpec) (route : Option (Dict Value)) (k : String)
    → contains k (withheld names spec route) ≡ is_withheld names spec (is_some (in_route k route)) k
unfolding withheld
contains-withheld names (service_spec spec) route k =
    let kept =
      contains-keep (λ j. not (is_captured route j && contains j names.lookup_reads)) k
        (seeded_fields names spec) in
    let seeded = contains-seeded_fields names spec k in
    let captured = is_captured_lem route k in ground arith
contains-withheld names (selector_spec spec) route k =
    let kept = contains-keep (λ j. not (is_captured route j)) k names.caller_names in
    let captured = is_captured_lem route k in ground arith
