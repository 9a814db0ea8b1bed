-- ===== src/Dispatch/Edge/Live.antt =====
-- What a dispatch writes onto the view's route and the request's query string.
use djangorestframework_serv.Prelude.{
  first_some, String, ◌≡◌, refl, sym, ap, ◌∙◌, Bool, true, false, ◌&&◌, not, Option, none, some,
  List, [], ◌∷◌, Dict, get, has, keep, contains, contains-keep, update, is_some, arith, eq_refl,
}
use djangorestframework_serv.Values.{Value}
use djangorestframework_serv.Specs.{Read}
use djangorestframework_serv.Dispatch.Edge.{
  Kernel, Edge, QueryDict, gather, drop, url_kwargs, queried, from_route, onto_route, onto_query,
  merge, unless_live, writes_back, routed_names, route_arguments,
}
use djangorestframework_serv.Dispatch.Edge.Dicts.{
  change_values, change, only, only-none, extended, gather-cons, get-drop, get-update-gather,
}
use djangorestframework_serv.Dispatch.Edge.Routed.{Coerces, in_route, get-from_route}

-- Nothing is gathered of names that were dropped.
gather-nil :
    (value : String → Option Value) (names : List String)
    → ((k : String) → contains k names ≡ true → value k ≡ none)
    → gather value names ≡ []
unfolding gather contains extended
gather-nil value [] h = refl
gather-nil value (k ∷ names) h =
    let here = h k (ground (arith, eq_refl k)) in
    let ih = gather-nil value names (λ j m. h j (ground arith)) in
    gather-cons value k names ∙ ap (λ o. extended k o (gather value names)) here ∙ ih

onto_query-dropped :
    (names : List String) (d : Dict Value) (query : Option QueryDict)
    → onto_query names (drop names d) query ≡ query
unfolding merge
onto_query-dropped names d none = refl
onto_query-dropped names d (some query) =
    ap (λ sent. some (merge query sent query))
      (gather-nil (λ k. get k (drop names d)) names
        (λ k m. get-drop k names d ∙ ap (λ b. only (not b) (get k d)) m))

onto_route-live :
    (fields : List String) (reads : List Read) (arguments : Dict Value)
    (route : Option (Dict Value))
    → onto_route true fields reads arguments route ≡ route
onto_route-live fields reads arguments none = refl
onto_route-live fields reads arguments (some route) = refl

-- A call over HTTP leaves the route of its view and the query string of its request as they were,
-- whatever the caller sent.
pub route_arguments-keeps :
    (kernel : Kernel) (edge : Edge) (reads : List Read) (sent : Dict Value)
    → edge.live ≡ true
    → ((route_arguments kernel edge reads sent).route ≡ edge.route)
      × ((route_arguments kernel edge reads sent).query ≡ edge.query)
unfolding route_arguments
route_arguments-keeps kernel edge reads sent live =
    let routed : Dict Value =
      from_route kernel reads edge.route (unless_live edge.live (url_kwargs reads) sent) in
    (
      ap (λ b. onto_route b edge.fields reads routed edge.route) live
          ∙ onto_route-live edge.fields reads routed edge.route,
      ap (λ b. onto_query (queried reads) (unless_live b (queried reads) routed) edge.query) live
          ∙ onto_query-dropped (queried reads) routed edge.query,
    )

-- Where the view has no route, none is made.
pub route_arguments-no_route :
    (kernel : Kernel) (edge : Edge) (reads : List Read) (sent : Dict Value)
    → edge.route ≡ none
    → (route_arguments kernel edge reads sent).route ≡ none
unfolding route_arguments
route_arguments-no_route kernel edge reads sent absent =
    ap
      (onto_route edge.live edge.fields reads
        (from_route kernel reads edge.route (unless_live edge.live (url_kwargs reads) sent)))
      absent

change_values-same : (d : Dict Value) → change_values (λ k v. v) d ≡ d
change_values-same [] = refl
change_values-same ((k, v) ∷ d) = ap (λ e. (k, v) ∷ e) (change_values-same d)

-- A name that the route has is neither captured again nor written.
written_once :
    (f : Value → Value) (routed declared is_field : Bool) (there sent : Option Value)
    → first_some
        (only
          ((not (is_some there)
              && (not is_field && is_some (first_some (only routed (change f there)) sent)))
            && declared)
          (change (λ v. v) (first_some (only routed (change f there)) sent)))
        there
      ≡ first_some there (only (declared && not is_field) sent)
written_once f routed declared is_field (some v) sent = refl
written_once f routed declared is_field none none = ground (arith, only-none routed)
written_once f routed declared is_field none (some v) = ground (arith, only-none routed)

-- Off HTTP the view's route keeps what it has, and takes from the caller each declared URL kwarg that
-- it lacks and that is no input field of the spec.
pub route_arguments-writes :
    (kernel : Kernel) (coerced : String → Value → Value) (edge : Edge) (reads : List Read)
    (sent route : Dict Value) (k : String)
    → Coerces kernel coerced
    → edge.live ≡ false
    → edge.route ≡ some route
    → in_route k (route_arguments kernel edge reads sent).route
      ≡ first_some
          (get k route)
          (only (contains k (url_kwargs reads) && not (contains k edge.fields)) (get k sent))
unfolding route_arguments
route_arguments-writes kernel coerced edge reads sent route k law offline there =
    let arguments : Dict Value = from_route kernel reads edge.route sent in
    let names : List String = keep (writes_back edge.fields route arguments) (url_kwargs reads) in
    let found =
      get-from_route kernel coerced edge reads law k sent
      ∙ ap
          (λ r.
            first_some
              (only (contains k (routed_names kernel reads)) (change (coerced k) (in_route k r)))
              (get k sent))
          there in
    ap
      (λ b. in_route k (
        onto_route b edge.fields reads
          (from_route kernel reads edge.route (unless_live b (url_kwargs reads) sent)) edge.route))
      offline
    ∙ ap (λ r. in_route k (onto_route false edge.fields reads arguments r)) there
    ∙ ap (λ e. get k (update route e))
        (sym (change_values-same (gather (λ j. get j arguments) names)))
    ∙ get-update-gather k (λ j v. v) (λ j. get j arguments) names route
    ∙ ap (λ b. first_some (only b (change (λ v. v) (get k arguments))) (get k route))
        (contains-keep (writes_back edge.fields route arguments) k (url_kwargs reads))
    ∙ ap
        (λ o.
          first_some
            (only
              ((not (has k route) && (not (contains k edge.fields) && is_some o))
                && contains k (url_kwargs reads))
              (change (λ v. v) o))
            (get k route))
        found
    ∙ written_once (coerced k) (contains k (routed_names kernel reads))
        (contains k (url_kwargs reads)) (contains k edge.fields) (get k route) (get k sent)
