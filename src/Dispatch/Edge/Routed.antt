-- ===== src/Dispatch/Edge/Routed.antt =====
-- Where each argument of a dispatch comes from.
use djangorestframework_serv.Prelude.{
  first_some, String, ◌≡◌, refl, ap, ◌∙◌, Bool, true, false, ◌&&◌, not, Option, none, some, List,
  Dict, get, has, update, contains, contains-keep, is_some, if◌then◌else◌, arith,
}
use djangorestframework_serv.Values.{Value}
use djangorestframework_serv.Specs.{Read}
use djangorestframework_serv.Dispatch.Edge.{
  Kernel, Edge, QueryDict, gather, drop, flat, flat_value, url_kwargs, queried, routed_names,
  from_route, absent_names, from_query, unless_live, route_arguments,
}
use djangorestframework_serv.Dispatch.Edge.Dicts.{
  change_values, change, only, get-drop, get-update-gather,
}

-- What is documented of `coerce_flat`: it reads each value as the type of its own parameter.
abbrev pub Coerces : Kernel → (String → Value → Value) → Type 0
Coerces kernel coerced = (d : Dict Value) → kernel.coerce_flat d ≡ change_values coerced d

abbrev pub in_route : String → Option (Dict Value) → Option Value
in_route k none = none
in_route k (some route) = get k route

abbrev pub in_query : Kernel → String → Option QueryDict → Option Value
in_query kernel k none = none
in_query kernel k (some query) = flat_value kernel k (get k query)

-- A name that is there is not read again.
absent_first :
    (kernel : Kernel) (coerced : String → Value → Value) (k : String) (there : Option Value)
    (found : Option (List Value)) (listed : Bool)
    → first_some
        (only
          ((not (is_some there) && is_some found) && listed)
          (change (coerced k) (flat_value kernel k found)))
        there
      ≡ first_some there (only listed (change (coerced k) (flat_value kernel k found)))
absent_first kernel coerced k (some v) found listed = refl
absent_first kernel coerced k none none true = refl
absent_first kernel coerced k none none false = refl
absent_first kernel coerced k none (some vs) true = refl
absent_first kernel coerced k none (some vs) false = refl

one_channel :
    (queried : Bool) (rest found : Option Value)
    → first_some (only (not queried) rest) (only queried found)
      ≡ (if queried then only queried found else rest)
one_channel true rest found = refl
one_channel false (some v) found = refl
one_channel false none found = refl

module _ (kernel : Kernel) (coerced : String → Value → Value) (edge : Edge)
    (reads : List Read) where
  -- A name that a route captures: a declared one, or one that the selector or lookup reads.
  abbrev pub captured : String → Option Value
  captured k =
      only (contains k (routed_names kernel reads)) (change (coerced k) (in_route k edge.route))

  abbrev asked : String → Option Value
  asked k = only (contains k (queried reads)) (change (coerced k) (in_query kernel k edge.query))

  -- Of a live view a declared URL kwarg is the route's alone and a declared query parameter the
  -- query string's, and each other argument the caller's or, where the route has it, the route's.
  -- Off HTTP the route comes first, then the caller, then the query string.
  abbrev pub source : Bool → Option Value → String → Option Value
  source true sent k =
      if contains k (queried reads)
      then asked k
      else first_some (captured k) (only (not (contains k (url_kwargs reads))) sent)
  source false sent k = first_some (first_some (captured k) sent) (asked k)

  pub get-from_route :
      Coerces kernel coerced
      → (k : String) (d : Dict Value)
      → get k (from_route kernel reads edge.route d) ≡ first_some (captured k) (get k d)
  get-from_route law k d = go edge.route
    where
      go :
          (route : Option (Dict Value))
          → get k (from_route kernel reads route d)
            ≡ first_some
                (only
                  (contains k (routed_names kernel reads))
                  (change (coerced k) (in_route k route)))
                (get k d)
      go none = ground arith
      go (some route) =
          ap (λ e. get k (update d e)) (law (gather (λ j. get j route) (routed_names kernel reads)))
          ∙ get-update-gather k coerced (λ j. get j route) (routed_names kernel reads) d

  get-from_query :
      Coerces kernel coerced
      → (k : String) (d : Dict Value)
      → get k (from_query kernel (queried reads) edge.query d) ≡ first_some (get k d) (asked k)
  unfolding flat
  get-from_query law k d = go edge.query
    where
      go :
          (query : Option QueryDict)
          → get k (from_query kernel (queried reads) query d)
            ≡ first_some
                (get k d)
                (only (contains k (queried reads)) (change (coerced k) (in_query kernel k query)))
      go none = ground arith
      go (some query) =
          let names = absent_names query d (queried reads) in
          let value : String → Option Value = λ j. flat_value kernel j (get j query) in
          ap (λ e. get k (update d e)) (law (gather value names))
          ∙ get-update-gather k coerced value names d
          ∙ ap (λ b. first_some (only b (change (coerced k) (value k))) (get k d))
              (contains-keep (λ j. not (has j d) && has j query) k (queried reads))
          ∙ absent_first kernel coerced k (get k d) (get k query) (contains k (queried reads))

-- The routed arguments have the channels' values.
pub route_arguments_lem :
    (kernel : Kernel) (coerced : String → Value → Value) (edge : Edge) (reads : List Read)
    (sent : Dict Value) (k : String)
    → Coerces kernel coerced
    → get k (route_arguments kernel edge reads sent).arguments
      ≡ source kernel coerced edge reads edge.live (get k sent) k
unfolding route_arguments
route_arguments_lem kernel coerced edge reads sent k law = go edge.live
  where
    go :
        (live : Bool)
        → get k (
            from_query kernel (queried reads) edge.query (
              unless_live live
                (queried reads)
                (from_route kernel reads edge.route (unless_live live (url_kwargs reads) sent))))
          ≡ source kernel coerced edge reads live (get k sent) k
    go false =
        get-from_query kernel coerced edge reads law k _
        ∙ ap (λ o. first_some o (asked kernel coerced edge reads k))
            (get-from_route kernel coerced edge reads law k sent)
    go true =
        get-from_query kernel coerced edge reads law k _
        ∙ ap (λ o. first_some o (asked kernel coerced edge reads k))
            (get-drop k (queried reads) _
              ∙ ap (only (not (contains k (queried reads)))) (
                  get-from_route kernel coerced edge reads law k (drop (url_kwargs reads) sent)
                  ∙ ap (first_some (captured kernel coerced edge reads k))
                      (get-drop k (url_kwargs reads) sent)))
        ∙ one_channel (contains k (queried reads)) _ _
