-- ===== src/Channels.antt =====
-- The declared arguments of an adapter, and the values that are routed under them
-- (types/validate_channel_names.py, and `_routed` of service_specs/drf_permission_check.py).
pub mod Routed
use djangorestframework_serv.Prelude.{
  ℕ, suc, String, Bool, true, false, ◌&&◌, not, Option, none, some, List, [], ◌∷◌, ◌++◌, Dict, get,
  put, keep, contains, is_empty, or_else, if◌then◌else◌, ltb, count, Result, ok, err, ◌>>◌,
  refuse_if, ◌==◌,
}
use djangorestframework_serv.Config.{
  Label, Checked, channel_collides, channel_duplicated, channel_contradictory,
}
use djangorestframework_serv.Values.{Value, null, is_null, is_unset}
use djangorestframework_serv.Specs.{Channel, Read, url_kwarg, query_param, channel}

abbrev pub declared_channels : List Read → List String
declared_channels [] = []
declared_channels (r ∷ rs) = (channel r).name ∷ declared_channels rs

abbrev pub collisions : (taken names : List String) → List String
collisions taken names = keep (λ k. contains k taken) names

abbrev pub repeated : List String → List String
repeated names = keep (λ k. ltb 1 (count k names)) names

-- `getattr(declaration, "required", False) and declaration.default is not UNSET`: a query parameter
-- has no such attribute.
abbrev pub is_contradictory : Read → Bool
is_contradictory (url_kwarg c) = c.required && not (is_unset c.default)
is_contradictory (query_param c) = false

unfoldable pub contradictory : List Read → List String
contradictory [] = []
contradictory (r ∷ rs) =
    let rest = contradictory rs in if is_contradictory r then (channel r).name ∷ rest else rest

-- `validate_channel_names`. `seeds` are the kernel's RESERVED_POOL_SEEDS; the label holds the kind of
-- declaration too. The names in an error stand as they are declared, where the source sorts them
-- and names each once.
unfoldable pub validate_channel_names :
    (seeds : List String) (label : Label) (declarations : List Read) (reserved : List String)
    → Checked
unfolding keep contains count contradictory
validate_channel_names seeds label declarations reserved =
    let names = declared_channels declarations in
    let colliding = collisions (seeds ++ reserved) names in
    do
      refuse_if (not (is_empty colliding)) (channel_collides label colliding)
      refuse_if (not (is_empty (repeated names))) (channel_duplicated label (repeated names))
      refuse_if (not (is_empty (contradictory declarations)))
          (channel_contradictory label (contradictory declarations))

-- The value under a declaration: the argument, unless it is missing or None, else the default.
abbrev pub routed_value : Channel → Dict Value → Value
routed_value c arguments =
    let given = or_else (get c.name arguments) null in if is_null given then c.default else given

-- One step of the loop of `_routed`.
abbrev pub route_one : Channel → Dict Value → Dict Value → Dict Value
route_one c arguments done =
    if is_unset (routed_value c arguments) then done else put c.name (routed_value c arguments) done

unfoldable pub route_from : List Read → Dict Value → Dict Value → Dict Value
unfolding get put
route_from [] arguments done = done
route_from (r ∷ rs) arguments done = route_from rs arguments (route_one (channel r) arguments done)

-- `_routed`
unfoldable pub routed : List Read → Dict Value → Dict Value
unfolding route_from
routed declared arguments = route_from declared arguments []
