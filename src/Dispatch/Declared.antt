-- ===== src/Dispatch/Declared.antt =====
-- The input that a spec declares, and the names that only the server fills (dispatch/utils.py,
-- `server_owned_keys`, `declared_input_keys` and what they call). Sets of names are lists.
pub mod Owned
use djangorestframework_serv.Prelude.{
  String, Bool, true, false, ◌&&◌, ◌||◌, not, Option, none, some, List, [], ◌∷◌, ◌++◌, Dict, keys,
  contains, keep, is_some, if◌then◌else◌, Result, ok, err, ◌>>=◌,
}
use djangorestframework_serv.Config.{Config, ConfigError}
use djangorestframework_serv.Annotations.{Annotation}
use djangorestframework_serv.Annotations.Markers.{
  MarkedKeys, marked_input_keys, TypedDict, unpack_typed_dict, field_types,
}
use djangorestframework_serv.Callables.{Callable, Parameter, by_keyword, is_var_keyword}
use djangorestframework_serv.Specs.{
  ServiceSpec, SelectorSpec, PreconditionEntry, precondition, not_callable, Preconditions,
  preconditions,
}

-- What reading a callable raises: a marker that cannot be placed, or `_UnresolvedExtras` with the
-- callable and its parameter. What the policy for undeclared arguments raises is here too, with the
-- names that the message lists, as they were sent.
pub data ArgumentError : Type 0 where
  misdeclared : ConfigError → ArgumentError
  unresolved_extras : (qualname parameter : String) → ArgumentError
  unenforceable : (qualname parameter : String) → ArgumentError
  unexpected : List String → ArgumentError

abbrev pub Call : Type 0 → Type 0
Call A = Result ArgumentError A

-- The annotation of a parameter as `inspect` and `resolved_annotation` find it at runtime.
pub data RuntimeAnnotation : Type 0 where
  unannotated unresolvable : RuntimeAnnotation
  resolved : Annotation → RuntimeAnnotation

abbrev pub reading : {A : Type 0} → Config A → Call A
reading (ok a) = ok a
reading (err e) = err (misdeclared e)

-- `TRANSPORT_ONLY_NAMES`
abbrev pub transport_only_names : List String
transport_only_names = "view" ∷ []

-- `hidden_input_keys`
unfoldable pub hidden_input_keys : Callable → Call (List String)
unfolding marked_input_keys
hidden_input_keys fn = do
  marked ← reading (marked_input_keys fn)
  ok (marked.hidden ++ transport_only_names)

abbrev pub gate_callables : List PreconditionEntry → List Callable
gate_callables [] = []
gate_callables (precondition fn ∷ es) = fn ∷ gate_callables es
gate_callables (not_callable t ∷ es) = gate_callables es

-- `spec.preconditions or ()`, of a spec that was constructed
abbrev pub gates : Option Preconditions → List Callable
gates (some (preconditions es)) = gate_callables es
gates _ = []

-- `_target_lookup`
abbrev pub target_lookup : ServiceSpec → Option SelectorSpec
target_lookup spec =
    if is_some spec.collection_selector_spec
    then spec.collection_selector_spec
    else spec.instance_selector_spec

pub data DispatchSpec : Type 0 where
  service_spec : ServiceSpec → DispatchSpec
  selector_spec : SelectorSpec → DispatchSpec

abbrev pub listed : Option Callable → List Callable
listed none = []
listed (some fn) = fn ∷ []

abbrev pub lookup_callable : Option SelectorSpec → List Callable
lookup_callable none = []
lookup_callable (some lookup) = listed lookup.selector

-- The callables that a dispatch feeds from the caller's input.
abbrev pub fed_callables : DispatchSpec → List Callable
fed_callables (selector_spec spec) = listed spec.selector ++ gates spec.preconditions
fed_callables (service_spec spec) =
    spec.service ∷ (gates spec.preconditions ++ lookup_callable (target_lookup spec))

-- The loop of `server_owned_keys`
unfoldable pub hidden_by : List Callable → Call (List String)
unfolding hidden_input_keys
hidden_by [] = ok transport_only_names
hidden_by (fn ∷ fns) = do hidden ← hidden_input_keys fn; rest ← hidden_by fns; ok (hidden ++ rest)

-- `server_owned_keys`
unfoldable pub server_owned_keys : DispatchSpec → Call (List String)
unfolding hidden_by
server_owned_keys spec = hidden_by (fed_callables spec)

-- `names - others`
abbrev pub minus : List String → List String → List String
minus names others = keep (λ k. not (contains k others)) names

-- A set of names, or None where it cannot be listed: the work that follows is on a listed one.
abbrev pub when_listed :
    Option (List String) → (List String → Call (Option (List String))) → Call (Option (List String))
when_listed none next = ok none
when_listed (some names) next = next names

module _ (annotation : Callable → Parameter → RuntimeAnnotation) where
  abbrev unpacked : Option TypedDict → Option (List String)
  unpacked none = none
  unpacked (some td) = some (keys (field_types td.hints))

  abbrev pub extras_names : Callable → Parameter → RuntimeAnnotation → Call (Option (List String))
  extras_names fn p unannotated = ok none
  extras_names fn p unresolvable = err (unresolved_extras fn.qualname p.name)
  extras_names fn p (resolved a) = ok (unpacked (unpack_typed_dict (some a)))

  -- The names that one parameter adds.
  abbrev pub parameter_names : Callable → Parameter → Call (Option (List String))
  parameter_names fn p =
      if is_var_keyword p.kind
      then extras_names fn p (annotation fn p)
      else ok (some (if by_keyword p.kind then p.name ∷ [] else []))

  unfoldable pub collect_names : Callable → List Parameter → Call (Option (List String))
  unfolding unpack_typed_dict field_types
  collect_names fn [] = ok (some [])
  collect_names fn (p ∷ ps) = do
    added ← parameter_names fn p
    when_listed added (λ names. do
      rest ← collect_names fn ps
      when_listed rest (λ others. ok (some (names ++ others))))

  -- `_callable_param_names`
  unfoldable pub callable_param_names : Callable → Call (Option (List String))
  unfolding collect_names hidden_input_keys keep contains
  callable_param_names fn = do
    collected ← collect_names fn fn.parameters
    when_listed collected
        (λ names. do hidden ← hidden_input_keys fn; ok (some (minus names hidden)))

  abbrev pub selector_names : Option Callable → Call (Option (List String))
  selector_names none = ok (some [])
  selector_names (some fn) = callable_param_names fn

  -- `_selector_consumed_keys`
  unfoldable pub selector_consumed_keys : Option SelectorSpec → Call (Option (List String))
  unfolding callable_param_names
  selector_consumed_keys none = ok (some [])
  selector_consumed_keys (some lookup) =
      if is_some lookup.selector && is_some lookup.filter_set
      then ok none
      else selector_names lookup.selector
