-- ===== src/Dispatch/Unknown.antt =====
-- The policy for arguments that a spec does not declare (dispatch/utils.py,
-- `resolve_unknown_arguments`, `enforceable_policy` and what they call).
pub mod Refused
pub mod Disjoint
use djangorestframework_serv.Prelude.{
  String, Bool, true, false, ◌&&◌, ◌||◌, not, Option, none, some, List, [], ◌∷◌, ◌++◌, Dict, keys,
  contains, keep, is_some, is_empty, if◌then◌else◌, Result, ok, err, ◌>>=◌,
}
use djangorestframework_serv.Values.{Value}
use djangorestframework_serv.Callables.{Callable, Parameter}
use djangorestframework_serv.Specs.{ServiceSpec, SelectorSpec}
use djangorestframework_serv.Dispatch.Declared.{
  ArgumentError, misdeclared, unresolved_extras, unenforceable, unexpected, Call, RuntimeAnnotation,
  target_lookup, DispatchSpec, service_spec, selector_spec, server_owned_keys, minus, when_listed,
  callable_param_names, selector_names, selector_consumed_keys,
}

pub data ArgumentBinding : Type 0 where
  auto bundle spread_author_wins spread_caller_wins : ArgumentBinding

pub data UnknownArguments : Type 0 where
  ignore reject passthrough : UnknownArguments

-- `resolve_argument_binding`
unfoldable pub resolve_argument_binding : DispatchSpec → ArgumentBinding → ArgumentBinding
resolve_argument_binding (service_spec spec) auto = bundle
resolve_argument_binding (selector_spec spec) auto = spread_author_wins
resolve_argument_binding spec binding = binding

abbrev is_bundle : ArgumentBinding → Bool
is_bundle bundle = true
is_bundle _ = false

-- `key not in declared and key not in reserved`
abbrev pub is_unknown : List String → List String → String → Bool
is_unknown declared reserved k = not (contains k declared) && not (contains k reserved)

unfoldable pub unknown_in : (String → Bool) → Dict Value → Dict Value
unknown_in p [] = []
unknown_in p ((k, v) ∷ params) =
    let rest = unknown_in p params in if p k then (k, v) ∷ rest else rest

abbrev pub enforce_policy : UnknownArguments → Dict Value → Call (Dict Value)
enforce_policy reject [] = ok []
enforce_policy reject ((k, v) ∷ unknown) = err (unexpected (k ∷ keys unknown))
enforce_policy _ unknown = ok unknown

abbrev unlisted : UnknownArguments → ArgumentError → Call (Dict Value)
unlisted reject (unresolved_extras fn p) = err (unenforceable fn p)
unlisted passthrough (unresolved_extras fn p) = ok []
unlisted policy raised = err raised

abbrev pub judge :
    UnknownArguments → List String → Dict Value → Call (Option (List String)) → Call (Dict Value)
judge policy reserved params (err raised) = unlisted policy raised
judge policy reserved params (ok none) = ok []
judge policy reserved params (ok (some declared)) =
    enforce_policy policy (unknown_in (is_unknown declared reserved) params)

abbrev policy_of : Call Bool → Call UnknownArguments
policy_of (ok true) = ok ignore
policy_of (ok false) = ok reject
policy_of (err (unresolved_extras fn p)) = err (unenforceable fn p)
policy_of (err raised) = err raised

-- What `declared_input_keys` makes of the callables of a service.
abbrev pub service_keys : List String → List String → List String → List String → List String
service_keys fields owned consumed parameters = fields ++ minus (consumed ++ parameters) owned

module _ (annotation : Callable → Parameter → RuntimeAnnotation) where
  -- `_spread_parameter_keys`
  unfoldable pub spread_parameter_keys :
      ServiceSpec → ArgumentBinding → List String → Call (Option (List String))
  unfolding resolve_argument_binding callable_param_names keep contains
  spread_parameter_keys spec binding reserved =
      if is_some spec.input_serializer
        || is_bundle (resolve_argument_binding (service_spec spec) binding)
      then ok (some [])
      else callable_param_names annotation spec.service >>= λ found.
          when_listed found (λ names. ok (some (minus names reserved)))

  -- A filter set opens the input of a selector.
  abbrev pub filtered_names : SelectorSpec → Call (Option (List String))
  filtered_names spec =
      if is_some spec.filter_set then ok none else selector_names annotation spec.selector

  -- `declared_input_keys`, with the names of the serializer's fields
  unfoldable pub declared_input_keys :
      DispatchSpec → List String → ArgumentBinding → List String → Call (Option (List String))
  unfolding server_owned_keys selector_consumed_keys spread_parameter_keys keep contains
  declared_input_keys (selector_spec spec) fields binding reserved = do
    owned ← server_owned_keys (selector_spec spec)
    found ← filtered_names spec
    when_listed found (λ names. ok (some (minus names owned)))
  declared_input_keys (service_spec spec) fields binding reserved = do
    owned ← server_owned_keys (service_spec spec)
    found ← selector_consumed_keys annotation (target_lookup spec)
    when_listed found (λ consumed. do
      spread ← spread_parameter_keys spec binding reserved
      when_listed spread (λ parameters. ok (some (service_keys fields owned consumed parameters))))

  -- `resolve_unknown_arguments`
  unfoldable pub resolve_unknown_arguments :
      DispatchSpec
      → Dict Value
      → UnknownArguments
      → List String
      → List String
      → ArgumentBinding
      → Call (Dict Value)
  unfolding declared_input_keys unknown_in contains
  resolve_unknown_arguments spec params ignore fields reserved binding = ok []
  resolve_unknown_arguments spec params policy fields reserved binding =
      judge policy reserved params (declared_input_keys spec fields binding reserved)

  abbrev lookup_selector : Option SelectorSpec → Option Callable
  lookup_selector none = none
  lookup_selector (some lookup) = lookup.selector

  -- `_reads_openly`, its two halves
  abbrev reader : DispatchSpec → Option Callable
  reader (selector_spec spec) = spec.selector
  reader (service_spec spec) = lookup_selector (target_lookup spec)

  abbrev spreads_openly : DispatchSpec → ArgumentBinding → List String → Call Bool
  spreads_openly (selector_spec spec) binding reserved = ok false
  spreads_openly (service_spec spec) binding reserved =
      spread_parameter_keys spec binding reserved >>= λ found. ok (not (is_some found))

  unfoldable pub reads_openly : DispatchSpec → ArgumentBinding → List String → Call Bool
  unfolding spread_parameter_keys callable_param_names
  reads_openly spec binding reserved = do
    names ← selector_names annotation (reader spec)
    if is_some names then spreads_openly spec binding reserved else ok true

  -- `enforceable_policy`
  unfoldable pub enforceable_policy :
      DispatchSpec → UnknownArguments → ArgumentBinding → List String → Call UnknownArguments
  unfolding reads_openly
  enforceable_policy spec reject binding reserved = policy_of (reads_openly spec binding reserved)
  enforceable_policy spec policy binding reserved = ok policy
