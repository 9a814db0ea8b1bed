-- ===== src/Dispatch/Unknown/Disjoint.antt =====
-- What the server owns is not declared as input.
use djangorestframework_serv.Prelude.{
  String, ◌≡◌, sym, ap, ◌∙◌, true, false, not, Option, none, some, List, [], ◌++◌, contains, ok,
  >>=-eq-ok, ok-injective, some-inj, arith, contains-append, contains-keep,
}
use djangorestframework_serv.Callables.{Callable, Parameter}
use djangorestframework_serv.Dispatch.Declared.{
  Call, RuntimeAnnotation, DispatchSpec, service_spec, selector_spec, server_owned_keys, minus,
  when_listed, target_lookup, selector_consumed_keys,
}
use djangorestframework_serv.Dispatch.Unknown.{
  ArgumentBinding, spread_parameter_keys, filtered_names, declared_input_keys,
}

-- The names that a serializer declares, which only a service has.
abbrev pub payload : DispatchSpec → List String → List String
payload (service_spec spec) fields = fields
payload (selector_spec spec) fields = []

when_listed-eq-some :
    (found : Option (List String)) (next : List String → Call (Option (List String)))
    (declared : List String)
    → when_listed found next ≡ ok (some declared)
    → (names : List String) × (next names ≡ ok (some declared))
when_listed-eq-some none next declared h = cc
when_listed-eq-some (some names) next declared h = (names, h)

contains-minus :
    (k : String) (names owned : List String)
    → contains k owned ≡ true
    → contains k (minus names owned) ≡ false
contains-minus k names owned h = contains-keep (λ j. not (contains j owned)) k names ∙ ground arith

-- A declared set of input names has a name that the server owns only where a field of the service's
-- input serializer has it.
pub declared_input_keys-disjoint :
    (annotation : Callable → Parameter → RuntimeAnnotation) (spec : DispatchSpec)
    (fields : List String) (binding : ArgumentBinding) (reserved owned declared : List String)
    (k : String)
    → server_owned_keys spec ≡ ok owned
    → declared_input_keys annotation spec fields binding reserved ≡ ok (some declared)
    → contains k owned ≡ true
    → contains k declared ≡ contains k (payload spec fields)
unfolding declared_input_keys contains
declared_input_keys-disjoint annotation (selector_spec spec) fields binding reserved owned declared
      k owns h mem =
    let (same, read, rest) = >>=-eq-ok (server_owned_keys (selector_spec spec)) _ h in
    let (found, _, listed) = >>=-eq-ok (filtered_names annotation spec) _ rest in
    let (names, made) = when_listed-eq-some found _ declared listed in
    let agree = ok-injective (sym read ∙ owns) in
    ap (contains k) (sym (some-inj (ok-injective made)))
    ∙ contains-minus k names same (ap (contains k) agree ∙ mem)
declared_input_keys-disjoint annotation (service_spec spec) fields binding reserved owned declared k
      owns h mem =
    let (same, read, rest) = >>=-eq-ok (server_owned_keys (service_spec spec)) _ h in
    let (found, _, listed) =
      >>=-eq-ok (selector_consumed_keys annotation (target_lookup spec)) _ rest in
    let (consumed, more) = when_listed-eq-some found _ declared listed in
    let (spread, _, last) =
      >>=-eq-ok (spread_parameter_keys annotation spec binding reserved) _ more in
    let (parameters, made) = when_listed-eq-some spread _ declared last in
    let agree = ok-injective (sym read ∙ owns) in
    let gone = contains-minus k (consumed ++ parameters) same (ap (contains k) agree ∙ mem) in
    ap (contains k) (sym (some-inj (ok-injective made)))
    ∙ contains-append k fields (minus (consumed ++ parameters) same)
    ∙ ground arith
