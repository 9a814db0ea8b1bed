-- ===== src/Dispatch/Unknown/Refused.antt =====
-- What the policy REJECT admits and refuses.
use djangorestframework_serv.Prelude.{
  String, ◌≡◌, refl, ap, ◌∙◌, ◌↔◌, Bool, true, false, ◌&&◌, ◌||◌, Option, none, some, List, [], ◌∷◌,
  Dict, keys, contains, All, is_empty, trans_iff, ok, err, arith, eq_iff, ◌==◌, inl, inr,
  Bool-cases,
}
use djangorestframework_serv.Values.{Value}
use djangorestframework_serv.Callables.{Callable, Parameter}
use djangorestframework_serv.Dispatch.Declared.{
  Call, unexpected, unenforceable, unresolved_extras, misdeclared, RuntimeAnnotation, DispatchSpec,
  server_owned_keys,
}
use djangorestframework_serv.Dispatch.Unknown.{
  ArgumentBinding, reject, is_unknown, unknown_in, enforce_policy, judge, declared_input_keys,
  resolve_unknown_arguments,
}
use djangorestframework_serv.Dispatch.Unknown.Disjoint.{payload, declared_input_keys-disjoint}

-- The declared set, where it can be read, is open or has each key of the call that is not reserved.
abbrev pub Admits : List String → Dict Value → Call (Option (List String)) → Type 0
Admits reserved params (err raised) = ⊥
Admits reserved params (ok none) = Unit
Admits reserved params (ok (some declared)) =
    All (λ k. (contains k declared || contains k reserved) ≡ true) (keys params)

unknown_in-nil :
    (declared reserved : List String) (params : Dict Value)
    → (is_empty (unknown_in (is_unknown declared reserved) params) ≡ true)
      ↔ All (λ k. (contains k declared || contains k reserved) ≡ true) (keys params)
unfolding unknown_in
unknown_in-nil declared reserved [] = (λ h. tt, λ h. refl)
unknown_in-nil declared reserved ((k, v) ∷ params) =
    let ih = unknown_in-nil declared reserved params in
    (λ h. (ground arith, ih.0 (ground arith)), λ (here, rest). let more = ih.1 rest in ground arith)

enforce_policy_iff :
    (unknown : Dict Value) → (enforce_policy reject unknown ≡ ok []) ↔ (is_empty unknown ≡ true)
enforce_policy_iff [] = (λ h. refl, λ h. refl)
enforce_policy_iff ((k, v) ∷ unknown) = (λ h. cc, λ h. cc)

judge_iff :
    (reserved : List String) (params : Dict Value) (read : Call (Option (List String)))
    → (judge reject reserved params read ≡ ok []) ↔ Admits reserved params read
judge_iff reserved params (ok none) = (λ h. tt, λ h. refl)
judge_iff reserved params (ok (some declared)) =
    trans_iff (enforce_policy_iff (unknown_in (is_unknown declared reserved) params))
      (unknown_in-nil declared reserved params)
judge_iff reserved params (err (misdeclared e)) = (λ h. cc, λ h. ground arith)
judge_iff reserved params (err (unresolved_extras fn p)) = (λ h. cc, λ h. ground arith)
judge_iff reserved params (err (unenforceable fn p)) = (λ h. cc, λ h. ground arith)
judge_iff reserved params (err (unexpected ks)) = (λ h. cc, λ h. ground arith)

-- The policy REJECT admits a call exactly where the declared input of the spec can be read, and is
-- open or has every key of the call that is not a reserved seed.
pub resolve_unknown_arguments_iff :
    (annotation : Callable → Parameter → RuntimeAnnotation) (spec : DispatchSpec)
    (params : Dict Value) (fields reserved : List String) (binding : ArgumentBinding)
    → (resolve_unknown_arguments annotation spec params reject fields reserved binding ≡ ok [])
      ↔ Admits reserved params (declared_input_keys annotation spec fields binding reserved)
unfolding resolve_unknown_arguments
resolve_unknown_arguments_iff annotation spec params fields reserved binding =
    judge_iff reserved params (declared_input_keys annotation spec fields binding reserved)

contains-unknown_in :
    (p : String → Bool) (k : String) (params : Dict Value)
    → contains k (keys (unknown_in p params)) ≡ (p k && contains k (keys params))
unfolding contains unknown_in
contains-unknown_in p k [] = ground arith
contains-unknown_in p k ((j, v) ∷ params) =
    let ih = contains-unknown_in p k params in
    elim (Bool-cases (k == j)) [
      | inl e ↦ let same = ap p ((eq_iff k j).0 e) in ground arith
      | inr e ↦ ground arith
    ]

refuses-unknown :
    (unknown : Dict Value) (k : String)
    → contains k (keys unknown) ≡ true
    → (names : List String) × (enforce_policy reject unknown ≡ err (unexpected names))
      × (contains k names ≡ true)
unfolding contains
refuses-unknown [] k h = cc
refuses-unknown ((j, v) ∷ unknown) k h = (j ∷ keys unknown, refl, h)

-- Where the input of the spec is listed, the policy REJECT refuses a call that sends a name that the
-- server owns, and names it, unless the name is a reserved seed or a field of the service's input
-- serializer.
pub resolve_unknown_arguments-refuses :
    (annotation : Callable → Parameter → RuntimeAnnotation) (spec : DispatchSpec)
    (params : Dict Value) (fields reserved : List String) (binding : ArgumentBinding)
    (owned declared : List String) (k : String)
    → server_owned_keys spec ≡ ok owned
    → declared_input_keys annotation spec fields binding reserved ≡ ok (some declared)
    → contains k owned ≡ true
    → contains k (payload spec fields) ≡ false
    → contains k reserved ≡ false
    → contains k (keys params) ≡ true
    → (names : List String) × (resolve_unknown_arguments annotation spec params reject fields
          reserved binding
        ≡ err (unexpected names))
      × (contains k names ≡ true)
unfolding resolve_unknown_arguments
resolve_unknown_arguments-refuses annotation spec params fields reserved binding owned declared k
      owns listed mem field seed sent =
    let absent =
      declared_input_keys-disjoint annotation spec fields binding reserved owned declared k owns
        listed mem in
    let (names, refused, named) =
      refuses-unknown (unknown_in (is_unknown declared reserved) params) k
        (contains-unknown_in (is_unknown declared reserved) k params ∙ ground arith) in
    (names, ap (judge reject reserved params) listed ∙ refused, named)
