-- ===== src/Validation/Signature/Offers.antt =====
-- What a callable that passes `validate_callable_signature` is sure to receive.
use djangorestframework_serv.Prelude.{
  keep-nil-contains, keep-eq-nil, String, ◌≡◌, refl, sym, ◌∙◌, ◌≢◌, ◌↔◌, ◌⊎◌, inl, inr, Bool, true,
  false, ◌&&◌, ◌||◌, not, List, [], ◌∷◌, Dict, get, has, keep, contains, if◌then◌else◌, is_some,
  is_empty, ok, refuse_if, >>-eq-ok, refuse_if-eq-ok, arith, eq_iff, ◌==◌, Bool-cases,
  ne_of_eq_false,
}
use djangorestframework_serv.Config.{Label, unknown_required}
use djangorestframework_serv.Callables.{
  Parameter, Callable, by_keyword, names, required_kw_params, accepts_var_keyword, declared_names,
  resolve_callable_kwargs,
}
use djangorestframework_serv.Callables.Binding.{get-resolve_callable_kwargs}
use djangorestframework_serv.Validation.Signature.{
  Offered, known_keys, unknown_names, validate_required, validate_callable_signature, offers,
  IsOffered,
}

-- The names that the code collects as known are offered, where the four own keys were checked.
known-offers :
    (o : Offered) (k : String)
    → k ≢ "data"
    → k ≢ "serializer"
    → k ≢ "instance"
    → k ≢ "result"
    → contains k (known_keys o) ≡ true
    → offers o k ≡ true
unfolding known_keys offers contains
known-offers o k a b c d h =
    ground (arith, eq_iff k "data", eq_iff k "serializer", eq_iff k "instance", eq_iff k "result")

offers-known :
    (o : Offered) (k : String)
    → (o.permissive_extras || is_some o.spec_kwargs) ≡ false
    → offers o k ≡ true
    → contains k (known_keys o) ≡ true
unfolding known_keys offers contains
offers-known o k closed h = ground arith

has_data_of : (o : Offered) → offers o "data" ≡ o.has_data
unfolding offers
has_data_of o = refl

has_serializer_of : (o : Offered) → offers o "serializer" ≡ o.has_data
unfolding offers
has_serializer_of o = refl

has_instance_of : (o : Offered) → offers o "instance" ≡ o.has_instance
unfolding offers
has_instance_of o = refl

has_result_of : (o : Offered) → offers o "result" ≡ o.has_result
unfolding offers
has_result_of o = refl

own_key : (b c : Bool) → (b && not c) ≡ false → b ≡ true → c ≡ true
own_key b c h m = ground arith

pub is_empty-nil : (xs : List String) → not (is_empty xs) ≡ false → xs ≡ []
is_empty-nil [] h = refl
is_empty-nil (x ∷ xs) h = cc

known_of_nil :
    (o : Offered) (k : String) (required : List String)
    → unknown_names o required ≡ []
    → contains k required ≡ true
    → contains k (known_keys o) ≡ true
unfolding unknown_names
known_of_nil o k required h m =
    let unknown = keep-nil-contains (λ name. not (contains name (known_keys o))) k required h m in
    ground arith

other_offers :
    (o : Offered) (label : Label) (k : String) (required : List String)
    → k ≢ "data"
    → k ≢ "serializer"
    → k ≢ "instance"
    → k ≢ "result"
    → (if o.permissive_extras || is_some o.spec_kwargs
        then ok tt
        else refuse_if
            (not (is_empty (unknown_names o required)))
            (unknown_required label (unknown_names o required)))
      ≡ ok tt
    → contains k required ≡ true
    → offers o k ≡ true
other_offers o label k required a b c d h m =
    elim (Bool-cases (o.permissive_extras || is_some o.spec_kwargs)) [
      | inl e ↦
          unfold offers in
          ground
            (arith, eq_iff k "data", eq_iff k "serializer", eq_iff k "instance", eq_iff k "result")
      | inr e ↦
          let none_unknown = is_empty-nil (unknown_names o required) (ground arith) in
          known-offers o k a b c d (known_of_nil o k required none_unknown m)
    ]

validate_required_sound :
    (label : Label) (o : Offered) (required : List String)
    → validate_required label o required ≡ ok tt
    → (k : String) → contains k required ≡ true
    → offers o k ≡ true
unfolding validate_required
validate_required_sound label o required h k m =
    let (h1, r1) = >>-eq-ok (refuse_if (contains "data" required && not o.has_data) _) _ h in
    let (h2, r2) = >>-eq-ok (refuse_if (contains "serializer" required && not o.has_data) _) _ r1 in
    let (h3, r3) =
      >>-eq-ok (refuse_if (contains "instance" required && not o.has_instance) _) _ r2 in
    let (h4, r4) = >>-eq-ok (refuse_if (contains "result" required && not o.has_result) _) _ r3 in
    elim (Bool-cases (k == "data")) [
      | inl e ↦
          let same = (eq_iff k "data").0 e in
          rw same (has_data_of o ∙ own_key _ _ (refuse_if-eq-ok _ _ h1) (rw same at m))
      | inr a ↦ elim (Bool-cases (k == "serializer")) [
        | inl e ↦
            let same = (eq_iff k "serializer").0 e in
            rw same (has_serializer_of o ∙ own_key _ _ (refuse_if-eq-ok _ _ h2) (rw same at m))
        | inr b ↦ elim (Bool-cases (k == "instance")) [
          | inl e ↦
              let same = (eq_iff k "instance").0 e in
              rw same (has_instance_of o ∙ own_key _ _ (refuse_if-eq-ok _ _ h3) (rw same at m))
          | inr c ↦ elim (Bool-cases (k == "result")) [
            | inl e ↦
                let same = (eq_iff k "result").0 e in
                rw same (has_result_of o ∙ own_key _ _ (refuse_if-eq-ok _ _ h4) (rw same at m))
            | inr d ↦
                other_offers o label k required (ne_of_eq_false k _ a) (ne_of_eq_false k _ b)
                  (ne_of_eq_false k _ c) (ne_of_eq_false k _ d) r4 m
          ]
        ]
      ]
    ]

not_own : (b c : Bool) → (b ≡ true → c ≡ true) → (b && not c) ≡ false
not_own true c h = rw (h refl)
not_own false c h = refl

validate_required_complete :
    (label : Label) (o : Offered) (required : List String)
    → ((k : String) → contains k required ≡ true → offers o k ≡ true)
    → validate_required label o required ≡ ok tt
unfolding validate_required
validate_required_complete label o required h =
    rw
      (
        not_own _ _ (λ m. sym (has_data_of o) ∙ h "data" m),
        not_own _ _ (λ m. sym (has_serializer_of o) ∙ h "serializer" m),
        not_own _ _ (λ m. sym (has_instance_of o) ∙ h "instance" m),
        not_own _ _ (λ m. sym (has_result_of o) ∙ h "result" m),
      )
      (elim (Bool-cases (o.permissive_extras || is_some o.spec_kwargs)) [
        | inl e ↦ rw e
        | inr e ↦
            let none_unknown : unknown_names o required ≡ [] =
              unfold unknown_names in
              keep-eq-nil _ required (λ k m. rw (offers-known o k e (h k m))) in
            rw (e, none_unknown)
      ])

offered_of :
    (fn : Callable) (o : Offered)
    → accepts_var_keyword fn ≡ false
    → (accepts_var_keyword fn ≡ true) ⊎ IsOffered o fn
    → IsOffered o fn
offered_of fn o e (inl e') = absurd (ground arith)
offered_of fn o e (inr s) = s

-- A callable passes exactly where it takes `**kwargs` or each keyword parameter without a default
-- is one that the framework hands over.
pub validate_callable_signature_iff :
    (fn : Callable) (label : Label) (o : Offered)
    → (validate_callable_signature fn label o ≡ ok tt)
      ↔ ((accepts_var_keyword fn ≡ true) ⊎ IsOffered o fn)
unfolding validate_callable_signature
validate_callable_signature_iff fn label o = elim (Bool-cases (accepts_var_keyword fn)) [
  | inl e ↦ (λ _. inl e, λ _. rw e)
  | inr e ↦ (
    λ h. inr (validate_required_sound label o (required_kw_params fn) (rw e at h)),
    λ s. rw e (validate_required_complete label o (required_kw_params fn) (offered_of fn o e s)),
  )
]

contains-names_of_keep :
    (k : String) (ps : List Parameter)
    → contains k (names (keep (λ p. by_keyword p.kind && not p.has_default) ps)) ≡ true
    → contains k (names (keep (λ p. by_keyword p.kind) ps)) ≡ true
unfolding contains keep
contains-names_of_keep k [] h = h
contains-names_of_keep k (p ∷ ps) h = ground (arith, contains-names_of_keep k ps)

pub required-declared :
    (fn : Callable) (k : String)
    → contains k (required_kw_params fn) ≡ true
    → contains k (declared_names fn) ≡ true
unfolding required_kw_params declared_names
required-declared fn k h = contains-names_of_keep k fn.parameters h

-- A callable without `**kwargs` that passed the validator is bound completely at dispatch: from any
-- pool that holds the offered names, each of its required keyword parameters receives its value
-- in that pool.
pub validated_binds {ℓ} :
    {V : Type ℓ} (fn : Callable) (label : Label) (o : Offered) (pool : Dict V) (k : String)
    → validate_callable_signature fn label o ≡ ok tt
    → accepts_var_keyword fn ≡ false
    → ((j : String) → offers o j ≡ true → has j pool ≡ true)
    → contains k (required_kw_params fn) ≡ true
    → (has k (resolve_callable_kwargs fn pool) ≡ true)
      × (get k (resolve_callable_kwargs fn pool) ≡ get k pool)
validated_binds fn label o pool k h closed supplied m =
    let offered = offered_of fn o closed ((validate_callable_signature_iff fn label o).0 h) in
    let there = supplied k (offered k m) in
    let bound = get-resolve_callable_kwargs fn pool k in
    let name = required-declared fn k m in (ground arith, ground arith)
