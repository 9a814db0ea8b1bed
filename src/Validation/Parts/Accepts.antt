-- ===== src/Validation/Parts/Accepts.antt =====
-- When each field of a spec passes its validator.
use mathlib.Core.Bool.{false≢true}
use djangorestframework_serv.Prelude.{
  keep-nil-contains, keep-eq-nil, ℕ, ◌+◌, String, ◌≡◌, refl, ◌↔◌, ◌⊎◌, inl, inr, Bool, true, false,
  ◌&&◌, not, Option, none, some, List, [], ◌∷◌, contains, is_some, ok, refuse_if, arith, All,
  >>-iff, refuse_if_iff, Bool-cases, or_else,
}
use djangorestframework_serv.Config.{
  Label, field, item, shaping_without_selector, row_affordance_without_row, success_status_unknown,
  response_finalizer_unknown,
}
use djangorestframework_serv.Callables.{Callable, required_kw_params, accepts_var_keyword}
use djangorestframework_serv.Specs.{
  Affordance, is_row_condition, declared, AffordanceSequence, PermissionEntry, permission_class,
  InputSerializer, other_input, PreconditionEntry, precondition, not_callable, Preconditions,
  preconditions, SuccessStatus, status_code, status_callable, other_status, Finalizer,
  finalizer_callable, other_finalizer, SelectorSpec,
}
use djangorestframework_serv.Validation.Signature.{Offered, validate_callable_signature, IsOffered}
use djangorestframework_serv.Validation.Signature.Offers.{
  validate_callable_signature_iff, is_empty-nil,
}
use djangorestframework_serv.Validation.Parts.{
  has_any_shaping, validate_selector_shaping, validate_permission_entries,
  validate_permission_classes, validate_input_serializer, validate_precondition_entries,
  validate_preconditions, validate_row_conditions, validate_row_affordances, success_status_keys,
  response_finalizer_keys, needs_beyond, validate_success_status, validate_response_finalizer,
}

-- A callable that dispatch can call: it takes `**kwargs`, or asks for nothing that is not offered.
abbrev pub IsCallable : Offered → Callable → Type 0
IsCallable o fn = (accepts_var_keyword fn ≡ true) ⊎ IsOffered o fn

abbrev pub IsPermission : PermissionEntry → Type 0
IsPermission (permission_class name) = Unit
IsPermission _ = ⊥

abbrev pub ArePermissions : Option (List PermissionEntry) → Type 0
ArePermissions classes = All IsPermission (or_else classes [])

validate_permission_entries_iff :
    (entries : List PermissionEntry) (label : Label)
    → (validate_permission_entries entries label ≡ ok tt) ↔ All IsPermission entries
unfolding validate_permission_entries
validate_permission_entries_iff [] label = (λ h. tt, λ h. refl)
validate_permission_entries_iff (permission_class name ∷ rest) label =
    let ih = validate_permission_entries_iff rest label in (λ h. (tt, ih.0 h), λ h. ih.1 h.1)
validate_permission_entries_iff (entry ∷ rest) label = (λ h. cc, λ h. absurd h.0)

pub permission_classes_iff :
    (classes : Option (List PermissionEntry)) (label : Label)
    → (validate_permission_classes classes label ≡ ok tt) ↔ ArePermissions classes
unfolding validate_permission_classes
permission_classes_iff none label = (λ h. tt, λ h. refl)
permission_classes_iff (some entries) label = validate_permission_entries_iff entries label

-- A selector is set wherever the queryset is shaped.
abbrev pub ShapesASelector : SelectorSpec → Type 0
ShapesASelector spec = has_any_shaping spec ≡ true → is_some spec.selector ≡ true

pub selector_shaping_iff :
    (spec : SelectorSpec) (label : Label)
    → (validate_selector_shaping spec label ≡ ok tt) ↔ ShapesASelector spec
unfolding validate_selector_shaping
selector_shaping_iff spec label =
    let (to, from) =
      refuse_if_iff (not (is_some spec.selector) && has_any_shaping spec)
        (shaping_without_selector label) in
    (λ h shaped. shaping_set _ _ (to h) shaped, λ h. from (shaping_clear _ _ h))
  where
    shaping_set : (b c : Bool) → (not b && c) ≡ false → c ≡ true → b ≡ true
    shaping_set b c h shaped = ground arith

    shaping_clear : (b c : Bool) → (c ≡ true → b ≡ true) → (not b && c) ≡ false
    shaping_clear true c h = refl
    shaping_clear false true h = absurd (false≢true (h refl))
    shaping_clear false false h = refl

abbrev pub IsInput : Option InputSerializer → Type 0
IsInput (some (other_input value)) = ⊥
IsInput _ = Unit

pub input_serializer_iff :
    (input : Option InputSerializer) (label : Label)
    → (validate_input_serializer input label ≡ ok tt) ↔ IsInput input
unfolding validate_input_serializer
input_serializer_iff none label = (λ h. tt, λ h. refl)
input_serializer_iff (some (other_input value)) label = (λ h. cc, λ h. absurd h)
input_serializer_iff (some _) label = (λ h. tt, λ h. refl)

abbrev pub IsPrecondition : Offered → PreconditionEntry → Type 0
IsPrecondition o (precondition fn) = IsCallable o fn
IsPrecondition o (not_callable t) = ⊥

-- A sequence of callables, each of which dispatch can call without a result.
abbrev pub ArePreconditions : Offered → Option Preconditions → Type 0
ArePreconditions o none = Unit
ArePreconditions o (some (preconditions entries)) =
    All (IsPrecondition (record o { has_result = false })) entries
ArePreconditions o (some _) = ⊥

validate_precondition_entries_iff :
    (i : ℕ) (entries : List PreconditionEntry) (label : Label) (o : Offered)
    → (validate_precondition_entries i entries label o ≡ ok tt) ↔ All (IsPrecondition o) entries
unfolding validate_precondition_entries
validate_precondition_entries_iff i [] label o = (λ h. tt, λ h. refl)
validate_precondition_entries_iff i (not_callable t ∷ rest) label o = (λ h. cc, λ h. absurd h.0)
validate_precondition_entries_iff i (precondition fn ∷ rest) label o =
    let here = validate_callable_signature_iff fn (item (field label "preconditions") i) o in
    let ih = validate_precondition_entries_iff (i + 1) rest label o in
    let both =
      >>-iff (validate_callable_signature fn _ o)
        (validate_precondition_entries (i + 1) rest label o) in
    (λ h. (here.0 (both.0 h).0, ih.0 (both.0 h).1), λ h. both.1 (here.1 h.0, ih.1 h.1))

pub preconditions_iff :
    (ps : Option Preconditions) (label : Label) (o : Offered)
    → (validate_preconditions ps label o ≡ ok tt) ↔ ArePreconditions o ps
unfolding validate_preconditions
preconditions_iff none label o = (λ h. tt, λ h. refl)
preconditions_iff (some (preconditions entries)) label o =
    validate_precondition_entries_iff 0 entries label (record o { has_result = false })
preconditions_iff (some _) label o = (λ h. cc, λ h. absurd h)

-- A condition on the row stands only where the action targets a row.
abbrev pub HaveARow : Bool → Option AffordanceSequence → Type 0
HaveARow has_instance affordances =
    (has_instance ≡ true) ⊎ All (λ a. is_row_condition a.when ≡ false) (declared affordances)

row_conditions_iff :
    (i : ℕ) (as' : List Affordance) (label : Label)
    → (validate_row_conditions i as' label ≡ ok tt) ↔ All (λ a. is_row_condition a.when ≡ false) as'
unfolding validate_row_conditions
row_conditions_iff i [] label = (λ h. tt, λ h. refl)
row_conditions_iff i (a ∷ rest) label =
    let here = refuse_if_iff (is_row_condition a.when) (row_affordance_without_row label i) in
    let ih = row_conditions_iff (i + 1) rest label in
    let both =
      >>-iff (refuse_if (is_row_condition a.when) _) (validate_row_conditions (i + 1) rest label) in
    (λ h. (here.0 (both.0 h).0, ih.0 (both.0 h).1), λ h. both.1 (here.1 h.0, ih.1 h.1))

pub row_affordances_iff :
    (affordances : Option AffordanceSequence) (label : Label) (has_instance : Bool)
    → (validate_row_affordances affordances label has_instance ≡ ok tt)
      ↔ HaveARow has_instance affordances
unfolding validate_row_affordances
row_affordances_iff affordances label true = (λ h. inl refl, λ h. refl)
row_affordances_iff affordances label false =
    let all = row_conditions_iff 0 (declared affordances) label in
    (λ h. inr (all.0 h), λ h. all.1 (elim h [ inl e ↦ absurd (false≢true e) | inr c ↦ c ]))

-- A hook that needs no required parameter beyond `allowed`, or takes `**kwargs`.
abbrev pub NeedsOnly : List String → Callable → Type 0
NeedsOnly allowed fn =
    (accepts_var_keyword fn ≡ true)
    ⊎ ((k : String) → contains k (required_kw_params fn) ≡ true → contains k allowed ≡ true)

needs_beyond_iff :
    (allowed : List String) (fn : Callable)
    → (needs_beyond allowed fn ≡ false) ↔ NeedsOnly allowed fn
unfolding needs_beyond
needs_beyond_iff allowed fn = elim (Bool-cases (accepts_var_keyword fn)) [
  | inl e ↦ (λ h. inl e, λ h. rw e)
  | inr e ↦ (
    λ h. inr λ k m. not_false _ (keep-nil-contains _ k _ (is_empty-nil _ (rw e at h)) m),
    λ h. rw (e, keep-eq-nil _ (required_kw_params fn) (λ k m. not_true _ (only e h k m))),
  )
]
  where
    not_false : (b : Bool) → not b ≡ false → b ≡ true
    not_false b h = ground arith

    not_true : (b : Bool) → b ≡ true → not b ≡ false
    not_true b h = ground arith

    only :
        accepts_var_keyword fn ≡ false
        → NeedsOnly allowed fn
        → (k : String) → contains k (required_kw_params fn) ≡ true
        → contains k allowed ≡ true
    only e (inl e') = absurd (ground arith)
    only e (inr h) = h

-- An integer, or a callable over the arguments that the response is built from.
abbrev pub IsStatus : Option SuccessStatus → Type 0
IsStatus none = Unit
IsStatus (some (status_code n)) = Unit
IsStatus (some (status_callable fn)) = NeedsOnly success_status_keys fn
IsStatus (some (other_status t)) = ⊥

pub success_status_iff :
    (status : Option SuccessStatus) (label : Label)
    → (validate_success_status status label ≡ ok tt) ↔ IsStatus status
unfolding validate_success_status
success_status_iff none label = (λ h. tt, λ h. refl)
success_status_iff (some (status_code n)) label = (λ h. tt, λ h. refl)
success_status_iff (some (other_status t)) label = (λ h. cc, λ h. absurd h)
success_status_iff (some (status_callable fn)) label =
    let (to, from) =
      refuse_if_iff (needs_beyond success_status_keys fn) (success_status_unknown label) in
    let (only, back) = needs_beyond_iff success_status_keys fn in
    (λ h. only (to h), λ h. from (back h))

abbrev pub IsFinalizer : Option Finalizer → Type 0
IsFinalizer none = Unit
IsFinalizer (some (finalizer_callable fn)) = NeedsOnly response_finalizer_keys fn
IsFinalizer (some (other_finalizer t)) = ⊥

pub response_finalizer_iff :
    (finalizer : Option Finalizer) (label : Label)
    → (validate_response_finalizer finalizer label ≡ ok tt) ↔ IsFinalizer finalizer
unfolding validate_response_finalizer
response_finalizer_iff none label = (λ h. tt, λ h. refl)
response_finalizer_iff (some (other_finalizer t)) label = (λ h. cc, λ h. absurd h)
response_finalizer_iff (some (finalizer_callable fn)) label =
    let (to, from) =
      refuse_if_iff (needs_beyond response_finalizer_keys fn) (response_finalizer_unknown label) in
    let (only, back) = needs_beyond_iff response_finalizer_keys fn in
    (λ h. only (to h), λ h. from (back h))
