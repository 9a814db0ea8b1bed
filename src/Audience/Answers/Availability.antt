-- ===== src/Audience/Answers/Availability.antt =====
-- What a client reads off the answers of the affordances.
use djangorestframework_serv.Prelude.{
  String, Dict, Option, Bool-cases, ap, ◌≡◌, refl, sym, subst, ◌∙◌, ◌↔◌, ◌⊎◌, inl, inr, true, false,
  none, some, List, [], ◌∷◌, get, has, if◌then◌else◌, ok, err, refuse_if, ◌==◌, >>=-eq-ok, >>-eq-ok,
  ok-injective, refuse_if-eq-ok, arith, eq_iff, Option-cases,
}
use djangorestframework_serv.Values.{
  Value, null, dict, bool, str, end, entry, is_null, Entries, named_entries, get-put_entry,
}
use djangorestframework_serv.Config.{Config, ConfigError, no_affordance_answer}
use djangorestframework_serv.Specs.{Affordance}
use djangorestframework_serv.Construction.{affordance_alias}
use djangorestframework_serv.Audience.Answers.{
  affordances_key, Declared, Row, truthy, Answer, available, unknown, refused, flag, answer_step,
  answer, answer_entries, answers, with_answers, answer_value,
}

-- The row's annotation for an affordance is there and true.
abbrev pub IsMet : Row → String → Affordance → Type 0
IsMet row name a =
    (v : Value) × (get (affordance_alias name a.code) row ≡ some v) × (truthy v ≡ true)

abbrev pub AreMet : Row → String → List Affordance → Type 0
AreMet row name [] = Unit
AreMet row name (a ∷ as') = IsMet row name a × AreMet row name as'

-- The affordances before are met, and the first other one is answered, and answered by no.
pub data FirstUnmet (row : Row) (name : String)
    : List Affordance → (code reason : String) → Type 0 where
  here :
      {as' : List Affordance} (a : Affordance) (v : Value)
      → get (affordance_alias name a.code) row ≡ some v
      → is_null v ≡ false
      → truthy v ≡ false
      → FirstUnmet row name (a ∷ as') a.code a.reason
  later :
      {as' : List Affordance} {code reason : String} (a : Affordance)
      → IsMet row name a
      → FirstUnmet row name as' code reason
      → FirstUnmet row name (a ∷ as') code reason

null_of_truthy : (v : Value) → truthy v ≡ true → is_null v ≡ false
unfolding truthy
null_of_truthy null h = cc
null_of_truthy v h = refl

-- One step of the loop, where the row has the annotation.
answer-cons :
    (row : Row) (name : String) (a : Affordance) (as' : List Affordance) (v : Value)
    → get (affordance_alias name a.code) row ≡ some v
    → answer row name (a ∷ as') ≡ answer_step a v (answer row name as')
unfolding answer
answer-cons row name a as' v e = rw (e, flag)

answer-cons_missing :
    (row : Row) (name : String) (a : Affordance) (as' : List Affordance)
    → get (affordance_alias name a.code) row ≡ none
    → answer row name (a ∷ as') ≡ err no_affordance_answer
unfolding answer
answer-cons_missing row name a as' e = rw (e, flag)

met-cons :
    (row : Row) (name : String) (a : Affordance) (as' : List Affordance)
    → IsMet row name a
    → answer row name (a ∷ as') ≡ answer row name as'
met-cons row name a as' (v, e, t) = answer-cons row name a as' v e ∙ rw (null_of_truthy v t, t)

-- An operation is available for a row exactly where each of its affordances is met.
pub answer_available_iff :
    (row : Row) (name : String) (as' : List Affordance)
    → (answer row name as' ≡ ok available) ↔ AreMet row name as'
answer_available_iff row name [] = (λ h. tt, λ h. unfold answer in refl)
answer_available_iff row name (a ∷ as') =
    let (to, from) = answer_available_iff row name as' in
    (
      λ h. elim (Option-cases (get (affordance_alias name a.code) row)) [
        | inl e ↦ absurd (err_ok (sym (answer-cons_missing row name a as' e) ∙ h))
        | inr (v, e) ↦
            let (t, rest) =
              step_available a v (answer row name as') (sym (answer-cons row name a as' v e) ∙ h) in
            ((v, e, t), to rest)
      ],
      λ (met, rest). met-cons row name a as' met ∙ from rest,
    )
  where
    err_ok : {e : ConfigError} {r : Answer} → ◌≡◌ {A = Config Answer} (err e) (ok r) → ⊥
    err_ok p = cc

    step_available :
        (a : Affordance) (v : Value) (rest : Config Answer)
        → answer_step a v rest ≡ ok available
        → (truthy v ≡ true) × (rest ≡ ok available)
    step_available a v rest h = ground arith

err-ne-ok : {r : Answer} {e : ConfigError} → ◌≡◌ {A = Config Answer} (err e) (ok r) → ⊥
err-ne-ok p = cc

step_refused :
    (a : Affordance) (v : Value) (rest : Config Answer) (code reason : String)
    → answer_step a v rest ≡ ok (refused code reason)
    → ((truthy v ≡ true) × (rest ≡ ok (refused code reason)))
      ⊎ ((is_null v ≡ false) × ((truthy v ≡ false) × ((a.code ≡ code) × (a.reason ≡ reason))))
step_refused a v rest code reason h = ground arith

FirstUnmet-of_refused :
    (row : Row) (name : String) (as' : List Affordance) (code reason : String)
    → answer row name as' ≡ ok (refused code reason)
    → FirstUnmet row name as' code reason
FirstUnmet-of_refused row name [] code reason h = absurd (unfold answer in cc)
FirstUnmet-of_refused row name (a ∷ as') code reason h =
    let ih = FirstUnmet-of_refused row name as' code reason in
    elim (Option-cases (get (affordance_alias name a.code) row)) [
      | inl e ↦ absurd (err-ne-ok (sym (answer-cons_missing row name a as' e) ∙ h))
      | inr (v, e) ↦
          elim (step_refused a v _ code reason (sym (answer-cons row name a as' v e) ∙ h)) [
            | inl (t, rest) ↦ later a (v, e, t) (ih rest)
            | inr (n, (f, (same_code, same_reason))) ↦
                subst (λ r. FirstUnmet row name (a ∷ as') code r) same_reason
                  (subst (λ c. FirstUnmet row name (a ∷ as') c a.reason) same_code (here a v e n f))
          ]
    ]

refused_of_FirstUnmet :
    (row : Row) (name : String) {as' : List Affordance} {code reason : String}
    → FirstUnmet row name as' code reason
    → answer row name as' ≡ ok (refused code reason)
refused_of_FirstUnmet row name (here {as' = rest} a v e n f) =
    answer-cons row name a rest v e ∙ rw (n, f)
refused_of_FirstUnmet row name (later {as' = rest} a met u) =
    met-cons row name a rest met ∙ refused_of_FirstUnmet row name u

-- An operation is refused for a row with the code and the reason of the first affordance that is
-- not met, and only so, where the row answers that one by a value that is not None.
pub answer_refused_iff :
    (row : Row) (name : String) (as' : List Affordance) (code reason : String)
    → (answer row name as' ≡ ok (refused code reason)) ↔ FirstUnmet row name as' code reason
answer_refused_iff row name as' code reason =
    (FirstUnmet-of_refused row name as' code reason, λ u. refused_of_FirstUnmet row name u)

dict-injective : {a b : Entries} → ◌≡◌ {A = Value} (dict a) (dict b) → a ≡ b
dict-injective h = cc

-- What a client reads of one answer.
abbrev pub ReadsAs : Answer → Option Value → Type 0
ReadsAs available shown = shown ≡ some (dict (entry "available" (bool true) end))
ReadsAs unknown shown = shown ≡ some (dict (entry "available" (bool false) end))
ReadsAs (refused code reason) shown =
    shown
    ≡ some (
        dict (
          entry "available" (bool false)
            (entry "code" (str code) (entry "reason" (str reason) end))))

-- What stands under the name of an operation: its answer for the row, where the name is declared,
-- and nothing where it is not.
abbrev pub IsAnswered : Row → String → Option (List Affordance) → Option Value → Type 0
IsAnswered row name none shown = shown ≡ none
IsAnswered row name (some as') shown = (a : Answer) × (answer row name as' ≡ ok a) × ReadsAs a shown

reads_itself : (a : Answer) → ReadsAs a (some (answer_value a))
reads_itself available = refl
reads_itself unknown = refl
reads_itself (refused code reason) = refl

answers_lem :
    (row : Row) (affordances : Declared) (found : Dict Answer) (name : String)
    → answers row affordances ≡ ok found
    → IsAnswered row name (get name affordances) (get name (named_entries (answer_entries found)))
unfolding answers get
answers_lem row [] found name h =
    subst (λ d. get name (named_entries (answer_entries d)) ≡ none) (ok-injective h) refl
answers_lem row ((j, as') ∷ affordances) found name h =
    let (a, read, more) = >>=-eq-ok (answer row j as') _ h in
    let (rest, others, made) = >>=-eq-ok (answers row affordances) _ more in
    let ih = answers_lem row affordances rest name others in
    subst
      (λ d.
        IsAnswered row name (if j == name then some as' else get name affordances)
          (get name (named_entries (answer_entries d))))
      (ok-injective made)
      (elim (Bool-cases (j == name)) [
        | inl e ↦
            rw (e)
              (a, ap (λ n. answer row n as') (sym ((eq_iff j name).0 e)) ∙ read, reads_itself a)
        | inr e ↦ rw (e) ih
      ])

-- A rendered object that has no key `affordances` yet gains it, and every other key stays as it was.
-- The value gained is an object with one entry for each declared operation, its answer for the row:
-- `available` true, or false alone where the answer is unknown, or false with the code and
-- the reason of the refusal. It has no entry under a name that is not declared.
pub with_answers_keeps :
    (item item' : Entries) (row : Row) (affordances : Declared) (k name : String)
    → with_answers (dict item) row affordances ≡ ok (dict item')
    → (has affordances_key (named_entries item) ≡ false)
      × ((found : Entries) × (get k (named_entries item')
            ≡ (if affordances_key == k then some (dict found) else get k (named_entries item)))
          × IsAnswered row name (get name affordances) (get name (named_entries found)))
unfolding with_answers
with_answers_keeps item item' row affordances k name h =
    let (free, h1) = >>-eq-ok (refuse_if (has affordances_key (named_entries item)) _) _ h in
    let (found, answered, made) = >>=-eq-ok (answers row affordances) _ h1 in
    (
      refuse_if-eq-ok _ _ free,
      (
        answer_entries found,
        ap (λ es. get k (named_entries es)) (sym (dict-injective (ok-injective made)))
            ∙ get-put_entry affordances_key k (dict (answer_entries found)) item,
        answers_lem row affordances found name answered,
      ),
    )
