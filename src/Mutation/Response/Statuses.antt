-- ===== src/Mutation/Response/Statuses.antt =====
-- The statuses and bodies of a mutation's responses, and the source of its target.
use djangorestframework_serv.Prelude.{
  ℕ, String, ◌⊎◌, inl, inr, err, ◌≡◌, refl, subst, ◌≢◌, Bool, false, ◌&&◌, not, Option, none, some,
  if◌then◌else◌, is_some, ok, arith, nat_eq, >>=-eq-ok, ok-injective,
}
use djangorestframework_serv.Values.{Value, null, is_null}
use djangorestframework_serv.Config.{Config}
use djangorestframework_serv.Audience.Answers.{rendered_affordances, add_affordances}
use djangorestframework_serv.Specs.{ServiceSpec, SelectorSpec}
use djangorestframework_serv.Mutation.Errors.{Response}
use djangorestframework_serv.Mutation.Response.{
  status_for_a_body, ProjectCode, built_response, selector_ran, output_serializer,
  rendered_response, empty_response, of_config, body_response, set_serializer,
}

status_for_a_body_ne : (status : ℕ) → status_for_a_body status ≢ 204
unfolding status_for_a_body
status_for_a_body_ne status h = ground arith

-- The body that presents a value: the value itself where no output serializer is set, and else what
-- the serializer renders of it, with the answers of the affordances added for the row of the value.
abbrev pub IsRendered :
    ProjectCode → ServiceSpec → (serializer : Option String) → (shown body : Value) → Type 0
IsRendered code spec none shown body = body ≡ shown
IsRendered code spec (some serializer) shown body =
    add_affordances (rendered_affordances spec) (code.render serializer shown)
      (some (code.row_of shown))
    ≡ ok body

abbrev pub IsBody : ProjectCode → ServiceSpec → Option SelectorSpec → (shown body : Value) → Type 0
IsBody code spec none shown body = body ≡ shown
IsBody code spec (some nested) shown body = IsRendered code spec nested.output_serializer shown body

-- No value is presented: there is no body, and the status is 204, unless no output selector ran and
-- the spec sets a status, which is then kept.
abbrev pub IsEmpty : ServiceSpec → (shown : Value) → (resolved : ℕ) → Response → Type 0
IsEmpty spec shown resolved r =
    (shown ≡ null)
    × (r.body ≡ none)
    × (r.status
        ≡ (if not (selector_ran spec) && is_some spec.success_status then resolved else 204))

-- A value is presented: the body is what presents it, and leaves under the resolved status, but
-- under 200 where that is 204.
abbrev pub IsPresented :
    ProjectCode → ServiceSpec → (shown : Value) → (resolved : ℕ) → Response → Type 0
IsPresented code spec shown resolved r =
    (is_null shown ≡ false)
    × ((body : Value) × IsBody code spec spec.output_selector_spec shown body
        × (r.body ≡ some body))
    × (r.status ≡ (if nat_eq resolved 204 then 200 else resolved))
    × (r.status ≢ 204)

body_response-IsPresented :
    (code : ProjectCode) (spec : ServiceSpec) (shown body : Value) (resolved : ℕ) (r : Response)
    → is_null shown ≡ false
    → IsRendered code spec (output_serializer spec) shown body
    → body_response resolved body ≡ r
    → IsPresented code spec shown resolved r
unfolding status_for_a_body
body_response-IsPresented code spec shown body resolved r there is_body made =
    subst (IsPresented code spec shown resolved) made (
      there,
      (body, of_serializer spec.output_selector_spec is_body, refl),
      refl,
      status_for_a_body_ne resolved,
    )
  where
    of_serializer :
        (o : Option SelectorSpec)
        → IsRendered code spec (set_serializer o) shown body
        → IsBody code spec o shown body
    of_serializer none h = h
    of_serializer (some nested) h = h

rendered_response-IsPresented :
    (code : ProjectCode) (spec : ServiceSpec) (shown : Value) (resolved : ℕ) (r : Response)
    → is_null shown ≡ false
    → rendered_response code spec shown resolved (output_serializer spec) ≡ ok r
    → IsPresented code spec shown resolved r
rendered_response-IsPresented code spec shown resolved r there h =
    let (body, is_body, made) = go (output_serializer spec) h in
    body_response-IsPresented code spec shown body resolved r there is_body made
  where
    of_config-eq-ok : (o : Config Value) (v : Value) → of_config o ≡ ok v → o ≡ ok v
    of_config-eq-ok (ok w) v e = cc
    of_config-eq-ok (err e') v e = cc

    go :
        (o : Option String)
        → rendered_response code spec shown resolved o ≡ ok r
        → (body : Value) × IsRendered code spec o shown body × (body_response resolved body ≡ r)
    go none made = (shown, refl, ok-injective made)
    go (some serializer) made =
        let added =
          add_affordances (rendered_affordances spec) (code.render serializer shown)
            (some (code.row_of shown)) in
        let (body, found, built) =
          >>=-eq-ok {A = Value} (of_config added) (λ body. ok (body_response resolved body)) made in
        (body, of_config-eq-ok added body found, ok-injective built)

empty_response-IsEmpty :
    (spec : ServiceSpec) (resolved : ℕ) (r : Response)
    → empty_response spec resolved ≡ r
    → IsEmpty spec null resolved r
empty_response-IsEmpty spec resolved r made =
    subst (IsEmpty spec null resolved) made
      (refl, refl, empty_status_lem (selector_ran spec) (is_some spec.success_status) resolved)
  where
    empty_status_lem :
        (ran set : Bool) (n : ℕ)
        → (if ran then 204 else if set then n else 204) ≡ (if not ran && set then n else 204)
    empty_status_lem ran set n = ground arith

-- A response that is built either presents a value or is empty. It is empty exactly where the value
-- is None: then it has no body, and the status is 204, unless no output selector ran and the spec
-- sets a status, which is then kept. Else its body is the value itself, or, under an output
-- serializer, what that renders of the value with the answers of the affordances for its row; and
-- the status is the resolved one, with 200 in place of 204.
pub built_response_lem :
    (code : ProjectCode) (spec : ServiceSpec) (shown : Value) (resolved : ℕ) (r : Response)
    → built_response code spec shown resolved ≡ ok r
    → IsEmpty spec shown resolved r ⊎ IsPresented code spec shown resolved r
unfolding built_response
built_response_lem code spec null resolved r h =
    inl (empty_response-IsEmpty spec resolved r (ok-injective h))
built_response_lem code spec shown resolved r h =
    inr (rendered_response-IsPresented code spec shown resolved r refl h)
