-- ===== src/Mutation/Errors.antt =====
-- The HTTP exceptions that a service's errors become (views/mutation/map_service_error.py), and the
-- body of a request for more input (`restore_raised_schema` of views/mutation/utils.py).
use djangorestframework_serv.Prelude.{
  ℕ, String, true, Option-cases, inr, ◌≡◌, ap, refl, ◌⊎◌, inl, inr, is_some, ◌≢◌, Option, none,
  some, Dict, get, has, if◌then◌else◌, ◌==◌,
}
use djangorestframework_serv.Values.{
  Value, str, dict, end, entry, named_entries, put_entry, put_entries, get-put_entry,
}

-- The service errors, each by the most derived class that the mapping tells apart.
-- `action_unavailable` is a conflict with the affordance's code; every other subclass of
-- `ServiceError` is `service_error`.
pub data ServiceError : Type 0 where
  validation_error : Value → ServiceError
  not_found : String → ServiceError
  action_unavailable : (message code : String) → ServiceError
  conflict : String → ServiceError
  additional_input : (message : String) → Option (Dict Value) → ServiceError
  service_error : String → ServiceError

pub data ApiException : Type 0 where
  invalid : Value → ApiException
  missing : String → ApiException
  conflicting : Value → ApiException
  unprocessable : Value → ApiException
  needs_input : (message : String) → (schema : Dict Value) → ApiException

abbrev pub schema_value : Dict Value → Value
schema_value schema = dict (put_entries end schema)

unfoldable pub map_service_error : ServiceError → ApiException
map_service_error (validation_error detail) = invalid detail
map_service_error (not_found message) = missing message
map_service_error (action_unavailable message code) =
    conflicting (dict (entry "detail" (str message) (entry "code" (str code) end)))
map_service_error (conflict message) = conflicting (str message)
map_service_error (additional_input message (some schema)) = needs_input message schema
map_service_error (additional_input message none) = unprocessable (str message)
map_service_error (service_error message) = unprocessable (str message)

-- `status_code` of the exception classes
unfoldable pub status_code : ApiException → ℕ
status_code (invalid detail) = 400
status_code (missing message) = 404
status_code (conflicting detail) = 409
status_code (unprocessable detail) = 422
status_code (needs_input message schema) = 422

-- `detail` of `_AdditionalInputAPIException`, as it is passed to `APIException`
unfoldable pub input_detail : String → Dict Value → Value
unfolding put_entries put_entry
input_detail message schema =
    dict (entry "detail" (str message) (entry "schema" (schema_value schema) end))

-- A response of DRF's exception handler: its status, and its data where it has any.
pub record Response : Type 0 where
  pub status : ℕ
  pub body : Option Value

abbrev raised_schema : ApiException → Option (Dict Value)
raised_schema (needs_input message schema) = some schema
raised_schema _ = none

abbrev restored : Option (Dict Value) → Option Value → Option Value
restored (some schema) (some (dict es)) =
    if has "schema" (named_entries es)
    then some (dict (put_entry "schema" (schema_value schema) es))
    else some (dict es)
restored _ body = body

-- The handler turns every leaf of `detail` into text; the schema is put back as it was raised.
unfoldable pub restore_raised_schema : ApiException → Response → Response
unfolding get put_entry
restore_raised_schema exc response = record response {
  body = restored (raised_schema exc) response.body;
}

-- The schema of an error that asks for more input, as a value.
abbrev pub raised_under : ServiceError → Option Value
raised_under (additional_input message (some schema)) = some (schema_value schema)
raised_under _ = none

-- The value under a key of a body that is an object.
abbrev pub value_under : String → Option Value → Option Value
value_under k (some (dict es)) = get k (named_entries es)
value_under k _ = none

-- The response leaves as it came, since the error raised no schema or the body has no key for one.
abbrev pub IsLeft : ServiceError → (before after : Response) → Type 0
IsLeft e before after =
    ((raised_under e ≡ none) ⊎ (value_under "schema" before.body ≡ none)) × (after ≡ before)

-- The error raised a schema, and the body had the key: the schema stands under it as it was raised,
-- whatever stood there, and the other keys and the status are as they were.
abbrev pub IsRestored : ServiceError → (before after : Response) → (k : String) → Type 0
IsRestored e before after k =
    (schema : Value) × (raised_under e ≡ some schema)
    × (is_some (value_under "schema" before.body) ≡ true)
    × (after.status ≡ before.status)
    × (value_under k after.body
        ≡ (if "schema" == k then some schema else value_under k before.body))

restored_lem :
    (message : String) (schema : Dict Value) (status : ℕ) (body : Option Value) (k : String)
    → IsLeft
        (additional_input message (some schema))
        (record { status = status; body = body })
        (record { status = status; body = restored (some schema) body })
      ⊎ IsRestored
          (additional_input message (some schema))
          (record { status = status; body = body })
          (record { status = status; body = restored (some schema) body })
          k
unfolding get
restored_lem message schema status none k = inl (inr refl, refl)
restored_lem message schema status (some (dict es)) k =
    elim (Option-cases (get "schema" (named_entries es))) [
      | inl e ↦ inl (inr e, rw (e) refl)
      | inr (v, e) ↦ inr (
        schema_value schema,
        refl,
        ap is_some e,
        refl,
        rw (e) (get-put_entry "schema" k (schema_value schema) es),
      )
    ]
restored_lem message schema status (some v) k = inl (inr refl, refl)

-- Of any service error and any response that the handler made for it: either the response leaves as
-- it is, and then the error raised no schema or the body is no object with the key `schema`; or
-- the schema that was raised stands under that key, whatever the handler made of it, and the value
-- under every other key and the status are as they were.
pub restore_raised_schema_lem :
    (e : ServiceError) (response : Response) (k : String)
    → IsLeft e response (restore_raised_schema (map_service_error e) response)
      ⊎ IsRestored e response (restore_raised_schema (map_service_error e) response) k
unfolding restore_raised_schema map_service_error
restore_raised_schema_lem (additional_input message (some schema)) response k =
    restored_lem message schema response.status response.body k
restore_raised_schema_lem (additional_input message none) response k = inl (inl refl, refl)
restore_raised_schema_lem (validation_error detail) response k = inl (inl refl, refl)
restore_raised_schema_lem (not_found message) response k = inl (inl refl, refl)
restore_raised_schema_lem (action_unavailable message code) response k = inl (inl refl, refl)
restore_raised_schema_lem (conflict message) response k = inl (inl refl, refl)
restore_raised_schema_lem (service_error message) response k = inl (inl refl, refl)

-- Of every other exception the handler's response is left alone.
pub restore_raised_schema_other :
    (e : ServiceError) (response : Response)
    → status_code (map_service_error e) ≢ 422
    → restore_raised_schema (map_service_error e) response ≡ response
unfolding restore_raised_schema map_service_error status_code
restore_raised_schema_other (validation_error detail) response h = refl
restore_raised_schema_other (not_found message) response h = refl
restore_raised_schema_other (action_unavailable message code) response h = refl
restore_raised_schema_other (conflict message) response h = refl
restore_raised_schema_other (additional_input message (some schema)) response h = absurd (h refl)
restore_raised_schema_other (additional_input message none) response h = absurd (h refl)
restore_raised_schema_other (service_error message) response h = absurd (h refl)
