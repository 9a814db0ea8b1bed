-- ===== src/Mutation/Response.antt =====
-- The response of a mutation: `render_mutation_response`, `status_for_a_body`, the partial flag and
-- the source of the target (views/mutation/utils.py).
pub mod Statuses
pub mod Hooked
pub mod Target
use djangorestframework_serv.Prelude.{
  ℕ, String, Bool, true, false, ◌&&◌, ◌||◌, not, Option, none, some, List, [], ◌∷◌, Dict,
  if◌then◌else◌, is_some, or_else, Result, ok, err, ◌>>=◌, nat_eq,
}
use djangorestframework_serv.Values.{Value, null, is_null}
use djangorestframework_serv.Config.{ConfigError, Config}
use djangorestframework_serv.Callables.{Callable}
use djangorestframework_serv.Specs.{SuccessStatus, SelectorSpec, ServiceSpec}
use djangorestframework_serv.Audience.Answers.{Row, rendered_affordances, add_affordances}
use djangorestframework_serv.Mutation.Errors.{Response}
use djangorestframework_serv.Mutation.Hooks.{
  Pool, CallError, resolve_success_status, apply_response_finalizer, status_pool,
}

-- `status_for_a_body`
unfoldable pub status_for_a_body : ℕ → ℕ
status_for_a_body status = if nat_eq status 204 then 200 else status

-- What dispatch hands back: the value to render, the service's own return, the row it acted on and
-- the validated data.
pub record Outcome : Type 0 where
  pub value : Value
  pub service_result : Value
  pub instance_ : Value
  pub validated : Value

-- The code outside the package that a response calls: the hooks of the spec, an output serializer,
-- and the attributes of what it rendered.
pub record ProjectCode : Type 0 where
  pub status_answers : Callable → Pool → ℕ
  pub finalizer_answers : Callable → Pool → Option Response
  pub render : String → Value → Value
  pub row_of : Value → Row

pub data RenderError : Type 0 where
  from_call : CallError → RenderError
  from_config : ConfigError → RenderError

abbrev pub of_call : {A : Type 0} → Result CallError A → Result RenderError A
of_call (ok a) = ok a
of_call (err e) = err (from_call e)

abbrev pub of_config : {A : Type 0} → Config A → Result RenderError A
of_config (ok a) = ok a
of_config (err e) = err (from_config e)

abbrev pub set_selector : Option SelectorSpec → Bool
set_selector none = false
set_selector (some spec) = is_some spec.selector

abbrev pub set_serializer : Option SelectorSpec → Option String
set_serializer none = none
set_serializer (some spec) = spec.output_serializer

abbrev pub selector_ran : ServiceSpec → Bool
selector_ran spec = set_selector spec.output_selector_spec

abbrev pub output_serializer : ServiceSpec → Option String
output_serializer spec = set_serializer spec.output_selector_spec

-- The value that is rendered: an update that returned nothing presents the row it acted on.
unfoldable pub presented : ServiceSpec → Outcome → Value → Bool → Value
presented spec result instance_ render_instance_on_none =
    if is_null result.value
      && (not (is_null instance_)
          && (render_instance_on_none
              && (is_some (output_serializer spec) && not (selector_ran spec))))
    then instance_
    else result.value

abbrev empty_status : ServiceSpec → ℕ → ℕ
empty_status spec resolved = if is_some spec.success_status then resolved else 204

abbrev pub empty_response : ServiceSpec → ℕ → Response
empty_response spec resolved = record {
  status = if selector_ran spec then 204 else empty_status spec resolved;
  body = none;
}

abbrev pub body_response : ℕ → Value → Response
body_response resolved body = record { status = status_for_a_body resolved; body = some body }

abbrev pub rendered_response :
    ProjectCode → ServiceSpec → Value → ℕ → Option String → Result RenderError Response
rendered_response code spec shown resolved none = ok (body_response resolved shown)
rendered_response code spec shown resolved (some serializer) = do
  body ← of_config (
      add_affordances (rendered_affordances spec) (code.render serializer shown)
        (some (code.row_of shown)))
  ok (body_response resolved body)

-- The response before the finalizer, at the resolved status.
unfoldable pub built_response : ProjectCode → ServiceSpec → Value → ℕ → Result RenderError Response
unfolding status_for_a_body
built_response code spec shown resolved =
    if is_null shown
    then ok (empty_response spec resolved)
    else rendered_response code spec shown resolved (output_serializer spec)

unfoldable pub render_mutation_response :
    ProjectCode
    → ServiceSpec
    → Outcome
    → (instance_ : Value) → (default_status : ℕ) → (render_instance_on_none : Bool)
    → Result RenderError Response
unfolding presented built_response resolve_success_status apply_response_finalizer
render_mutation_response code spec result instance_ default_status render_instance_on_none = do
  resolved ← of_call (
      resolve_success_status code.status_answers spec.success_status default_status
        (status_pool result.service_result instance_))
  response ←
      built_response code spec (presented spec result instance_ render_instance_on_none) resolved
  of_call (
      apply_response_finalizer code.finalizer_answers spec.response_finalizer response
        result.service_result instance_ result.validated)

pub data TargetSource : Type 0 where
  bulk instance_selector get_object : TargetSource

-- `mutation_target_source`
unfoldable pub mutation_target_source : ServiceSpec → TargetSource
mutation_target_source spec =
    if spec.many || is_some spec.collection_selector_spec
    then bulk
    else if set_selector spec.instance_selector_spec
    then instance_selector
    else get_object

-- What `resolve_mutation_instance` hands to dispatch: no instance, `UNSET`, which leaves the lookup
-- to dispatch, or the view's own row.
pub data MutationTarget : Type 0 where
  no_target left_to_dispatch : MutationTarget
  row : Value → MutationTarget

abbrev pub target_from : Value → TargetSource → MutationTarget
target_from get_object_row bulk = no_target
target_from get_object_row instance_selector = left_to_dispatch
target_from get_object_row get_object = row get_object_row

unfoldable pub resolve_mutation_instance : Value → ServiceSpec → MutationTarget
unfolding mutation_target_source
resolve_mutation_instance get_object_row spec =
    target_from get_object_row (mutation_target_source spec)

-- The `partial` of `dispatch_mutation_for_spec`: the spec's own, else the request's where the input
-- can be validated in part. `supports_partial` is the validator's, `none` where there is none.
unfoldable pub effective_partial : ServiceSpec → (requested : Bool) → Option Bool → Bool
effective_partial spec requested supports_partial = elim spec.partial [
  | some p ↦ p
  | none ↦ requested && or_else supports_partial true
]
