-- ===== src/Tests/Responses.antt =====
-- The responses of mutations at the specs of the examples.
use djangorestframework_serv.Prelude.{
  ◌≡◌, ◌⊎◌, ◌↔◌, refl, true, false, if◌then◌else◌, none, some, [], ◌∷◌, Dict, ok, err,
}
use djangorestframework_serv.Values.{Value, null, int, str, dict, Entries, end, entry}
use djangorestframework_serv.Callables.{
  Callable, required_kw_params, accepts_var_keyword, resolve_callable_kwargs,
}
use djangorestframework_serv.Specs.{status_callable}
use djangorestframework_serv.Construction.{reads_of, construct_service, operates_on_set}
use djangorestframework_serv.Construction.Sound.{construct_service_sound, IsBuilt}
use djangorestframework_serv.Validation.Parts.{validate_success_status}
use djangorestframework_serv.Mutation.Errors.{
  ServiceError, additional_input, map_service_error, Response, IsLeft, IsRestored,
  restore_raised_schema, restore_raised_schema_lem,
}
use djangorestframework_serv.Mutation.Hooks.{
  missing_argument, needs_position, resolve_success_status, status_pool,
}
use djangorestframework_serv.Mutation.Response.{
  ProjectCode, built_response, set_selector, resolve_mutation_instance, no_target, left_to_dispatch,
}
use djangorestframework_serv.Mutation.Response.Statuses.{IsEmpty, IsPresented, built_response_lem}
use djangorestframework_serv.Mutation.Response.Hooked.{
  success_status_answers, success_status_needs_a_row,
}
use djangorestframework_serv.Mutation.Response.Target.{resolve_mutation_instance_lem}
use djangorestframework_serv.Tests.Examples.{label, taking, update_spec}

abbrev code : ProjectCode
code = record {
  status_answers = λ fn pool. 202;
  finalizer_answers = λ fn pool. none;
  render = λ serializer value. value;
  row_of = λ value. [];
}

abbrev by_row : Callable
by_row = taking "by_row" ("instance" ∷ [])

by_row_passes : validate_success_status (some (status_callable by_row)) label ≡ ok tt
unfolding validate_success_status
by_row_passes = refl

by_row_closed : accepts_var_keyword by_row ≡ false
unfolding accepts_var_keyword
by_row_closed = refl

by_row_needs : required_kw_params by_row ≡ "instance" ∷ []
unfolding required_kw_params
by_row_needs = refl

success_status_answers_example :
    resolve_success_status code.status_answers
      (some (status_callable by_row))
      200
      (status_pool (int 1) (str "the order"))
    ≡ (if needs_position by_row
        then err (missing_argument by_row.qualname)
        else ok (
            code.status_answers by_row
              (resolve_callable_kwargs by_row (status_pool (int 1) (str "the order")))))
success_status_answers_example =
    success_status_answers code.status_answers by_row label 200 (int 1) (str "the order")
      by_row_passes by_row_closed refl

success_status_needs_a_row_example :
    (validate_success_status (some (status_callable by_row)) label ≡ ok tt)
    × (resolve_success_status code.status_answers
          (some (status_callable by_row))
          201
          (status_pool (int 1) null)
        ≡ err (missing_argument by_row.qualname))
success_status_needs_a_row_example =
    success_status_needs_a_row code.status_answers by_row label 201 (int 1) by_row_closed
      by_row_needs

abbrev shown_response : Response
shown_response = record { status = 200; body = some (int 1) }

shown : built_response code update_spec (int 1) 204 ≡ ok shown_response
unfolding built_response
shown = refl

built_response_lem_example :
    IsEmpty update_spec (int 1) 204 shown_response
    ⊎ IsPresented code update_spec (int 1) 204 shown_response
built_response_lem_example = built_response_lem code update_spec (int 1) 204 shown_response shown

update_built : construct_service null (reads_of []) update_spec ≡ ok update_spec
unfolding construct_service
update_built = refl

update-IsBuilt : IsBuilt update_spec
update-IsBuilt = (construct_service_sound null (reads_of []) update_spec update_spec update_built).2

resolve_mutation_instance_lem_example :
    ((resolve_mutation_instance (int 1) update_spec ≡ no_target)
      ↔ (operates_on_set update_spec ≡ true))
    × ((resolve_mutation_instance (int 1) update_spec ≡ left_to_dispatch)
        ↔ (set_selector update_spec.instance_selector_spec ≡ true))
resolve_mutation_instance_lem_example =
    resolve_mutation_instance_lem (int 1) update_spec update-IsBuilt

abbrev asked : Entries
asked = entry "detail" (str "Which warehouse?") (entry "schema" (dict end) end)

abbrev asking : Response
asking = record { status = 422; body = some (dict asked) }

abbrev schema : Dict Value
schema = ("type", str "object") ∷ []

abbrev asking_again : ServiceError
asking_again = additional_input "Which warehouse?" (some schema)

restore_raised_schema_lem_example :
    IsLeft asking_again asking (restore_raised_schema (map_service_error asking_again) asking)
    ⊎ IsRestored asking_again asking
        (restore_raised_schema (map_service_error asking_again) asking)
        "detail"
restore_raised_schema_lem_example = restore_raised_schema_lem asking_again asking "detail"
