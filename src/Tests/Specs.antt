-- ===== src/Tests/Specs.antt =====
-- The validators at the specs of the examples.
use djangorestframework_serv.Prelude.{
  ◌≡◌, refl, ◌↔◌, ◌⊎◌, String, true, false, some, [], ◌∷◌, Dict, get, has, contains, ok, is_empty,
  or_else, keys, Distinct, Apart, arith, eq_iff,
}
use djangorestframework_serv.Callables.{
  required_kw_params, accepts_var_keyword, resolve_callable_kwargs,
}
use djangorestframework_serv.Specs.{list}
use djangorestframework_serv.Construction.{validate_selector_affordances}
use djangorestframework_serv.Construction.Aliases.{generated, generated-Distinct}
use djangorestframework_serv.Validation.Signature.{validate_callable_signature, IsOffered, offers}
use djangorestframework_serv.Validation.Signature.Offers.{
  validate_callable_signature_iff, validated_binds,
}
use djangorestframework_serv.Validation.Parts.{
  validate_permission_classes, validate_selector_shaping, validate_preconditions,
  validate_filter_set_no_backend_conflict,
}
use djangorestframework_serv.Validation.Nested.{
  service_callables, selector_callables, refuse_misplaced_schema_markers,
  validate_selector_callable,
}
use djangorestframework_serv.Validation.Whole.{
  validate_service_spec, validate_polymorphic_service_spec, validate_selector_spec,
  validate_selector_view_spec,
}
use djangorestframework_serv.Validation.Whole.Accepts.{
  IsValidService, AreReadable, validate_service_spec_iff,
}
use djangorestframework_serv.Validation.Whole.Selectors.{
  IsValidSelector, validate_selector_spec_iff,
}
use djangorestframework_serv.Validation.Whole.Variants.{
  AreVariants, ArePermittedAlike, validate_polymorphic_service_spec_iff,
}
use djangorestframework_serv.Tests.Examples.{
  label, orders, answered_orders, update_order, update_spec, two_ways, on_update, described,
  order_view,
}

validate_service_spec_iff_example :
    (validate_service_spec described update_spec label true false ≡ ok tt) ↔ (
      IsValidService described true false update_spec
      × AreReadable (service_callables update_spec label))
validate_service_spec_iff_example = validate_service_spec_iff described update_spec label true false

validate_polymorphic_service_spec_iff_example :
    (validate_polymorphic_service_spec described two_ways label true false ≡ ok tt) ↔ (
      (is_empty two_ways.specs ≡ false)
      × (AreVariants described true false label two_ways.specs × ArePermittedAlike two_ways))
validate_polymorphic_service_spec_iff_example =
    validate_polymorphic_service_spec_iff described two_ways label true false

validate_selector_spec_iff_example :
    (validate_selector_spec orders label (some list) ≡ ok tt)
    ↔ (IsValidSelector (some list) orders × AreReadable (selector_callables orders label))
validate_selector_spec_iff_example = validate_selector_spec_iff orders label (some list)

orders_pass : validate_selector_view_spec order_view (some orders) list ≡ ok tt
unfolding validate_selector_view_spec validate_permission_classes validate_selector_shaping
    validate_preconditions refuse_misplaced_schema_markers selector_callables
    validate_selector_callable validate_callable_signature validate_filter_set_no_backend_conflict
orders_pass = refl

validate_callable_signature_iff_example :
    (validate_callable_signature update_order label on_update ≡ ok tt)
    ↔ ((accepts_var_keyword update_order ≡ true) ⊎ IsOffered on_update update_order)
validate_callable_signature_iff_example =
    validate_callable_signature_iff update_order label on_update

abbrev pool : Dict String
pool =
    ("request", "the request")
    ∷ ("user", "the user")
    ∷ ("data", "the data")
    ∷ ("serializer", "the serializer")
    ∷ ("instance", "the order")
    ∷ []

update_passes : validate_callable_signature update_order label on_update ≡ ok tt
unfolding validate_callable_signature
update_passes = refl

update_closed : accepts_var_keyword update_order ≡ false
unfolding accepts_var_keyword
update_closed = refl

pool_supplies : (j : String) → offers on_update j ≡ true → has j pool ≡ true
unfolding offers get
pool_supplies j h = ground (
  arith,
  eq_iff j "data",
  eq_iff j "serializer",
  eq_iff j "instance",
  eq_iff j "result",
  eq_iff j "request",
  eq_iff j "user",
  eq_iff "data" j,
  eq_iff "serializer" j,
  eq_iff "instance" j,
  eq_iff "result" j,
  eq_iff "request" j,
  eq_iff "user" j,
)

needs_the_row : contains "instance" (required_kw_params update_order) ≡ true
unfolding contains required_kw_params
needs_the_row = refl

validated_binds_example :
    (has "instance" (resolve_callable_kwargs update_order pool) ≡ true)
    × (get "instance" (resolve_callable_kwargs update_order pool) ≡ get "instance" pool)
validated_binds_example =
    validated_binds update_order label on_update pool "instance" update_passes update_closed
      pool_supplies needs_the_row

answered_orders_pass : validate_selector_affordances answered_orders ≡ ok tt
unfolding validate_selector_affordances
answered_orders_pass = refl

generated-Distinct_example :
    Distinct (generated answered_orders)
    × Apart (keys (or_else answered_orders.annotations [])) (generated answered_orders)
generated-Distinct_example = generated-Distinct answered_orders answered_orders_pass
