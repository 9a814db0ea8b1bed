-- ===== src/Tests/Examples.antt =====
-- The specs of an order's update, create and list, as a project would declare them.
use djangorestframework_serv.Prelude.{String, true, false, Option, none, some, List, [], ◌∷◌}
use djangorestframework_serv.Callables.{Callable, Parameter, keyword_only}
use djangorestframework_serv.Config.{Label, named}
use djangorestframework_serv.Specs.{
  many_name, SelectorKind, list, Affordance, row_condition, an_affordance, affordance_sequence,
  AffordanceSequence, serializer_class, permission_class, SelectorSpec, ServiceSpec,
  PolymorphicServiceSpec, require_identical, variant, text_key, declarer, declarer_mapping,
  DeclarerMapping,
}
use djangorestframework_serv.Validation.Nested.{Descriptions}
use djangorestframework_serv.Validation.Parts.{ViewClass}
use djangorestframework_serv.Validation.Signature.{Offered}

-- `def qualname(*, name, ...)`
abbrev keyword_parameters : List String → List Parameter
keyword_parameters [] = []
keyword_parameters (name ∷ names) =
    record { name = name; kind = keyword_only; has_default = false; hint = none }
    ∷ keyword_parameters names

abbrev pub taking : String → List String → Callable
taking qualname names = record { qualname = qualname; parameters = keyword_parameters names }

abbrev pub label : Label
label = named "OrderViewSet"

abbrev pub selector_of : SelectorKind → Option Callable → Option DeclarerMapping → SelectorSpec
selector_of kind selector affordances = record {
  kind = kind;
  selector = selector;
  allow_none = false;
  output_serializer = none;
  select_related = none;
  prefetch_related = none;
  annotations = none;
  extend_queryset = none;
  filter_set = none;
  affordances = affordances;
  kwargs = none;
  permission_classes = none;
  progress_reporter = none;
  preconditions = none;
  reads = [];
}

abbrev pub orders : SelectorSpec
orders = record (selector_of list (some (taking "list_orders" ("user" ∷ []))) none) {
  filter_set = some "OrderFilter";
}

abbrev pub cancellable : Affordance
cancellable = record {
  code = "open";
  reason = "The order is closed.";
  when = row_condition "status = open";
}

abbrev pub unpaid : Affordance
unpaid = record { code = "unpaid"; reason = "The order is paid."; when = row_condition "paid = no" }

abbrev pub on_the_row : AffordanceSequence
on_the_row = affordance_sequence (an_affordance cancellable ∷ an_affordance unpaid ∷ [])

abbrev pub answered_orders : SelectorSpec
answered_orders =
    selector_of list (some (taking "list_orders" []))
      (some (declarer_mapping ((text_key "cancel", declarer (some on_the_row)) ∷ [])))

abbrev pub service_of : Callable → Option AffordanceSequence → ServiceSpec
service_of service affordances = record {
  service = service;
  success_status = none;
  partial = none;
  many = false;
  many_argument = many_name "items";
  input_serializer = some (serializer_class "OrderSerializer");
  instance_selector_spec = none;
  collection_selector_spec = none;
  output_selector_spec = none;
  kwargs = none;
  permission_classes = some (permission_class "IsAuthenticated" ∷ []);
  progress_reporter = none;
  preconditions = none;
  affordances = affordances;
  response_finalizer = none;
  reads = [];
}

abbrev pub update_order : Callable
update_order = taking "update_order" ("instance" ∷ "data" ∷ [])

abbrev pub update_spec : ServiceSpec
update_spec = service_of update_order (some on_the_row)

abbrev pub two_ways : PolymorphicServiceSpec
two_ways = record {
  discriminator = taking "by_type" ("data" ∷ []);
  specs = ("online", variant update_spec) ∷ ("phone", variant update_spec) ∷ [];
  permission_strategy = require_identical;
}

-- What a service that updates a row is handed.
abbrev pub on_update : Offered
on_update = record {
  has_data = true;
  has_instance = true;
  has_result = false;
  spec_kwargs = none;
  permissive_extras = false;
  extra_known_keys = [];
}

-- The parameters of each filter set and the fields of each input serializer of the project.
abbrev pub described : Descriptions
described = record {
  filter_set_parameters = λ name. "status" ∷ [];
  described_fields = λ serializer. none;
}

abbrev pub order_view : ViewClass
order_view = record {
  class_name = "OrderViewSet";
  filter_backends = [];
  overrides_service_kwargs = false;
  service_kwargs_actions = [];
}
