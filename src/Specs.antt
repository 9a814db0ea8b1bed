-- ===== src/Specs.antt =====
-- The declarations that a project writes: `ServiceSpec`, `SelectorSpec` and `PolymorphicServiceSpec`
-- of rest_framework_services/types. A field whose type Python does not enforce has a data type
-- with the cases that the validators tell apart.
use djangorestframework_serv.Prelude.{
  ℕ, String, Bool, true, false, Option, none, some, List, [], ◌∷◌, Dict,
}
use djangorestframework_serv.Callables.{Callable}
use djangorestframework_serv.Values.{Value}

pub data SelectorKind : Type 0 where
  list retrieve : SelectorKind

abbrev pub is_list : SelectorKind → Bool
is_list list = true
is_list retrieve = false

-- `Affordance.when`: a queryset expression about the row, or a callable.
pub data Condition : Type 0 where
  row_condition : String → Condition
  callable_condition : Callable → Condition

pub record Affordance : Type 0 where
  pub code : String
  pub reason : String
  pub when : Condition

-- `is_row_condition` of types/utils.py
unfoldable pub is_row_condition : Condition → Bool
is_row_condition (row_condition expression) = true
is_row_condition (callable_condition fn) = false

-- An entry of a sequence that should hold affordances.
pub data AffordanceEntry : Type 0 where
  an_affordance : Affordance → AffordanceEntry
  not_affordance : String → AffordanceEntry

pub data AffordanceSequence : Type 0 where
  affordance_sequence : List AffordanceEntry → AffordanceSequence
  not_sequence : String → AffordanceSequence

abbrev pub affordance_entries : List AffordanceEntry → List Affordance
affordance_entries [] = []
affordance_entries (an_affordance a ∷ es) = a ∷ affordance_entries es
affordance_entries (not_affordance t ∷ es) = affordance_entries es

-- `spec.affordances or ()`, of a spec that was constructed
abbrev pub declared : Option AffordanceSequence → List Affordance
declared none = []
declared (some (affordance_sequence es)) = affordance_entries es
declared (some (not_sequence t)) = []

-- An entry of `permission_classes`.
pub data PermissionEntry : Type 0 where
  permission_class : String → PermissionEntry
  other_class : String → PermissionEntry
  not_a_class : String → PermissionEntry

pub data InputSerializer : Type 0 where
  serializer_class : String → InputSerializer
  dataclass_type : String → InputSerializer
  other_input : String → InputSerializer

pub data PreconditionEntry : Type 0 where
  precondition : Callable → PreconditionEntry
  not_callable : String → PreconditionEntry

pub data Preconditions : Type 0 where
  one_callable : Callable → Preconditions
  text : String → Preconditions
  not_iterable : String → Preconditions
  preconditions : List PreconditionEntry → Preconditions

pub data SuccessStatus : Type 0 where
  status_code : ℕ → SuccessStatus
  status_callable : Callable → SuccessStatus
  other_status : String → SuccessStatus

pub data Finalizer : Type 0 where
  finalizer_callable : Callable → Finalizer
  other_finalizer : String → Finalizer

-- A declaration of one argument, `UrlKwarg` or `QueryParam`. `default` is `Value.unset` where none
-- is declared.
pub record Channel : Type 0 where
  pub name : String
  pub type_name : String
  pub description : Option String
  pub default : Value
  pub required : Bool

pub data Read : Type 0 where
  url_kwarg query_param : Channel → Read

abbrev pub channel : Read → Channel
channel (url_kwarg c) = c
channel (query_param c) = c

-- A value of `SelectorSpec.affordances`: a spec that declares affordances, or something else.
pub data DeclarerEntry : Type 0 where
  declarer : Option AffordanceSequence → DeclarerEntry
  not_declarer : String → DeclarerEntry

pub data DeclarerKey : Type 0 where
  text_key : String → DeclarerKey
  other_key : String → DeclarerKey

pub data DeclarerMapping : Type 0 where
  declarer_mapping : List (DeclarerKey × DeclarerEntry) → DeclarerMapping
  not_mapping : String → DeclarerMapping

pub record SelectorSpec : Type 0 where
  pub kind : SelectorKind
  pub selector : Option Callable
  pub allow_none : Bool
  pub output_serializer : Option String
  pub select_related : Option (List String)
  pub prefetch_related : Option (List String)
  pub annotations : Option (Dict String)
  pub extend_queryset : Option Callable
  pub filter_set : Option String
  pub affordances : Option DeclarerMapping
  pub kwargs : Option Callable
  pub permission_classes : Option (List PermissionEntry)
  pub progress_reporter : Option Callable
  pub preconditions : Option Preconditions
  pub reads : List Read

-- `many_argument`: a text, or a value of some other type, known by the type's name.
pub data ManyArgument : Type 0 where
  many_name not_a_text : String → ManyArgument

pub record ServiceSpec : Type 0 where
  pub service : Callable
  pub success_status : Option SuccessStatus
  pub partial : Option Bool
  pub many : Bool
  pub many_argument : ManyArgument
  pub input_serializer : Option InputSerializer
  pub instance_selector_spec : Option SelectorSpec
  pub collection_selector_spec : Option SelectorSpec
  pub output_selector_spec : Option SelectorSpec
  pub kwargs : Option Callable
  pub permission_classes : Option (List PermissionEntry)
  pub progress_reporter : Option Callable
  pub preconditions : Option Preconditions
  pub affordances : Option AffordanceSequence
  pub response_finalizer : Option Finalizer
  pub reads : List Read

pub data PermissionStrategy : Type 0 where
  union discriminate require_identical : PermissionStrategy

-- A value of `PolymorphicServiceSpec.specs`.
pub data Variant : Type 0 where
  variant : ServiceSpec → Variant
  not_variant : String → Variant

pub record PolymorphicServiceSpec : Type 0 where
  pub discriminator : Callable
  pub specs : Dict Variant
  pub permission_strategy : PermissionStrategy
