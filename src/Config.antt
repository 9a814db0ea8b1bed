-- ===== src/Config.antt =====
-- The configuration errors of the package: one constructor for each place that raises
-- `ImproperlyConfigured` (or `TypeError`) at declaration time. A constructor carries the label of
-- the object refused and what the message names; the wording of messages is left out.
use djangorestframework_serv.Prelude.{ℕ, String, List, Result}

-- `f"{label}.field"`, `f"{label}[3]"` and `f"{label}['key']"`, as trees.
pub data Label : Type 0 where
  named : String → Label
  field : Label → String → Label
  item : Label → ℕ → Label
  key : Label → String → Label

pub data ConfigError : Type 0 where
  -- types/read_schema_markers.py, read_input_description.py
  marked_required_and_hidden misplaced_marker : ConfigError
  described_twice described_and_hidden : ConfigError
  in_annotation_of : Label → ConfigError → ConfigError
  -- validate_callable_signature
  needs_data needs_serializer needs_instance needs_result : Label → ConfigError
  unknown_required : Label → List String → ConfigError
  -- the parts of a spec
  shaping_without_selector filtered_twice not_a_permission : Label → ConfigError
  bad_input_serializer : Label → ConfigError
  single_precondition preconditions_not_iterable : Label → ConfigError
  precondition_not_callable : Label → ℕ → ConfigError
  row_affordance_without_row : Label → ℕ → ConfigError
  nested_preconditions nested_progress_reporter nested_permission_classes : Label → ConfigError
  unrendered_affordances : Label → ConfigError
  list_output_of_one : Label → ConfigError
  no_instance_to_select instance_kind : Label → ConfigError
  collection_kind collection_without_selector : Label → ConfigError
  bad_success_status success_status_unknown : Label → ConfigError
  bad_response_finalizer response_finalizer_unknown : Label → ConfigError
  filters_named_like_fields : Label → List String → ConfigError
  no_variants variant_not_a_service variants_differ : Label → ConfigError
  unexpected_kind : Label → ConfigError
  -- ServiceSpec and SelectorSpec at construction
  metadata_not_a_mapping : String → ConfigError
  reads_not_a_sequence : String → ConfigError
  read_not_declared : String → ℕ → ConfigError
  read_declared_twice : String → String → ConfigError
  bad_many_argument many_argument_without_many : String → ConfigError
  two_target_lookups : ConfigError
  lookup_with_many : String → ConfigError
  affordances_not_a_sequence : ConfigError
  not_an_affordance : ℕ → ConfigError
  code_declared_twice : String → ConfigError
  row_condition_on_set : ℕ → ConfigError
  affordances_not_a_mapping affordance_key_not_text : ConfigError
  not_an_affordance_declarer : String → ConfigError
  alias_taken_by_annotation : String → String → ConfigError
  alias_declared_twice : String → String → String → ConfigError
  -- channels, action specs, audience
  channel_collides channel_duplicated channel_contradictory : Label → List String → ConfigError
  not_a_service_spec not_a_selector_spec not_an_action_spec : Label → ConfigError
  unknown_variant : String → ConfigError
  rendered_not_an_object affordances_key_taken no_affordance_answer : ConfigError
  several_labels : List String → ConfigError
  not_a_field_marking : String → ConfigError

abbrev pub Config : Type 0 → Type 0
Config A = Result ConfigError A

abbrev pub Checked : Type 0
Checked = Config (Unit {0})
