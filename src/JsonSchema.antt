-- ===== src/JsonSchema.antt =====
-- JSON schema generation (jsonschema/): choices, fields, serializers and the walk that describes
-- them.
pub mod Choices
pub mod Fields
pub mod Overrides
pub mod Serializers
pub mod Lists
pub mod Types
pub mod Inputs
