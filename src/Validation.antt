-- ===== src/Validation.antt =====
-- The fail-fast validators of specs: rest_framework_services/views/spec_validation.py.
pub mod Signature
pub mod Parts
pub mod Nested
pub mod Whole
