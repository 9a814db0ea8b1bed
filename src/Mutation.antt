-- ===== src/Mutation.antt =====
-- The answer of a mutation over HTTP: rest_framework_services/views/mutation.
pub mod Errors
pub mod Hooks
pub mod Response
