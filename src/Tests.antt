-- ===== src/Tests.antt =====
-- Concrete specs and inputs, and the theorems applied at them.
mod Examples
mod Specs
mod Answers
mod Inputs
mod Responses
mod Actions
mod Calls
mod Schemas
mod Arguments
