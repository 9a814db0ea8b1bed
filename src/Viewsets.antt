-- ===== src/Viewsets.antt =====
-- Viewsets whose actions are declared by specs: rest_framework_services/viewsets.
pub mod Actions
pub mod Declared
pub mod Permissions
