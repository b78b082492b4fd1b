-- ===== src/Types.antt =====
-- The DTO types of both applications (frontend/*/src/app/api/types). A field that may be
-- missing or null is an `Option`; times are texts; a free-form object is its list of fields.
pub mod Common
pub mod Account
pub mod Governance
pub mod Reports
