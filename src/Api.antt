-- ===== src/Api.antt =====
-- The addresses and services of both applications: frontend/*/src/app/api/endpoints.ts and
-- frontend/*/src/app/api/services.
pub mod Endpoints
pub mod Services
pub mod Export
pub mod Laws
pub mod Session
mod Witnesses
