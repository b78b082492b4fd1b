-- ===== src/Auth.antt =====
-- Signing in and out, and what is shown to whom: the authentication services, the routes of the
-- web application and the frame of the admin panel.
pub mod Service
pub mod Route
pub mod AdminFrame
pub mod Laws
mod Witnesses
