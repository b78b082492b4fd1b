-- ===== src/Client.antt =====
-- The request client of the two applications: frontend/web-app/src/app/api/client.ts and
-- frontend/admin_panel/src/app/api/client.ts.
pub mod Url
pub mod Error
pub mod Auth
pub mod Request
pub mod Rounds
pub mod Refresh
pub mod Replies
pub mod Renewal
pub mod Repeat
pub mod Outcome
pub mod Pool
pub mod UrlLaws
pub mod Sample
mod Witnesses
mod SessionWitnesses
