-- ===== src/Pages.antt =====
-- The pages of the web application that list and edit records (frontend/web-app/src/app/pages).
-- A handler that waits for the backend is two functions: what it does before the call, and what
-- it does with the result. Between the two other handlers may run; what a handler keeps of the
-- state in which it was made (its closure) is an argument of its second part.
pub mod Listing
pub mod Policies
pub mod Agents
pub mod Threats
pub mod Settings
pub mod Login
pub mod Format
pub mod Fields
pub mod Screen
pub mod AuditLogs
pub mod Dashboard
pub mod Layout
mod Witnesses
mod Samples
mod AgentSamples
mod FormSamples
mod ScreenSamples
mod RunSamples
mod SettingsSamples
mod RenewalSamples
mod LoginSamples
