-- ===== src/Admin.antt =====
-- The pages and the layout of the admin panel (frontend/admin_panel/src/app). A page that loads is
-- two functions, before its calls and after them; what comes between is up to the user and the
-- other loads.
pub mod Common
pub mod Screen
pub mod Counting
pub mod Organizations
pub mod AiAgents
pub mod Governance
pub mod ThreatIntelligence
pub mod AuditLogs
pub mod SystemHealth
pub mod ApiMonitoring
pub mod Overview
pub mod Settings
pub mod Layout
pub mod LoginPage
mod Witnesses
mod Samples
