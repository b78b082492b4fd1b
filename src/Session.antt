-- ===== src/Session.antt =====
-- The stored session of the web application and of the admin panel: the tokens and the user.
-- The two applications are one text with other storage keys, so they are one model over `Panel`.
pub mod Storage
pub mod Tokens
pub mod User
pub mod Laws
pub mod View
pub mod Subscription
mod Witnesses
