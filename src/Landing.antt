-- ===== src/Landing.antt =====
-- The sections of the landing page that move by themselves
-- (frontend/landing-page/src/app/components). A timer is a function from a state to the next one.
pub mod Typewriter
pub mod Feed
pub mod Counter
pub mod Sections
pub mod Flow
pub mod Blink
pub mod Showcase
pub mod Tour
pub mod Links
mod Witnesses
