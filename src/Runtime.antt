-- ===== src/Runtime.antt =====
-- What the browser gives the two applications: dynamic values, and calls that change the shared
-- state, wait and throw.
pub mod Value
pub mod Monad
