-- ===== src/Cond/System/Steps.antt =====
-- Each step of the threads over a mutex and a condition keeps the invariant.
pub mod Calm
pub mod Leaving
