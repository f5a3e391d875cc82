-- ===== src/Engine.antt =====
-- software/core/engine: when a run stops, which session runs next, what a round needs, and what an
-- error does.
pub mod StopPolicy
mod Samples
pub mod Scheduler
pub mod Errors
pub mod Round
pub mod Session
