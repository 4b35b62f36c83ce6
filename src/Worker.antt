-- ===== src/Worker.antt =====
-- internal/worker.
pub mod Backoff
pub mod Jitter
pub mod Id
pub mod Process
pub mod Noop
pub mod Outcome
pub mod Cycle
pub mod Invariant
