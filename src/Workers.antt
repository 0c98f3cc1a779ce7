-- ===== src/Workers.antt =====
-- The background workers, backend/app/workers.
pub mod Scheduler
mod Tests
