-- ===== src/Services/ReadService.antt =====
-- backend/app/services/asoc_read_service.py: how the raw items of ASoC are normalised, which of them
-- a request sees, and what is computed from them.
pub mod Normalize
pub mod Technology
pub mod Filters
pub mod Statistics
pub mod Prioritization
pub mod Series
pub mod Paging
mod Tests
