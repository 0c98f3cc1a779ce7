-- ===== src/Services.antt =====
-- The services, backend/app/services.
pub mod DataSources
pub mod IssueCounts
pub mod MultiEndpoint
pub mod ReadService
mod Tests
