-- ===== src/Routes.antt =====
-- The HTTP routes, backend/app/api/v1/routes, on the store.
pub mod Dashboard
pub mod Endpoints
pub mod Reports
pub mod Templates
pub mod Writes
pub mod Analytics
mod Tests
