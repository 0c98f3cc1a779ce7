-- ===== src/Security.antt =====
-- Authentication and authorization: backend/app/core/security and the login route.
pub mod Policy
pub mod Access
pub mod Session
mod Tests
