-- ===== src/Client.antt =====
-- The read-only ASoC client, backend/app/integrations/appscan_api/client.py: `class AsocApiClient`.
-- The HTTP library and the remote service are one parameter, a function that answers a request.
pub mod Http
pub mod Guard
pub mod Auth
pub mod Read
mod Tests
