-- ===== src/Handlers.antt =====
-- backend/internal/api/handlers.
pub mod Response
pub mod Requests
pub mod Pipeline
pub mod Notifications
pub mod Wiring
pub mod Auth
pub mod Tenants
pub mod Templates
pub mod History
pub mod Health
