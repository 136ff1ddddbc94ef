-- ===== src/Sdk.antt =====
-- packages/chassis-sdk: what the services share.
mod Tests
pub mod Flags
pub mod Guards
pub mod TenantAware
pub mod Audit
pub mod Web
