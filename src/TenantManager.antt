-- ===== src/TenantManager.antt =====
-- services/tenant-manager: tenants, plans and feature flags.
pub mod Tests
pub mod Entities
pub mod State
pub mod Plans
pub mod Features
pub mod Tenants
pub mod Context
pub mod Api
pub mod Validation
