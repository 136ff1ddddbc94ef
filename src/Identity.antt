-- ===== src/Identity.antt =====
-- services/identity-service: users, memberships, roles, authentication and impersonation.
pub mod Context
pub mod Entities
pub mod State
mod Tests
pub mod Users
pub mod Roles
pub mod Memberships
pub mod Duration
pub mod Auth
pub mod Impersonation
pub mod Api
pub mod Validation
