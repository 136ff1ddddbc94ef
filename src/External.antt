-- ===== src/External.antt =====
-- What the services call and do not implement, as parameters with the documented behaviour.
pub mod Repository
pub mod Redis
pub mod Validation
pub mod Broker
