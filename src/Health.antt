-- ===== src/Health.antt =====
-- The health/health.controller.ts of services/tenant-manager, services/billing-engine and
-- services/identity-service, without the time and the uptime.
use saas_chassis.Prelude.{
  String, Bool, true, false, ◌&&◌, Option, none, some, Result, ok, err, if◌then◌else◌,
}

pub data Status : Type 0 where
  ok_ degraded error_ : Status

-- What a call that may throw says of what it asks.
abbrev pub status_of : Result (Unit {0}) → Status
status_of (ok _) = Status.ok_
status_of (err e) = Status.error_

-- The ping of Redis, where a client is injected.
abbrev pub redis_status : Option (Result (Unit {0})) → Status
redis_status none = Status.error_
redis_status (some ping) = status_of ping

abbrev pub is_up : Status → Bool
is_up Status.ok_ = true
is_up _ = false

abbrev pub overall : Bool → Status
overall fine = if fine then Status.ok_ else Status.degraded

pub record BillingHealth : Type 0 where
  pub status : Status
  pub service : String
  pub database : Status
  pub redis : Status
  pub rabbitmq : Status

-- `check` of billing-engine; `select` is what the query 'SELECT 1' gives.
abbrev pub billing_check :
    (select : Result (Unit {0}))
    → (redis : Option (Result (Unit {0}))) → (connected : Bool) → BillingHealth
billing_check select redis connected =
    let broker = if connected then Status.ok_ else Status.error_ in
    record {
      status = overall (is_up (status_of select) && is_up (redis_status redis) && is_up broker);
      service = "billing-engine";
      database = status_of select;
      redis = redis_status redis;
      rabbitmq = broker;
    }

pub record TenantHealth : Type 0 where
  pub status : Status
  pub service : String
  pub database : Status
  pub redis : Status

-- `check` of tenant-manager.
abbrev pub tenant_check :
    (select : Result (Unit {0})) → (redis : Option (Result (Unit {0}))) → TenantHealth
tenant_check select redis = record {
  status = overall (is_up (status_of select) && is_up (redis_status redis));
  service = "tenant-manager";
  database = status_of select;
  redis = redis_status redis;
}

pub record IdentityHealth : Type 0 where
  pub status : Status
  pub database : Status

-- `check` of identity-service.
abbrev pub identity_check : (select : Result (Unit {0})) → IdentityHealth
identity_check select = record {
  status = overall (is_up (status_of select));
  database = status_of select;
}
