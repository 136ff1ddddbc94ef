-- ===== src/Sdk/Audit.antt =====
-- packages/chassis-sdk/src: interceptors/audit.interceptor.ts, services/audit-publisher.service.ts,
-- and the decorators that read the context of a request.
use saas_chassis.Prelude.{
  ℕ, String, Bool, not, ◌||◌, Option, none, some, List, Result, ok, err, same_text, if◌then◌else◌,
  or_else, or_falsy, truthy, ◌>>◌,
}
use saas_chassis.Sdk.Guards.{split_header}
use saas_chassis.External.Broker.{Broker, Publisher, publish_message}

-- The headers that the gateway forwards, and the request id.
pub record GatewayHeaders : Type 0 where
  pub tenant_id : Option String
  pub tenant_slug : Option String
  pub user_id : Option String
  pub roles : Option String
  pub permissions : Option String
  pub is_platform_admin : Option String
  pub is_impersonating : Option String
  pub real_user_id : Option String
  pub request_id : Option String

pub record AuditEvent (Body : Type 0) : Type 0 where
  pub tenant_id : Option String
  pub user_id : Option String
  pub action : String
  pub resource_type : String
  pub resource_id : Option String
  pub changes : Body
  pub request_id : Option String
  pub service_name : String
  pub timestamp : Option ℕ

-- `timestamp: event.timestamp ?? new Date().toISOString()`
abbrev pub stamped : {Body : Type 0} → (now : ℕ) → AuditEvent Body → AuditEvent Body
stamped now event = record event { timestamp = some (or_else event.timestamp now) }

-- The options of AuditPublisherService.
pub record AuditOptions : Type 0 where
  pub rabbitmq_url : Option String
  pub enable_audit_logging : Bool
  pub service_name : Option String

module _ {Body : Type 0} (broker : Broker (AuditEvent Body))
    (connect : String → broker.Channel) where
  -- `onModuleInit`: no channel without a URL or with the audit log switched off.
  unfoldable pub on_module_init : Option AuditOptions → Publisher broker
  on_module_init none = none
  on_module_init (some options) = elim options.rabbitmq_url [
    | none ↦ none
    | some url ↦
        if not (truthy (some url)) || not options.enable_audit_logging
        then none
        else some (connect url)
  ]

  -- `onModuleDestroy`: the channel is closed, then its connection, where there are such; a throw of
  -- the first leaves the second open. Both fields stay set.
  unfoldable pub on_module_destroy :
      (close_channel close_connection : broker.Channel → Result (Unit {0}) × broker.Channel)
      → Publisher broker
      → Result (Unit {0}) × Publisher broker
  on_module_destroy close_channel close_connection none = (ok tt, none)
  on_module_destroy close_channel close_connection (some c) =
      let (r, d) = (close_channel >> close_connection) c in (r, some d)

  -- `publish`: a failure of the channel is logged, never thrown.
  abbrev pub publish : (now : ℕ) → AuditEvent Body → Publisher broker → Publisher broker
  publish now event publisher =
      publish_message broker
        (record { exchange = "chassis.audit"; routing_key = ""; message = stamped now event })
        publisher

  -- `intercept` after the handler has ended with `ended`, whose data has the id `resource_id`.
  -- `audit_action` is the metadata of the handler; `resource_type` is the name of the class without
  -- "Controller"; `audit` is the publisher, if one was injected.
  unfoldable pub intercept :
      {A : Type 0} (now : ℕ) (audit_action : Option String) (resource_type : String)
      → GatewayHeaders
      → Body
      → Option AuditOptions
      → (resource_id : A → Option String) → Result A
      → Option (Publisher broker)
      → Option (Publisher broker)
  intercept now audit_action resource_type headers body options resource_id ended none = none
  intercept now none resource_type headers body options resource_id ended (some audit) = some audit
  intercept now (some action) resource_type headers body options resource_id (err e) (some audit) =
      some audit
  intercept now (some action) resource_type headers body options resource_id (ok a) (some audit) =
      if truthy (some action)
      then some (
          publish now
            (record {
              tenant_id = headers.tenant_id;
              user_id = headers.user_id;
              action = action;
              resource_type = resource_type;
              resource_id = resource_id a;
              changes = body;
              request_id = headers.request_id;
              service_name = elim options [
                | none ↦ "unknown"
                | some o ↦ or_falsy o.service_name "unknown"
              ];
              timestamp = none;
            })
            audit)
      else some audit

pub record TenantContext : Type 0 where
  pub tenant_id : Option String
  pub tenant_slug : Option String
  pub user_id : Option String
  pub roles : List String
  pub is_platform_admin : Bool
  pub permissions : List String

-- CurrentTenant
unfoldable pub current_tenant : GatewayHeaders → TenantContext
current_tenant headers = record {
  tenant_id = headers.tenant_id;
  tenant_slug = headers.tenant_slug;
  user_id = headers.user_id;
  roles = split_header headers.roles;
  is_platform_admin = same_text headers.is_platform_admin (some "true");
  permissions = split_header headers.permissions;
}

pub record UserContext : Type 0 where
  pub user_id : Option String
  pub email : String
  pub display_name : String
  pub is_platform_admin : Bool
  pub is_impersonating : Bool
  pub real_user_id : Option String

-- CurrentUser; `email` and `display_name` are those of `request.user`.
unfoldable pub current_user : (email display_name : Option String) → GatewayHeaders → UserContext
current_user email display_name headers = record {
  user_id = headers.user_id;
  email = or_falsy email "";
  display_name = or_falsy display_name "";
  is_platform_admin = same_text headers.is_platform_admin (some "true");
  is_impersonating = same_text headers.is_impersonating (some "true");
  real_user_id = headers.real_user_id;
}
