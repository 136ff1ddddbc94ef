-- ===== src/Sdk/Tests/Audit.antt =====
-- The audit log of packages/chassis-sdk at concrete requests.
use saas_chassis.Prelude.{
  ℕ, String, ◌≡◌, refl, true, false, none, some, Option, [], ◌∷◌, Result, ok, err, error,
}
use saas_chassis.External.Broker.{Broker, memory_broker, Publisher}
use saas_chassis.Sdk.Guards.{split}
use saas_chassis.Sdk.Audit.{
  GatewayHeaders, AuditEvent, AuditOptions, on_module_init, on_module_destroy, intercept,
  current_tenant, current_user,
}

abbrev broker : Broker (AuditEvent ℕ)
broker = memory_broker

abbrev connect : String → broker.Channel
connect url = []

abbrev headers : GatewayHeaders
headers = record {
  tenant_id = some "t1";
  tenant_slug = some "acme";
  user_id = some "u1";
  roles = some "owner,clerk";
  permissions = none;
  is_platform_admin = some "false";
  is_impersonating = none;
  real_user_id = none;
  request_id = some "r1";
}

abbrev options : AuditOptions
options = record {
  rabbitmq_url = some "amqp://mq";
  enable_audit_logging = true;
  service_name = some "ledger";
}

abbrev event : AuditEvent ℕ
event = record {
  tenant_id = some "t1";
  user_id = some "u1";
  action = "entry:create";
  resource_type = "Entry";
  resource_id = some "e1";
  changes = 5;
  request_id = some "r1";
  service_name = "ledger";
  timestamp = some 700;
}

abbrev after : Result String → Option (Publisher broker)
after ended =
    intercept broker connect 700 (some "entry:create") "Entry" headers 5 (some options)
      (λ id. some id) ended (some (on_module_init broker connect (some options)))

-- A handler that returns is published once.
published :
    after (ok "e1")
    ≡ some (some (record { exchange = "chassis.audit"; routing_key = ""; message = event } ∷ []))
unfolding intercept on_module_init
published = refl

-- A handler that throws is not.
unpublished : after (err (error "no")) ≡ some (some [])
unfolding intercept on_module_init
unpublished = refl

switched_off :
    on_module_init broker connect (some (record options { enable_audit_logging = false })) ≡ none
unfolding on_module_init
switched_off = refl

tenant_context : (current_tenant headers).roles ≡ ("owner" ∷ "clerk" ∷ [])
unfolding current_tenant split
tenant_context = refl

user_context : (current_user none (some "") headers).is_impersonating ≡ false
unfolding current_user
user_context = refl

-- A channel that does not close leaves its connection open, and the throw goes on.
unclosed :
    on_module_destroy broker connect (λ c. (err (error "busy"), c)) (λ c. (ok tt, [])) (some [])
    ≡ (err (error "busy"), some [])
unfolding on_module_destroy
unclosed = refl
