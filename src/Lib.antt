-- ===== src/Lib.antt =====
-- saas-chassis: tenant-manager, billing-engine, identity-service and chassis-sdk.
--
-- Three NestJS services keep the tenants, their subscriptions and their users, and a SDK gives other
-- services tenant isolation, guards and feature flags. tenant-manager announces a new tenant to
-- billing-engine, which answers with its Stripe customer and reports each change of a subscription
-- as a subscription-status event; identity-service issues the tokens whose claims the gateway
-- forwards in headers that the guards of the SDK read.
--
-- Prelude, with its children: shared names, lists, texts, and `Action`, a method of a service: it
--   takes a state and gives a result or an exception with the state that is left, so that what
--   was written before a throw stays written.
-- External: what is not code of this repository. Repository is a table behind TypeORM with its
--   documented laws (IsTable); Redis is ioredis with its laws (IsRedis); Broker is a channel of
--   amqplib; Validation is class-validator. Repository/Memory and Redis/Memory show that the laws
--   can hold. Broker's publish_message is `publish` of
--   services/tenant-manager/src/common/messaging/rabbitmq-publisher.service.ts.
-- TenantManager: services/tenant-manager/src/modules. Entities are the entities, events and
--   bodies; State is the state of the service and its parameters; Plans is
--   plans/plans.service.ts; Features is features/features.service.ts (isFeatureEnabled is
--   is_feature_enabled, and so on); Features/Overrides is their abstract specification, a map
--   from a tenant and a feature to an override. Tenants is tenants/tenants.service.ts up to
--   updateTenant, and Tenants/Lifecycle its rest.
-- Billing: services/billing-engine/src/modules. Subscriptions and Invoices are the two services,
--   Webhook is stripe/stripe-webhook.controller.ts, Webhook/Recovery its events of payments, Revenue
--   is revenue/revenue.service.ts.
-- Identity: services/identity-service/src/modules. Users, Roles and Memberships are the services;
--   Auth with Auth/Credentials and Auth/Delegation is auth/auth.service.ts with the two
--   strategies, Auth/Interleaving its validateCredentials by single awaits, Auth/Passwords what it
--   has found, Auth/Sessions what a login issues, Duration its parseDurationToSeconds;
--   Impersonation is impersonation/impersonation.service.ts. Validation, here and in TenantManager,
--   is the DTO classes with their decorators.
-- Sdk: packages/chassis-sdk/src. Flags is services/feature-flag.service.ts with the gate's guard,
--   Guards the guards on headers, with the two guards of the identity service, and TenantAware is
--   database/tenant-aware.repository.ts and database/rls-connection.ts. A call of the SDK's flags
--   is one step: the two times and the outcome of its fetch are arguments. Web is the middleware,
--   interceptors, the filter and services/internal-http.service.ts, with the filter and the audit
--   interceptor of the identity service. Audit is the SDK's own audit interceptor,
--   services/audit-publisher.service.ts and the decorators.
-- Http: the answers of common/dto/api-response.dto.ts and the numbers of a query string. The
--   controllers are TenantManager/Api, Billing/Api and Identity/Api: a handler is a function of
--   the user of the verified token. TenantManager/Context is services/tenant-manager/src/common,
--   and Billing/Context and Identity/Context are its copies in the other two services.
-- Messaging, Health and Config: common/messaging/rabbitmq-publisher.service.ts,
--   health/health.controller.ts and config/app.config.ts of the three services.
-- System: tenant-manager and billing-engine as one relation of steps: requests that create a tenant
--   with no stripeCustomerId in the body, deliveries of the messages that a service has published,
--   and calls of the webhook. How a deployment routes a publication to a handler is not in the
--   repository, and the patterns of the handlers are not the routing keys: the relation lets each
--   message reach the handler for it, any number of times or never.
-- Modules named Tests run the definitions at concrete inputs.
--
-- Numbers are natural numbers, but for what parseInt reads of a query, and a remaining lifetime
-- is cut off at 0 as Math.max does; the rounding of numbers beyond 2 ^ 53 is left out. A date is
-- its milliseconds. The time, random texts, bcrypt, SHA-256, the signing of tokens, slugify,
-- class-validator with the ValidationPipe (External/Validation), and the Stripe SDK are
-- parameters. The one loop with fuel is the SCAN loop of invalidateTenantFeatureCache, which
-- Redis ends; fuel for the number of its calls is enough.
--
-- Not modelled: the Go services (services/api-gateway, services/audit-service), the C# ledger
-- (services/universal-ledger), migrations, entry points, logging, the order of lists but for
-- pages, the SDK's pagination query and pipe, and the conversion of a validated body to the
-- record that a handler takes. An operation runs as a whole: interleavings at its awaits are
-- modelled of validateCredentials only. The counter of failed log-ins never expires in the model:
-- incrementLoginAttempts calls EXPIRE, whose effect, the later removal of the key, or its removal at
-- once for a configured duration of 0, is left out. A null in a body is modelled for the fields that
-- updateTenant and `update` of the users take null for.
mod Prelude
pub mod Http
pub mod External
pub mod Messaging
pub mod Health
pub mod Config
pub mod TenantManager
pub mod Billing
pub mod Identity
pub mod Sdk
pub mod System
