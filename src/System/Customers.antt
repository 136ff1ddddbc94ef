-- ===== src/System/Customers.antt =====
-- tenant-manager and billing-engine together: the Stripe customer of a tenant.
use saas_chassis.Prelude.{
  ◌≡◌, ◌⊎◌, refl, ap, ◌∙◌, inl, inr, String, none, some, Elem, arith, ◌==◌, eq_iff, Result-cases,
  IsPreorder, if◌then◌else◌,
}
use saas_chassis.External.Repository.{IsTable}
use saas_chassis.External.Repository.Lookup.{Every, IsUnique}
use saas_chassis.External.Broker.{
  Envelope, IsBroker, sent_by, publish_message, publish_message-sent,
}
use saas_chassis.TenantManager.Entities as Tenants
use saas_chassis.TenantManager.State as TenantState
use saas_chassis.TenantManager.Tenants.Lifecycle.Rows.{
  handle_subscription_status-Every, handle_billing_synced-Every, with_plan-keeps,
}
use saas_chassis.TenantManager.Tenants.Rows.{create_tenant-Keeps}
use saas_chassis.TenantManager.Tenants.Lifecycle.Consistency.{same_tenant}
use saas_chassis.Billing.Entities as Billing
use saas_chassis.Billing.State as BillingState
use saas_chassis.Billing.Subscriptions.{of_tenant, new_subscription, create}
use saas_chassis.Billing.Webhook.{on_tenant_provisioned, handle_webhook}
use saas_chassis.Billing.Webhook.Owners.{
  HasOwner, HasOwner-IsPreorder, same_subscription_sym, handle_webhook-KeepsOwners,
}
use saas_chassis.External.Repository.Continuity.{
  Continues, Continues-IsPreorder, save_new-Continues,
}
use saas_chassis.Billing.Api.Own.{same_subscription}
use saas_chassis.System.{
  System, Step, create_request, tenant_provisioned, billing_synced, subscription_status, webhook,
  Reach, here, next,
}

module _ (be : BillingState.Env) where
  -- The billing engine has the subscription of the tenant with the Stripe customer.
  pub record IsBacked (id customer : String) (s : be.subscriptions.Store) : Type 0 where
    pub subscription : Billing.Subscription
    pub stored : be.subscriptions.Has s subscription
    pub tenant : subscription.tenant_id ≡ id
    pub stripe_customer : subscription.stripe_customer_id ≡ customer

  -- What the tenant manager knows of the customer of a tenant is what the billing engine has.
  abbrev pub IsSettled : be.subscriptions.Store → Tenants.Tenant → Type 0
  IsSettled s t =
      (t.stripe_customer_id ≡ none)
      ⊎ ((c : String) × (t.stripe_customer_id ≡ some c) × IsBacked t.id c s)

  -- No subscription is lost or gets another tenant or customer.
  abbrev Keeps : (s s' : be.subscriptions.Store) → Type 0
  Keeps = Continues same_subscription be.subscriptions HasOwner

  IsBacked-Keeps :
      (id c : String) (s s' : be.subscriptions.Store)
      → IsUnique same_subscription be.subscriptions s
      → Continues same_subscription be.subscriptions HasOwner s s'
      → IsBacked id c s
      → IsBacked id c s'
  IsBacked-Keeps id c s s' u k b =
      let (y, has, owner) = k.kept u b.subscription b.stored in
      record {
        subscription = y;
        stored = has;
        tenant = owner.tenant ∙ b.tenant;
        stripe_customer = owner.customer ∙ b.stripe_customer;
      }

module _ (be : BillingState.Env) (ts : IsTable same_subscription be.subscriptions)
    (law : IsBroker be.broker) (msg : Billing.TenantProvisionedEvent)
    (w : BillingState.World be) where
  -- What the consumer of tenant.provisioned leaves: the state, or a new subscription that is
  -- announced if its insertion returns.
  data Outcome (w' : BillingState.World be) : Type 0 where
    none_made : Keeps be w.subscriptions w'.subscriptions → w'.publisher ≡ w.publisher → Outcome w'
    made :
        (customer : String)
        → Keeps be w.subscriptions w'.subscriptions
        → IsBacked be msg.tenant_id customer w'.subscriptions
        → ((m : Envelope Billing.Message)
            → Elem m (sent_by be.broker w'.publisher)
            → (m.message ≡ Billing.billing_synced msg.tenant_id customer)
              ⊎ Elem m (sent_by be.broker w.publisher))
        → Outcome w'

  stores : IsPreorder (Keeps be)
  stores = Continues-IsPreorder same_subscription be.subscriptions HasOwner HasOwner-IsPreorder

  unchanged :
      (w' : BillingState.World be)
      → w'.subscriptions ≡ w.subscriptions
      → w'.publisher ≡ w.publisher
      → Outcome w'
  unchanged w' e k = none_made (rw e (stores.reflexive w.subscriptions)) k

  on_tenant_provisioned-Outcome : Outcome (on_tenant_provisioned be msg w).1
  unfolding on_tenant_provisioned create
  on_tenant_provisioned-Outcome =
      let w' = (on_tenant_provisioned be msg w).1 in
      elim (Result-cases (be.create_customer msg.admin_email msg.slug msg.tenant_id)) [
        | inr (e, q) ↦ unchanged w' (ground arith) (ground arith)
        | inl (customer, q) ↦
            let x : Billing.Subscription = new_subscription (record {
              tenant_id = msg.tenant_id;
              stripe_customer_id = customer;
              plan_code = msg.plan;
              status = some (if msg.plan == "free" then "active" else "trialing");
              stripe_subscription_id = none;
            }) in
            let saved = be.subscriptions.save x w.subscriptions in
            elim (Result-cases
              (be.subscriptions.find_one (of_tenant msg.tenant_id) w.subscriptions)) [
                | inr (e, f) ↦ unchanged w' (ground arith) (ground arith)
                | inl (some old, f) ↦ unchanged w' (ground arith) (ground arith)
                | inl (none, f) ↦
                    let stored : w'.subscriptions ≡ saved.1 =
                      ground (arith, Result-cases saved.0) in
                    let kept : Keeps be w.subscriptions w'.subscriptions = rw stored (
                      save_new-Continues ts HasOwner-IsPreorder same_subscription_sym
                        (of_tenant msg.tenant_id) x w.subscriptions f
                        (λ y own. same_subscription_sym x y own)) in
                    elim (Result-cases saved.0) [
                      | inr (e, k) ↦ none_made kept (ground arith)
                      | inl (_, k) ↦
                          let has_x =
                            (ts.save_has x w.subscriptions saved.1 x (ap (λ r. (r, saved.1)) k)).1
                              (inl refl) in
                          let told : w'.publisher
                              ≡ publish_message be.broker
                                  (record {
                                    exchange = "chassis.tenants";
                                    routing_key = "billing.synced";
                                    message = Billing.billing_synced msg.tenant_id customer;
                                  })
                                  w.publisher =
                            ground arith in
                          made customer kept
                            (rw stored (record {
                              subscription = x;
                              stored = has_x;
                              tenant = refl;
                              stripe_customer = refl;
                            }))
                            (λ m has.
                              elim (publish_message-sent be.broker law _ m w.publisher
                                (rw told at has)) [
                                  | inl e ↦ inl (ap (λ u. u.message) e)
                                  | inr old ↦ inr old
                                ])
                    ]
              ]
      ]

module _ (tm : TenantState.Env) (be : BillingState.Env) where
  -- What the two services agree on: each announced customer is one of the billing engine, and so is
  -- each customer that the tenant manager knows.
  pub record Agrees (s : System tm be) : Type 0 where
    pub unique : IsUnique same_subscription be.subscriptions s.billing.subscriptions
    pub announced :
        (m : Envelope Billing.Message) (id customer : String)
        → Elem m (sent_by be.broker s.billing.publisher)
        → m.message ≡ Billing.billing_synced id customer
        → IsBacked be id customer s.billing.subscriptions
    pub settled : Every tm.tenants (IsSettled be s.billing.subscriptions) s.tenants.tenants

module _ (tm : TenantState.Env) (be : BillingState.Env) (tt : IsTable same_tenant tm.tenants)
    (ts : IsTable same_subscription be.subscriptions) (law : IsBroker be.broker) where
  IsSettled-Keeps :
      (s s' : be.subscriptions.Store) (w : tm.tenants.Store)
      → IsUnique same_subscription be.subscriptions s
      → Keeps be s s'
      → Every tm.tenants (IsSettled be s) w
      → Every tm.tenants (IsSettled be s') w
  IsSettled-Keeps s s' w u k h = record {
    at = λ x has. elim (h.at x has) [
      | inl e ↦ inl e
      | inr (c, e, b) ↦ inr (c, e, IsBacked-Keeps be x.id c s s' u k b)
    ];
  }

  provisioned-Agrees :
      (msg : Billing.TenantProvisionedEvent) (s : System tm be)
      → Agrees tm be s
      → Agrees tm be (record s { billing = (on_tenant_provisioned be msg s.billing).1 })
  provisioned-Agrees msg s h =
      let v = (on_tenant_provisioned be msg s.billing).1 in
      elim (on_tenant_provisioned-Outcome be ts law msg s.billing) [
        | none_made keeps same ↦ record {
          unique = keeps.unique h.unique;
          announced = λ m id c has is.
              IsBacked-Keeps be id c s.billing.subscriptions v.subscriptions h.unique keeps
                (h.announced m id c (rw same at has) is);
          settled =
              IsSettled-Keeps s.billing.subscriptions v.subscriptions s.tenants.tenants h.unique
                keeps h.settled;
        }
        | made customer keeps backed told ↦ record {
          unique = keeps.unique h.unique;
          announced = λ m id c has is. elim (told m has) [
            | inl own ↦
                let same_id : id ≡ msg.tenant_id = cc in
                let same_customer : c ≡ customer = cc in rw (same_id, same_customer) backed
            | inr old ↦
                IsBacked-Keeps be id c s.billing.subscriptions v.subscriptions h.unique keeps
                  (h.announced m id c old is)
          ];
          settled =
              IsSettled-Keeps s.billing.subscriptions v.subscriptions s.tenants.tenants h.unique
                keeps h.settled;
        }
      ]

  Step-Agrees : {s u : System tm be} → Step tm be s u → Agrees tm be s → Agrees tm be u
  Step-Agrees {s} (create_request uuid user dto plain) h = record {
    unique = h.unique;
    announced = h.announced;
    settled =
        (create_tenant-Keeps tm tt (IsSettled be s.billing.subscriptions) dto
            (λ x e. inl (e ∙ plain)) uuid user s.tenants).every
          h.settled;
  }
  Step-Agrees {s} (tenant_provisioned e id slug plan email told is) h =
      provisioned-Agrees (record { tenant_id = id; slug = slug; plan = plan; admin_email = email })
        s h
  Step-Agrees {s} (billing_synced e id customer told is) h = record {
    unique = h.unique;
    announced = h.announced;
    settled =
        handle_billing_synced-Every tm tt (IsSettled be s.billing.subscriptions) s.tenants h.settled
          id customer
          (λ x own known.
            let same_id : x.id ≡ id = (eq_iff x.id id).0 own in
            inr (customer, refl, rw same_id (h.announced e id customer told is)));
  }
  Step-Agrees {s} (subscription_status e now id status plan told is) h = record {
    unique = h.unique;
    announced = h.announced;
    settled =
        handle_subscription_status-Every tm tt (IsSettled be s.billing.subscriptions) s.tenants
          h.settled now (record { tenant_id = id; status = status; plan = plan })
          (λ x known.
            let (same_id, same_customer) = with_plan-keeps now status plan x in
            elim known [
              | inl e ↦ inl (same_customer ∙ e)
              | inr (c, e, b) ↦ inr (c, same_customer ∙ e, rw same_id b)
            ]);
  }
  Step-Agrees {s} (webhook now raw_body signature plain) h =
      let v = (handle_webhook be now raw_body signature s.billing).1 in
      let k = handle_webhook-KeepsOwners be ts law now raw_body signature plain s.billing in
      record {
        unique = k.subscriptions.unique h.unique;
        announced = λ m id c has is.
            IsBacked-Keeps be id c s.billing.subscriptions v.subscriptions h.unique k.subscriptions
              (h.announced m id c (k.announced m id c is has) is);
        settled =
            IsSettled-Keeps s.billing.subscriptions v.subscriptions s.tenants.tenants h.unique
              k.subscriptions h.settled;
      }

  -- Requests that create tenants with no Stripe customer in the body, deliveries of the messages that
  -- the two services have published to the handlers for them, in any order and any number of times,
  -- none included, and calls of the webhook without an event `customer.created` keep the agreement, with at most one subscription of a tenant: a tenant of
  -- which the tenant manager knows a Stripe customer has, in the billing engine, a subscription with
  -- that customer, and so has each tenant whose customer the billing engine has announced.
  pub Reach-Agrees : {s u : System tm be} → Reach tm be s u → Agrees tm be s → Agrees tm be u
  Reach-Agrees here h = h
  Reach-Agrees (next before step) h = Step-Agrees step (Reach-Agrees before h)
