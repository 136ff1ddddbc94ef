-- ===== src/Billing/Webhook/Idempotence.antt =====
-- services/billing-engine/src/modules/stripe/stripe-webhook.controller.ts: an event that was
-- processed is not processed again.
use saas_chassis.Prelude.{
  ℕ, ◌≡◌, refl, ap, ◌∙◌, ◌⊎◌, inl, inr, String, Bool, true, false, Option, none, some, ok, arith,
  ◌==◌, eq_iff, Result-cases, Option-cases, Bool-cases, or_else, Exception, message_of, is_some,
}
use saas_chassis.External.Repository.{IsTable}
use saas_chassis.Billing.Entities.{WebhookEvent, Event}
use saas_chassis.Billing.State.{Env, World}
use saas_chassis.Billing.Webhook.Tables.{process_event-Keeps}
use saas_chassis.Billing.Webhook.{
  process_event, Response, process_stored, store_and_process, already_processed, received,
  has_event_id, handle_webhook,
}

-- The primary key of the table webhook_events.
abbrev pub same_event : WebhookEvent → WebhookEvent → Bool
same_event x y = x.stripe_event_id == y.stripe_event_id

module _ (env : Env) (t : IsTable same_event env.webhooks) (now : ℕ) (event : Event) where
  -- What an update sets on the rows of the event.
  abbrev Outcome : (WebhookEvent → WebhookEvent) → Type 0
  Outcome f =
      ((x : WebhookEvent) → (f x).stripe_event_id ≡ x.stripe_event_id)
      × (((x : WebhookEvent) → (f x).processed ≡ true)
          ⊎ ((x : WebhookEvent) → is_some (f x).error_message ≡ true))

  -- What the last update of `process_stored` has done, once it returns.
  process_stored-last :
      (w w' : World env)
      → process_stored env now event w ≡ (ok tt, w')
      → (f : WebhookEvent → WebhookEvent) × Outcome f
        × (s : env.webhooks.Store) × ((y : WebhookEvent)
            → env.webhooks.Has w.webhooks y
            → env.webhooks.Has s y)
        × (env.webhooks.update (has_event_id event.id) f s ≡ (ok tt, w'.webhooks))
  unfolding process_stored
  process_stored-last w w' h =
      let kept = process_event-Keeps env now event.body w in
      let done : WebhookEvent → WebhookEvent =
        λ x. record x { processed = true; processed_at = some now } in
      let failed : Exception → WebhookEvent → WebhookEvent =
        λ e x. record x { error_message = some (message_of e) } in
      let first = env.webhooks.update (has_event_id event.id) done w.webhooks in
      elim (Result-cases (process_event env now event.body w).0) [
        | inr (e, q) ↦
            (failed e, (λ x. refl, inr (λ x. refl)), w.webhooks, λ y has. has, ground arith)
        | inl (u, q) ↦ elim (Result-cases first.0) [
          | inl (v, k) ↦
              (done, (λ x. refl, inl (λ x. refl)), w.webhooks, λ y has. has, ground arith)
          | inr (e, k) ↦ (
            failed e,
            (λ x. refl, inr (λ x. refl)),
            first.1,
            λ y has. (t.update_err (has_event_id event.id) done w.webhooks e y k).1 has,
            ground arith,
          )
        ]
      ]

  -- After an upsert of the event, the table has a row with its id.
  upsert-has :
      (s s' : env.webhooks.Store) (found : Option WebhookEvent) (x : WebhookEvent)
      (f : WebhookEvent → WebhookEvent)
      → x.stripe_event_id ≡ event.id
      → ((u : WebhookEvent) → (f u).stripe_event_id ≡ u.stripe_event_id)
      → env.webhooks.find_one (has_event_id event.id) s ≡ ok found
      → env.webhooks.upsert x f s ≡ (ok tt, s')
      → (y : WebhookEvent) × env.webhooks.Has s' y × (has_event_id event.id y ≡ true)
  upsert-has s s' none x f key fk q h = (
    x,
    (t.upsert_new x f s s' x
          (λ z has.
            let n = t.find_one_none (has_event_id event.id) s z q has in
            ground (
              arith,
              eq_iff z.stripe_event_id event.id,
              eq_iff x.stripe_event_id z.stripe_event_id,
            ))
          h).1
        (inl refl),
    ground (arith, eq_iff x.stripe_event_id event.id),
  )
  upsert-has s s' (some z) x f key fk q h =
      let (has, k) = t.find_one_some (has_event_id event.id) s z q in
      let same : same_event x z ≡ true =
        ground
          (arith, eq_iff z.stripe_event_id event.id, eq_iff x.stripe_event_id z.stripe_event_id) in
      (
        f z,
        (t.upsert_old x f s s' (f z) z has same h).1 (z, has, rw same refl),
        ground (arith, fk z),
      )

  -- Once the event is stored and the handler has returned, the row that a query finds is processed,
  -- or carries the message of an error.
  store_and_process-row :
      (w w' : World env) (answer : Response) (found next : Option WebhookEvent)
      → env.webhooks.find_one (has_event_id event.id) w.webhooks ≡ ok found
      → store_and_process env now event w ≡ (ok answer, w')
      → env.webhooks.find_one (has_event_id event.id) w'.webhooks ≡ ok next
      → (y : WebhookEvent) × (next ≡ some y)
        × ((y.processed ≡ true) ⊎ (is_some y.error_message ≡ true))
  unfolding store_and_process
  store_and_process-row w w' answer found next q h k =
      let row : WebhookEvent = record {
        stripe_event_id = event.id;
        payload = event.body;
        processed = false;
        processed_at = none;
        error_message = none;
      } in
      let again : WebhookEvent → WebhookEvent =
        λ x. record x { payload = event.body; processed = false } in
      let up = env.webhooks.upsert row again w.webhooks in
      let w1 : World env = record w { webhooks = up.1 } in
      let upserted : up ≡ (ok tt, up.1) = elim (Result-cases up.0) [
        | inl (_, e) ↦ ground arith
        | inr (e, z) ↦ ground arith
      ] in
      let processed : process_stored env now event w1 ≡ (ok tt, w') =
        elim (Result-cases (process_stored env now event w1).0) [
          | inl (_, e) ↦ ground arith
          | inr (e, z) ↦ ground arith
        ] in
      let (f, (same_id, outcome), s, kept, last) = process_stored-last w1 w' processed in
      let (y, has, key) = upsert-has w.webhooks up.1 found row again refl (λ u. refl) q upserted in
      elim (Option-cases next) [
        | inl n ↦
            let has_f =
              (t.update_has (has_event_id event.id) f s w'.webhooks (f y) last).1
                (y, kept y has, rw key refl) in
            let absent =
              t.find_one_none (has_event_id event.id) w'.webhooks (f y) (k ∙ ap ok n) has_f in
            cc (same_id y)
        | inr (z, n) ↦
            let (has_z, key_z) =
              t.find_one_some (has_event_id event.id) w'.webhooks z (k ∙ ap ok n) in
            let (u, has_u, e) =
              (t.update_has (has_event_id event.id) f s w'.webhooks z last).0 has_z in
            (
              z,
              n,
              elim (Bool-cases (has_event_id event.id u)) [
                | inl b ↦
                    let z_f : z ≡ f u = rw b at e in
                    elim outcome [
                      | inl o ↦ inl (ap (λ x. x.processed) z_f ∙ o u)
                      | inr o ↦ inr (ap (λ x. is_some x.error_message) z_f ∙ o u)
                    ]
                | inr b ↦ let z_u : z ≡ u = rw b at e in cc
              ],
            )
      ]

module _ (env : Env) (t : IsTable same_event env.webhooks) (raw_body signature : String) where
  -- When a delivery was answered 200 as new, and the same body and signature are delivered again
  -- over the table of webhook events that it left, the second delivery, if it returns, is answered
  -- as a duplicate and changes nothing, or that table has an unprocessed event with the message of
  -- an error.
  pub handle_webhook-handle_webhook :
      (now later : ℕ) (w w' v v' : World env) (answer : Response)
      → handle_webhook env now raw_body signature w ≡ (ok (received false), w')
      → v.webhooks ≡ w'.webhooks
      → handle_webhook env later raw_body signature v ≡ (ok answer, v')
      → ((answer ≡ received true) × (v' ≡ v))
        ⊎ ((y : WebhookEvent) × env.webhooks.Has w'.webhooks y
            × (y.processed ≡ false)
            × (is_some y.error_message ≡ true))
  unfolding handle_webhook
  handle_webhook-handle_webhook now later w w' v v' answer first same second =
      elim (Result-cases (env.construct_event raw_body signature (or_else env.webhook_secret ""))) [
        | inr (e, q) ↦ ground arith
        | inl (event, q) ↦
            elim (Result-cases (env.webhooks.find_one (has_event_id event.id) w.webhooks)) [
              | inr (e, k) ↦ ground arith
              | inl (found, k) ↦
                  elim (Result-cases (env.webhooks.find_one (has_event_id event.id) v.webhooks)) [
                    | inr (e, l) ↦ ground arith
                    | inl (next, l) ↦
                        let l' : env.webhooks.find_one (has_event_id event.id) w'.webhooks
                            ≡ ok next =
                          cc in
                        let stored : store_and_process env now event w ≡ (ok (received false), w') =
                          elim (Bool-cases (already_processed found)) [
                            | inl b ↦ ground arith
                            | inr b ↦ ground arith
                          ] in
                        let (y, e, o) =
                          store_and_process-row env t now event w w' (received false) found next k
                            stored l' in
                        let (has, _) =
                          t.find_one_some (has_event_id event.id) w'.webhooks y (l' ∙ ap ok e) in
                        elim (Bool-cases y.processed) [
                          | inl p ↦ inl (ground arith)
                          | inr p ↦ inr (y, has, p, elim o [ inl c ↦ cc | inr c ↦ c ])
                        ]
                  ]
            ]
      ]
