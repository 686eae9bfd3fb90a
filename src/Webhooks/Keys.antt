-- ===== src/Webhooks/Keys.antt =====
-- The keys of the delivery queue over histories.
use blink_lnurl_server.Prelude.{
  ℕ, ◌+◌, ◌-◌, ◌<◌, ◌≡◌, refl, Bool-cases, inl, inr, Bool, true, false, not, none, some, List, [],
  ◌∷◌, map, arith, is_empty, retain, Text, all, Result, ok, err, is_some,
}
use blink_lnurl_server.Sqlite.Query.{exists, update, delete}
use blink_lnurl_server.Sqlite.Query.Keys.{Distinct, Distinct-delete, Distinct-update}
use blink_lnurl_server.Payments.{
  NewWebhookDelivery, WebhookDelivery, DeliveryRow, WebhookConfig, Store,
}
use blink_lnurl_server.Payments.Deliveries.{
  largest_id, delivers, insert_delivery, insert_deliveries, insert_webhook_deliveries, is_first,
  claim_delivery, take_pending_webhook_deliveries, delivery_is, update_webhook_delivery_success,
  update_webhook_delivery_failure, has_id, unclaim_webhook_deliveries, older_than,
  delete_webhook_deliveries_older_than, delete_webhook_delivery, park_webhook_delivery,
}
use blink_lnurl_server.Webhooks.{
  WebhookError, send_webhook, after_send, process_webhook_delivery, release,
  process_pending_webhook_deliveries, cleanup_old_webhook_deliveries, DeliveryCall, notifies, polls,
  attempts, cleans, delivery_step, delivery_run,
}

-- `P` outlasts everything that the calls do to the queue: updates that keep the keys, deletions, and
-- insertions.
pub record KeepsQueue (P : List DeliveryRow → Type 0) : Type 0 where
  pub inserted :
      (now : ℕ) (d : NewWebhookDelivery) (rows : List DeliveryRow)
      → P rows
      → P (insert_delivery now d rows)
  pub updated :
      (q : DeliveryRow → Bool) (f : DeliveryRow → DeliveryRow) (rows : List DeliveryRow)
      → ((r : DeliveryRow) → (f r).delivery.id ≡ r.delivery.id)
      → ((r : DeliveryRow) → (f r).delivery.identifier ≡ r.delivery.identifier)
      → ((r : DeliveryRow) → (f r).delivery.domain ≡ r.delivery.domain)
      → ((r : DeliveryRow) → is_some r.succeeded_at ≡ true → is_some (f r).succeeded_at ≡ true)
      → P rows
      → P (update q f rows)

-- `P` outlasts the deletions too.
abbrev pub KeepsDeleted : (List DeliveryRow → Type 0) → Type 0
KeepsDeleted P = (q : DeliveryRow → Bool) (rows : List DeliveryRow) → P rows → P (delete q rows)

-- The call deletes nothing.
abbrev pub deletes_nothing : DeliveryCall → Bool
deletes_nothing (notifies now deliveries) = true
deletes_nothing (polls now permits) = true
deletes_nothing (attempts now client delivery none) = is_some delivery.url
deletes_nothing (attempts now client delivery (some config)) = true
deletes_nothing (cleans now ttl_ms) = false

module _ (P : List DeliveryRow → Type 0) (k : KeepsQueue P) where
  abbrev On : Store → Type 0
  On s = P s.webhook_deliveries

  inserted-On :
      (now : ℕ) (ds : List NewWebhookDelivery) (rows : List DeliveryRow)
      → P rows
      → P (insert_deliveries now ds rows)
  unfolding insert_deliveries
  inserted-On now [] rows p = p
  inserted-On now (d ∷ ds) rows p =
      inserted-On now ds (insert_delivery now d rows) (k.inserted now d rows p)

  polled-On :
      (now : ℕ) (permits : Text → Bool) (s : Store)
      → On s
      → On (process_pending_webhook_deliveries now permits s).1
  unfolding process_pending_webhook_deliveries take_pending_webhook_deliveries release
      unclaim_webhook_deliveries
  polled-On now permits s p =
      let taken = take_pending_webhook_deliveries now s in
      let claimed : On taken.1 =
        k.updated (is_first now s.webhook_deliveries) (claim_delivery now) s.webhook_deliveries
          (λ r. refl) (λ r. refl) (λ r. refl) (λ r h. h) p in
      let ids = map (λ d. d.id) (retain (λ d. not (permits d.domain)) taken.0) in
      elim (Bool-cases (is_empty ids)) [
        | inl all_permitted ↦ rw all_permitted claimed
        | inr some_refused ↦ rw some_refused (
            k.updated (has_id ids) (λ r. record r { claimed_at = none }) taken.1.webhook_deliveries
              (λ r. refl) (λ r. refl) (λ r. refl) (λ r h. h) claimed)
      ]

  sent-On :
      (now : ℕ) (delivery : WebhookDelivery) (config : WebhookConfig)
      (r : Result WebhookError (Unit {0})) (s : Store)
      → On s
      → On (after_send now delivery config r s)
  unfolding after_send update_webhook_delivery_success update_webhook_delivery_failure
  sent-On now delivery config (ok done) s p =
      k.updated (delivery_is delivery.id) _ s.webhook_deliveries (λ r. refl) (λ r. refl) (λ r. refl)
        (λ r h. refl) p
  sent-On now delivery config (err e) s p =
      k.updated (delivery_is delivery.id) _ s.webhook_deliveries (λ r. refl) (λ r. refl) (λ r. refl)
        (λ r h. h) p

  pub delivery_step-keeps :
      (c : DeliveryCall) (s : Store) → deletes_nothing c ≡ true → On s → On (delivery_step c s)
  unfolding delivery_step process_webhook_delivery insert_webhook_deliveries park_webhook_delivery
  delivery_step-keeps (notifies now ds) s q p = inserted-On now ds s.webhook_deliveries p
  delivery_step-keeps (polls now permits) s q p = polled-On now permits s p
  delivery_step-keeps (attempts now client delivery none) s q p = rw q (
      k.updated (delivery_is delivery.id) _ s.webhook_deliveries (λ r. refl) (λ r. refl) (λ r. refl)
        (λ r h. h) p)
  delivery_step-keeps (attempts now client delivery (some config)) s q p =
      sent-On now delivery config (send_webhook client config.url delivery.payload config.secret) s
        p
  delivery_step-keeps (cleans now ttl_ms) s q p = absurd (cc q)

  pub delivery_step-keeps_all :
      (c : DeliveryCall) (s : Store) → KeepsDeleted P → On s → On (delivery_step c s)
  unfolding delivery_step process_webhook_delivery delete_webhook_delivery
      cleanup_old_webhook_deliveries delete_webhook_deliveries_older_than
  delivery_step-keeps_all (attempts now client delivery none) s d p =
      elim (Bool-cases (is_some delivery.url)) [
        | inl attempted ↦ delivery_step-keeps (attempts now client delivery none) s attempted p
        | inr fresh ↦ rw fresh (d (delivery_is delivery.id) s.webhook_deliveries p)
      ]
  delivery_step-keeps_all (cleans now ttl_ms) s d p =
      d (older_than (now - ttl_ms)) s.webhook_deliveries p
  delivery_step-keeps_all (notifies now ds) s d p = delivery_step-keeps (notifies now ds) s refl p
  delivery_step-keeps_all (polls now permits) s d p =
      delivery_step-keeps (polls now permits) s refl p
  delivery_step-keeps_all (attempts now client delivery (some config)) s d p =
      delivery_step-keeps (attempts now client delivery (some config)) s refl p

  pub delivery_run-keeps_all :
      (calls : List DeliveryCall) (s : Store) → KeepsDeleted P → On s → On (delivery_run calls s)
  unfolding delivery_run
  delivery_run-keeps_all [] s d p = p
  delivery_run-keeps_all (c ∷ calls) s d p =
      delivery_run-keeps_all calls (delivery_step c s) d (delivery_step-keeps_all c s d p)

  pub delivery_run-keeps :
      (calls : List DeliveryCall) (s : Store)
      → all deletes_nothing calls ≡ true
      → On s
      → On (delivery_run calls s)
  unfolding delivery_run all
  delivery_run-keeps [] s q p = p
  delivery_run-keeps (c ∷ calls) s q p =
      delivery_run-keeps calls (delivery_step c s) (ground arith)
        (delivery_step-keeps c s (ground arith) p)

-- The payment hash and domain of a delivery, and its id.
abbrev pub same_delivery : DeliveryRow → DeliveryRow → Bool
same_delivery r x = delivers r.delivery.identifier r.delivery.domain x

abbrev pub same_id : DeliveryRow → DeliveryRow → Bool
same_id r x = delivery_is r.delivery.id x

larger-fresh :
    (n : ℕ) (rows : List DeliveryRow) → largest_id rows < n → exists (delivery_is n) rows ≡ false
unfolding exists largest_id
larger-fresh n [] h = refl
larger-fresh n (r ∷ rows) h = ground (arith, larger-fresh n rows)

Distinct-KeepsQueue : KeepsQueue (λ rows. Distinct same_delivery rows × Distinct same_id rows)
unfolding insert_delivery
Distinct-KeepsQueue = record {
  inserted = λ now d rows (u, v). elim (Bool-cases (exists (delivers d.identifier d.domain) rows)) [
    | inl known ↦ rw known (u, v)
    | inr fresh ↦ rw fresh ((fresh, u), (larger-fresh (largest_id rows + 1) rows (omega arith), v))
  ];
  updated = λ q f rows ids identifiers domains m (u, v). (
    Distinct-update same_delivery q f rows (λ r x. rw (identifiers r) (rw (domains r) refl))
        (λ r x. rw (identifiers x) (rw (domains x) refl)) u,
    Distinct-update same_id q f rows (λ r x. rw (ids r) refl) (λ r x. rw (ids x) refl) v,
  );
}

-- Whatever notifications, polls, attempts and clean-ups come: no two deliveries are ever of one
-- payment hash and domain, nor of one id, if none are at the start.
pub delivery_run-Distinct :
    (calls : List DeliveryCall) (s : Store)
    → Distinct same_delivery s.webhook_deliveries
    → Distinct same_id s.webhook_deliveries
    → Distinct same_delivery (delivery_run calls s).webhook_deliveries
      × Distinct same_id (delivery_run calls s).webhook_deliveries
delivery_run-Distinct calls s u v =
    delivery_run-keeps_all (λ rows. Distinct same_delivery rows × Distinct same_id rows)
      Distinct-KeepsQueue calls s
      (λ q rows (u, v). (Distinct-delete same_delivery q rows u, Distinct-delete same_id q rows v))
      (u, v)
