-- ===== src/Settlement/Notified.antt =====
-- The webhook deliveries and zap receipts that a paid invoice puts into their queues.
use blink_lnurl_server.Prelude.{
  ℕ, ◌≡◌, refl, ap, Bool-cases, inl, inr, Bool, true, false, ◌&&◌, some, List, [], ◌∷◌, arith, Text,
  ◌==◌, any, eq_refl, eq_sym, eq_sym_false, ok, is_some, Option-cases,
}
use blink_lnurl_server.Sqlite.Query.{find, exists}
use blink_lnurl_server.Sqlite.Query.Keys.{Every}
use blink_lnurl_server.Sqlite.Tables.{IdentifierRow}
use blink_lnurl_server.Payments.{LnurlSenderComment}
use blink_lnurl_server.Payments.{
  Invoice, PendingZapReceipt, ReceiptRow, NewWebhookDelivery, DeliveryRow, Store,
}
use blink_lnurl_server.Payments.Invoices.{invoice_of}
use blink_lnurl_server.Payments.Receipts.{receipt_of, insert_receipt}
use blink_lnurl_server.Payments.Deliveries.{
  delivers, insert_delivery, insert_deliveries, insert_webhook_deliveries,
}
use blink_lnurl_server.Payments.Payloads.{
  WebhookPayload, WebhookPayloadData, payload_row, payload_rows, get_webhook_payloads, payload_of,
  delivery_of, deliveries_of, notify_webhooks,
}
use blink_lnurl_server.Settlement.{Codecs, notify_logged}

-- The library writes every payload as JSON.
abbrev pub WritesJson : Codecs → Type 0
WritesJson codecs = (p : WebhookPayload) → is_some (codecs.to_json p) ≡ true

abbrev pub has_receipt : Text → Store → Bool
has_receipt payment_hash s = exists (receipt_of payment_hash) s.pending_zap_receipts

abbrev pub has_delivery : Text → Text → Store → Bool
has_delivery identifier domain s = exists (delivers identifier domain) s.webhook_deliveries

pub insert_receipt-exists :
    (p : PendingZapReceipt) (rows : List ReceiptRow)
    → exists (receipt_of p.payment_hash) (insert_receipt p rows) ≡ true
unfolding insert_receipt exists
insert_receipt-exists p rows = elim (Bool-cases (exists (receipt_of p.payment_hash) rows)) [
  | inl there ↦ rw there there
  | inr fresh ↦ rw fresh (rw (eq_refl p.payment_hash) refl)
]

-- A delivery is there after its insertion, and every other that was.
insert_delivery-exists :
    (now : ℕ) (d : NewWebhookDelivery) (rows : List DeliveryRow)
    → exists (delivers d.identifier d.domain) (insert_delivery now d rows) ≡ true
unfolding insert_delivery exists
insert_delivery-exists now d rows =
    elim (Bool-cases (exists (delivers d.identifier d.domain) rows)) [
      | inl there ↦ rw there there
      | inr fresh ↦ rw fresh (rw (eq_refl d.identifier) (rw (eq_refl d.domain) refl))
    ]

insert_delivery_mono :
    (p : DeliveryRow → Bool) (now : ℕ) (d : NewWebhookDelivery) (rows : List DeliveryRow)
    → exists p rows ≡ true
    → exists p (insert_delivery now d rows) ≡ true
unfolding insert_delivery exists
insert_delivery_mono p now d rows h =
    elim (Bool-cases (exists (delivers d.identifier d.domain) rows)) [
      | inl there ↦ rw there h
      | inr fresh ↦ rw fresh (ground (arith, h))
    ]

insert_deliveries_mono :
    (p : DeliveryRow → Bool) (now : ℕ) (ds : List NewWebhookDelivery) (rows : List DeliveryRow)
    → exists p rows ≡ true
    → exists p (insert_deliveries now ds rows) ≡ true
unfolding insert_deliveries
insert_deliveries_mono p now [] rows h = h
insert_deliveries_mono p now (d ∷ ds) rows h =
    insert_deliveries_mono p now ds (insert_delivery now d rows)
      (insert_delivery_mono p now d rows h)

abbrev pub is_about : Text → Text → WebhookPayloadData → Bool
is_about payment_hash domain x = x.payment_hash == payment_hash && x.domain == domain

-- Every payload has its delivery in the table.
abbrev pub HasDeliveries : List DeliveryRow → List WebhookPayloadData → Type 0
HasDeliveries rows items = Every (λ x. exists (delivers x.payment_hash x.domain) rows ≡ true) items

pub payload_rows-find :
    (identifiers : List IdentifierRow) (comments : List LnurlSenderComment)
    (payment_hash domain preimage : Text) (rows : List Invoice) (r : Invoice)
    → find (invoice_of payment_hash) rows ≡ some r
    → r.domain ≡ some domain
    → r.preimage ≡ some preimage
    → exists
        (is_about payment_hash domain)
        (payload_rows identifiers comments (payment_hash ∷ []) rows)
      ≡ true
unfolding find payload_rows payload_row exists any
payload_rows-find ids cs h d p [] r f a b = cc
payload_rows-find ids cs h d p (x ∷ rows) r f a b = elim (Bool-cases (x.payment_hash == h)) [
  | inl hit ↦
      let e : x ≡ r = ground arith in
      let a' : x.domain ≡ some d = rw e a in
      let b' : x.preimage ≡ some p = rw e b in
      rw (eq_sym x.payment_hash h hit, a', b', hit) (rw (eq_refl d) refl)
  | inr miss ↦
      let apart : (h == x.payment_hash) ≡ false = eq_sym_false x.payment_hash h miss in
      rw apart (payload_rows-find ids cs h d p rows r (ground arith) a b)
]

-- The deliveries of these payloads, in their order.
IsFor : List WebhookPayloadData → List NewWebhookDelivery → Type 0
IsFor [] [] = Unit {0}
IsFor [] (d ∷ ds) = ⊥
IsFor (x ∷ items) [] = ⊥
IsFor (x ∷ items) (d ∷ ds) =
    (d.identifier ≡ x.payment_hash) × (d.domain ≡ x.domain) × IsFor items ds

inserted-HasDeliveries :
    (now : ℕ) (items : List WebhookPayloadData) (ds : List NewWebhookDelivery)
    (rows : List DeliveryRow)
    → IsFor items ds
    → HasDeliveries (insert_deliveries now ds rows) items
unfolding IsFor insert_deliveries
inserted-HasDeliveries now [] ds rows f = tt
inserted-HasDeliveries now (x ∷ items) [] rows f = absurd f
inserted-HasDeliveries now (x ∷ items) (d ∷ ds) rows (i, m, f) = (
  insert_deliveries_mono (delivers x.payment_hash x.domain) now ds (insert_delivery now d rows)
      (rw (← i) (rw (← m) (insert_delivery-exists now d rows))),
  inserted-HasDeliveries now items ds (insert_delivery now d rows) f,
)

inserted_again :
    (now : ℕ) (items : List WebhookPayloadData) (ds : List NewWebhookDelivery)
    (rows : List DeliveryRow)
    → IsFor items ds
    → HasDeliveries rows items
    → insert_deliveries now ds rows ≡ rows
unfolding IsFor insert_deliveries insert_delivery
inserted_again now [] [] rows f a = refl
inserted_again now [] (d ∷ ds) rows f a = absurd f
inserted_again now (x ∷ items) [] rows f a = absurd f
inserted_again now (x ∷ items) (d ∷ ds) rows (i, m, f) (there, a) =
    rw i (rw m (rw there (inserted_again now items ds rows f a)))

module _ (codecs : Codecs) where
  -- `delivery_of` keeps the payment hash as the identifier, and the domain.
  deliveries_of-IsFor :
      (now : ℕ) (items : List WebhookPayloadData)
      → WritesJson codecs
      → (ds : List NewWebhookDelivery) × (deliveries_of codecs.to_json now items ≡ ok ds)
        × IsFor items ds
  unfolding deliveries_of delivery_of IsFor
  deliveries_of-IsFor now [] j = ([], refl, tt)
  deliveries_of-IsFor now (x ∷ items) j =
      let (ds, e, f) = deliveries_of-IsFor now items j in
      elim (Option-cases (codecs.to_json (payload_of now x))) [
        | inl failed ↦ absurd (ground (arith, j (payload_of now x)))
        | inr (json, written) ↦ (
          record { identifier = x.payment_hash; domain = x.domain; payload = json } ∷ ds,
          rw (delivery_of, written) (rw e refl),
          (refl, refl, f),
        )
      ]

  -- The first notification inserts what a later one would.
  pub notify_logged-HasDeliveries :
      (now : ℕ) (hashes : List Text) (s : Store)
      → WritesJson codecs
      → HasDeliveries
          (notify_logged codecs now hashes s).webhook_deliveries
          (get_webhook_payloads hashes s)
  unfolding notify_logged notify_webhooks insert_webhook_deliveries
  notify_logged-HasDeliveries now hashes s j =
      let (ds, e, f) = deliveries_of-IsFor now (get_webhook_payloads hashes s) j in
      rw e (inserted-HasDeliveries now (get_webhook_payloads hashes s) ds s.webhook_deliveries f)

  pub notify_logged_again :
      (now : ℕ) (hashes : List Text) (s : Store)
      → WritesJson codecs
      → HasDeliveries s.webhook_deliveries (get_webhook_payloads hashes s)
      → notify_logged codecs now hashes s ≡ s
  unfolding notify_logged notify_webhooks insert_webhook_deliveries
  notify_logged_again now hashes s j a =
      let (ds, e, f) = deliveries_of-IsFor now (get_webhook_payloads hashes s) j in
      rw e (
        ap (λ rows. record s { webhook_deliveries = rows })
          (inserted_again now (get_webhook_payloads hashes s) ds s.webhook_deliveries f a))

  -- Only the deliveries change.
  pub notify_logged-rows :
      (now : ℕ) (hashes : List Text) (s : Store)
      → WritesJson codecs
      → (rows : List DeliveryRow) × (notify_logged codecs now hashes s
          ≡ record s { webhook_deliveries = rows })
  unfolding notify_logged notify_webhooks insert_webhook_deliveries
  notify_logged-rows now hashes s j =
      let (ds, e, f) = deliveries_of-IsFor now (get_webhook_payloads hashes s) j in
      (insert_deliveries now ds s.webhook_deliveries, rw e refl)

  -- A second notification of the same payment hashes changes nothing.
  pub notify_logged_twice :
      (now later : ℕ) (hashes : List Text) (s : Store)
      → WritesJson codecs
      → notify_logged codecs later hashes (notify_logged codecs now hashes s)
        ≡ notify_logged codecs now hashes s
  unfolding get_webhook_payloads
  notify_logged_twice now later hashes s j =
      let (rows, e) = notify_logged-rows now hashes s j in
      let there = rw e at (notify_logged-HasDeliveries now hashes s j) in
      rw e (notify_logged_again later hashes (record s { webhook_deliveries = rows }) j there)
