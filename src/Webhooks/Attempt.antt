-- ===== src/Webhooks/Attempt.antt =====
-- What becomes of a delivery that is attempted.
use blink_lnurl_server.Prelude.{
  ℕ, ◌+◌, ◌<◌, ◌≡◌, refl, ap, Bool-cases, inl, inr, Bool, true, false, not, ◌&&◌, Option, none,
  some, List, [], ◌∷◌, arith, min, nat_eq, ltb, leb, if◌then◌else◌, Result, ok, err, is_some,
  is_none,
}
use blink_lnurl_server.Sqlite.Query.{exists, update, delete}
use blink_lnurl_server.Sqlite.Query.Laws.{exists-delete_self}
use blink_lnurl_server.Payments.{WebhookDelivery, DeliveryRow, WebhookConfig, Store, i64_max_millis}
use blink_lnurl_server.Payments.Deliveries.{
  is_candidate, delivery_is, update_webhook_delivery_success, update_webhook_delivery_failure,
  delete_webhook_delivery, park_webhook_delivery,
}
use blink_lnurl_server.Zap.{next_count}
use blink_lnurl_server.Zap.Queue.{next_retry_delay-ge}
use blink_lnurl_server.Webhooks.{
  Client, HttpOutcome, failed, answered, read_outcome, WebhookError, send_webhook, after_send,
  process_webhook_delivery,
}

-- The delivery is to be sent at this time.
abbrev pub is_waiting : ℕ → ℕ → Store → Bool
is_waiting now id s = exists (λ r. delivery_is id r && is_candidate now r) s.webhook_deliveries

settled_rows :
    (now id : ℕ) (f : DeliveryRow → DeliveryRow) (rows : List DeliveryRow)
    → ((r : DeliveryRow) → is_candidate now (f r) ≡ false)
    → ((r : DeliveryRow) → delivery_is id (f r) ≡ delivery_is id r)
    → exists (λ r. delivery_is id r && is_candidate now r) (update (delivery_is id) f rows) ≡ false
unfolding exists update
settled_rows now id f [] k l = refl
settled_rows now id f (r ∷ rows) k l = ground (arith, k r, l r, settled_rows now id f rows k l)

after_send-settles :
    (now : ℕ) (delivery : WebhookDelivery) (config : WebhookConfig)
    (r : Result WebhookError (Unit {0})) (s : Store)
    → now < i64_max_millis
    → is_waiting now delivery.id (after_send now delivery config r s) ≡ false
unfolding after_send update_webhook_delivery_success update_webhook_delivery_failure is_candidate
after_send-settles now delivery config (ok done) s b =
    settled_rows now delivery.id _ s.webhook_deliveries (λ r. ground arith) (λ r. refl)
after_send-settles now delivery config (err e) s b =
    settled_rows now delivery.id _ s.webhook_deliveries
      (λ r. ground (arith, next_retry_delay-ge (next_count delivery.retry_count))) (λ r. refl)

not_waiting :
    (now : ℕ) (client : Client) (delivery : WebhookDelivery) (config : Option WebhookConfig)
    (s : Store)
    → now < i64_max_millis
    → is_waiting now delivery.id (process_webhook_delivery now client delivery config s) ≡ false
unfolding process_webhook_delivery park_webhook_delivery delete_webhook_delivery is_candidate
not_waiting now client delivery none s b = elim (Bool-cases (is_some delivery.url)) [
  | inl attempted ↦
      rw attempted
        (settled_rows now delivery.id _ s.webhook_deliveries (λ r. ground arith) (λ r. refl))
  | inr fresh ↦ rw fresh (
      exists-delete_self (λ r. delivery_is delivery.id r && is_candidate now r)
        (delivery_is delivery.id) s.webhook_deliveries (λ r h. ground arith))
]
not_waiting now client delivery (some config) s b =
    after_send-settles now delivery config
      (send_webhook client config.url delivery.payload config.secret) s b

-- The time is that of the success.
abbrev pub is_at : ℕ → Option ℕ → Bool
is_at now none = false
is_at now (some t) = nat_eq t now

-- The next try is to come, the tries are counted, and the row is free for it.
abbrev pub waits_again : ℕ → WebhookDelivery → DeliveryRow → Bool
waits_again now delivery r =
    ltb now r.delivery.next_retry_at
    && (nat_eq r.delivery.retry_count (min (delivery.retry_count + 1) 2147483647)
        && is_none r.claimed_at)

-- A row after the answer of the domain: any status of the 200s is a success.
abbrev pub is_answered : ℕ → WebhookDelivery → HttpOutcome → DeliveryRow → Bool
is_answered now delivery (failed message) r = waits_again now delivery r
is_answered now delivery (answered status body) r =
    if leb 200 status && ltb status 300
    then is_at now r.succeeded_at
    else waits_again now delivery r

-- A row after an attempt: without a configuration it is parked.
abbrev pub is_settled : ℕ → Client → WebhookDelivery → Option WebhookConfig → DeliveryRow → Bool
is_settled now client delivery none r =
    nat_eq r.delivery.next_retry_at 9223372036854775807 && is_none r.claimed_at
is_settled now client delivery (some c) r =
    is_answered now delivery
      (client.post c.url (client.hmac_hex c.secret delivery.payload) delivery.payload) r

-- A delivery that was never sent anywhere goes with the configuration of its domain.
abbrev pub is_kept : WebhookDelivery → Option WebhookConfig → Bool
is_kept delivery none = is_some delivery.url
is_kept delivery (some c) = true

abbrev pub Settles :
    ℕ
    → Client
    → WebhookDelivery
    → Option WebhookConfig
    → List DeliveryRow
    → List DeliveryRow
    → Type 0
Settles now client delivery config rows rows' =
    (exists (λ r. delivery_is delivery.id r && not (is_settled now client delivery config r)) rows'
      ≡ false)
    × (exists (delivery_is delivery.id) rows'
        ≡ (is_kept delivery config && exists (delivery_is delivery.id) rows))
    × (delete (delivery_is delivery.id) rows' ≡ delete (delivery_is delivery.id) rows)

updated-settled :
    (id : ℕ) (f : DeliveryRow → DeliveryRow) (P : DeliveryRow → Bool) (rows : List DeliveryRow)
    → ((r : DeliveryRow) → P (f r) ≡ true)
    → ((r : DeliveryRow) → delivery_is id (f r) ≡ delivery_is id r)
    → (exists (λ r. delivery_is id r && not (P r)) (update (delivery_is id) f rows) ≡ false)
      × (exists (delivery_is id) (update (delivery_is id) f rows) ≡ exists (delivery_is id) rows)
      × (delete (delivery_is id) (update (delivery_is id) f rows) ≡ delete (delivery_is id) rows)
unfolding exists update delete
updated-settled id f P [] k l = (refl, refl, refl)
updated-settled id f P (r ∷ rows) k l =
    let (a, b, c) = updated-settled id f P rows k l in
    elim (Bool-cases (delivery_is id r)) [
      | inl hit ↦ rw hit (rw (l r) (rw hit (rw (k r) (a, refl, c))))
      | inr miss ↦ rw miss (rw miss (a, b, ap (λ rs. r ∷ rs) c))
    ]

deleted-settled :
    (id : ℕ) (P : DeliveryRow → Bool) (rows : List DeliveryRow)
    → (exists (λ r. delivery_is id r && not (P r)) (delete (delivery_is id) rows) ≡ false)
      × (exists (delivery_is id) (delete (delivery_is id) rows) ≡ false)
      × (delete (delivery_is id) (delete (delivery_is id) rows) ≡ delete (delivery_is id) rows)
unfolding exists delete
deleted-settled id P [] = (refl, refl, refl)
deleted-settled id P (r ∷ rows) =
    let (a, b, c) = deleted-settled id P rows in
    elim (Bool-cases (delivery_is id r)) [
      | inl hit ↦ rw hit (a, b, c)
      | inr miss ↦ rw miss (rw miss (a, b, ap (λ rs. r ∷ rs) c))
    ]

read_outcome-settles :
    (now : ℕ) (delivery : WebhookDelivery) (config : WebhookConfig) (outcome : HttpOutcome)
    (s : Store)
    → now < i64_max_millis
    → (let rows' = (after_send now delivery config (read_outcome outcome) s).webhook_deliveries in
        let rows = s.webhook_deliveries in
        (exists (λ r. delivery_is delivery.id r && not (is_answered now delivery outcome r)) rows'
          ≡ false)
        × (exists (delivery_is delivery.id) rows' ≡ exists (delivery_is delivery.id) rows)
        × (delete (delivery_is delivery.id) rows' ≡ delete (delivery_is delivery.id) rows))
unfolding after_send read_outcome update_webhook_delivery_success update_webhook_delivery_failure
read_outcome-settles now delivery config (failed message) s b =
    updated-settled delivery.id _ (waits_again now delivery) s.webhook_deliveries
      (λ r. ground (arith, next_retry_delay-ge (next_count delivery.retry_count))) (λ r. refl)
read_outcome-settles now delivery config (answered status body) s b =
    elim (Bool-cases (leb 200 status && ltb status 300)) [
      | inl success ↦ rw success (
          updated-settled delivery.id _ (λ r. is_at now r.succeeded_at) s.webhook_deliveries
            (λ r. ground arith) (λ r. refl))
      | inr failure ↦ rw failure (
          updated-settled delivery.id _ (waits_again now delivery) s.webhook_deliveries
            (λ r. ground (arith, next_retry_delay-ge (next_count delivery.retry_count)))
            (λ r. refl))
    ]

-- After an attempt the delivery is settled, all others are as before, and it is not to be sent again
-- at that time: a status of the 200s is its success, at this time; with any other answer or none it
-- waits for a later time, with a try more and without a claim; where its domain has no configuration
-- it is parked at the end of time if it was sent before, and is deleted if it was not.
pub attempt-Settles :
    (now : ℕ) (client : Client) (delivery : WebhookDelivery) (config : Option WebhookConfig)
    (s : Store)
    → now < i64_max_millis
    → Settles now client delivery config s.webhook_deliveries
        (process_webhook_delivery now client delivery config s).webhook_deliveries
      × (is_waiting now delivery.id (process_webhook_delivery now client delivery config s) ≡ false)
unfolding process_webhook_delivery park_webhook_delivery delete_webhook_delivery send_webhook
attempt-Settles now client delivery none s b = (
  elim (Bool-cases (is_some delivery.url)) [
    | inl attempted ↦ rw attempted (
        updated-settled delivery.id _ (is_settled now client delivery none) s.webhook_deliveries
          (λ r. ground arith) (λ r. refl))
    | inr fresh ↦
        rw fresh
          (deleted-settled delivery.id (is_settled now client delivery none) s.webhook_deliveries)
  ],
  not_waiting now client delivery none s b,
)
attempt-Settles now client delivery (some config) s b = (
  read_outcome-settles now delivery config
      (client.post config.url (client.hmac_hex config.secret delivery.payload) delivery.payload) s
      b,
  not_waiting now client delivery (some config) s b,
)
