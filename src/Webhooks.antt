-- ===== src/Webhooks.antt =====
-- src/webhooks/background.rs: the background processors of webhook deliveries. The HTTP client and
-- the HMAC are the parameter `Client`; the semaphores of the domains are the test `permits`, and the
-- task that a permit starts is a call of its own, `process_webhook_delivery`.
pub mod Tests
pub mod Attempt
pub mod Config
pub mod Keys
pub mod Once
pub mod Fair
use blink_lnurl_server.Prelude.{
  ℕ, zero, suc, ◌+◌, ◌*◌, ◌-◌, min, Bool, true, false, not, ◌&&◌, Option, none, some, List, [], ◌∷◌,
  ◌++◌, map, ltb, leb, is_empty, retain, if◌then◌else◌, Text, text, Result, ok, err, is_some,
}
use blink_lnurl_server.Payments.{
  NewWebhookDelivery, WebhookDelivery, WebhookConfig, Store, i64_max_millis,
}
use blink_lnurl_server.Payments.Deliveries.{
  insert_webhook_deliveries, take_pending_webhook_deliveries, update_webhook_delivery_success,
  update_webhook_delivery_failure, unclaim_webhook_deliveries, delete_webhook_deliveries_older_than,
  delete_webhook_delivery, park_webhook_delivery,
}
use blink_lnurl_server.Zap.{next_retry_delay, next_count, saturating_add}

abbrev pub max_error_body_len : ℕ
max_error_body_len = 512

-- The bytes of a code point, and of a text, in UTF-8.
abbrev utf8_len : ℕ → ℕ
utf8_len c = if ltb c 0x80 then 1 else if ltb c 0x800 then 2 else if ltb c 0x10000 then 3 else 4

abbrev pub byte_len : Text → ℕ
byte_len [] = 0
byte_len (c ∷ s) = utf8_len c + byte_len s

-- The text up to `floor_char_boundary`.
unfoldable pub floor_text : ℕ → Text → Text
floor_text max_len [] = []
floor_text max_len (c ∷ s) =
    let rest = floor_text (max_len - utf8_len c) s in
    if leb (utf8_len c) max_len then c ∷ rest else []

unfoldable pub truncate_string : Text → ℕ → Text
unfolding floor_text
truncate_string s max_len =
    if leb (byte_len s) max_len then s else floor_text max_len s ++ text "..."

pub record WebhookError : Type 0 where
  pub status_code : Option ℕ
  pub body : Option Text

-- A request fails with a message, or is answered with a status and, if it can be read, a body.
pub data HttpOutcome : Type 0 where
  failed : Text → HttpOutcome
  answered : ℕ → Option Text → HttpOutcome

pub record Client : Type 0 where
  -- The HMAC of a payload under a secret, in hex.
  pub hmac_hex : Text → Text → Text
  -- The outcome of a post to a URL, with this signature and payload.
  pub post : Text → Text → Text → HttpOutcome

abbrev truncated : Option Text → Option Text
truncated none = none
truncated (some b) = some (truncate_string b max_error_body_len)

unfoldable pub read_outcome : HttpOutcome → Result WebhookError (Unit {0})
unfolding truncate_string
read_outcome (failed message) =
    err (record { status_code = none; body = some (truncate_string message max_error_body_len) })
read_outcome (answered status body) =
    if leb 200 status && ltb status 300
    then ok tt
    else err (record { status_code = some status; body = truncated body })

unfoldable pub send_webhook : Client → Text → Text → Text → Result WebhookError (Unit {0})
unfolding read_outcome
send_webhook client url payload_json secret =
    read_outcome (client.post url (client.hmac_hex secret payload_json) payload_json)

-- After `send_webhook`.
unfoldable pub after_send :
    ℕ → WebhookDelivery → WebhookConfig → Result WebhookError (Unit {0}) → Store → Store
after_send now delivery config (ok done) s =
    update_webhook_delivery_success delivery.id now config.url s
after_send now delivery config (err e) s =
    let retry_count = next_count delivery.retry_count in
    update_webhook_delivery_failure delivery.id retry_count
      (saturating_add now (next_retry_delay retry_count)) e.status_code e.body config.url s

unfoldable pub process_webhook_delivery :
    ℕ → Client → WebhookDelivery → Option WebhookConfig → Store → Store
unfolding after_send
process_webhook_delivery now client delivery none s =
    if is_some delivery.url
    then park_webhook_delivery delivery.id s
    else delete_webhook_delivery delivery.id s
process_webhook_delivery now client delivery (some config) s =
    after_send now delivery config (send_webhook client config.url delivery.payload config.secret) s

-- The ids that find no permit are released.
unfoldable pub release : (Text → Bool) → List WebhookDelivery → Store → Store
release permits deliveries s =
    let unclaim_ids = map (λ d. d.id) (retain (λ d. not (permits d.domain)) deliveries) in
    if is_empty unclaim_ids then s else unclaim_webhook_deliveries unclaim_ids s

-- The deliveries for which tasks are started, and the database.
unfoldable pub process_pending_webhook_deliveries :
    ℕ → (Text → Bool) → Store → List WebhookDelivery × Store
unfolding release
process_pending_webhook_deliveries now permits s =
    let (deliveries, s') = take_pending_webhook_deliveries now s in
    (retain (λ d. permits d.domain) deliveries, release permits deliveries s')

unfoldable pub cleanup_old_webhook_deliveries : ℕ → ℕ → Store → Store
cleanup_old_webhook_deliveries now ttl_ms s =
    (delete_webhook_deliveries_older_than (now - ttl_ms) s).1

-- What the processors and the settlement do to the queue.
pub data DeliveryCall : Type 0 where
  notifies : (now : ℕ) (deliveries : List NewWebhookDelivery) → DeliveryCall
  polls : (now : ℕ) (permits : Text → Bool) → DeliveryCall
  attempts :
      (now : ℕ) (client : Client) (delivery : WebhookDelivery) (config : Option WebhookConfig)
      → DeliveryCall
  cleans : (now ttl_ms : ℕ) → DeliveryCall

unfoldable pub delivery_step : DeliveryCall → Store → Store
unfolding process_webhook_delivery process_pending_webhook_deliveries
delivery_step (notifies now deliveries) s = insert_webhook_deliveries now deliveries s
delivery_step (polls now permits) s = (process_pending_webhook_deliveries now permits s).1
delivery_step (attempts now client delivery config) s =
    process_webhook_delivery now client delivery config s
delivery_step (cleans now ttl_ms) s = cleanup_old_webhook_deliveries now ttl_ms s

unfoldable pub delivery_run : List DeliveryCall → Store → Store
delivery_run [] s = s
delivery_run (c ∷ calls) s = delivery_run calls (delivery_step c s)
