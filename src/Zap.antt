-- ===== src/Zap.antt =====
-- src/zap.rs: the background processor of zap receipts. The libraries nostr and nostr_sdk are the
-- parameter `Nostr`; the clock is a function of the number of its readings.
pub mod Tests
pub mod Queue
pub mod Poll
pub mod Outcome
use blink_lnurl_server.Prelude.{
  ℕ, zero, suc, not, ◌+◌, ◌*◌, ◌/◌, ◌-◌, ◌^◌, min, Bool, true, false, ◌&&◌, ◌||◌, Option, none,
  some, List, [], ◌∷◌, ◌++◌, map, ltb, length, is_empty, retain, take, if◌then◌else◌, Text, text,
  ◌==◌, Result, ok, err, ◌>>=◌, ◌>>◌, refuse_if, ok_or, map_err, is_some,
}
use blink_lnurl_server.Payments.{Zap, Invoice, PendingZapReceipt, Store, i64_max_millis}
use blink_lnurl_server.Payments.Zaps.{upsert_zap, get_zap_and_invoice_by_payment_hash}
use blink_lnurl_server.Payments.Receipts.{
  take_pending_zap_receipts, update_pending_zap_receipt_retry, delete_pending_zap_receipt,
}

abbrev pub base_retry_delay_ms : ℕ
base_retry_delay_ms = 30000

-- One and a half times the delay for each retry, cut off to an `i64`. The source computes in `f64`,
-- which is exact here for the retries of two weeks.
unfoldable pub next_retry_delay : ℕ → ℕ
next_retry_delay retry_count =
    min (base_retry_delay_ms * 3 ^ retry_count / 2 ^ retry_count) i64_max_millis

abbrev pub zap_receipt_batch_limit : ℕ
zap_receipt_batch_limit = 4

abbrev pub max_retry_duration_ms : ℕ
max_retry_duration_ms = 14 * 24 * 60 * 60 * 1000

abbrev pub max_nostr_relays : ℕ
max_nostr_relays = 10

-- `saturating_add` of an `i32` and of an `i64`.
abbrev pub next_count : ℕ → ℕ
next_count retry_count = min (retry_count + 1) 2147483647

abbrev pub saturating_add : ℕ → ℕ → ℕ
saturating_add a b = min (a + b) i64_max_millis

-- A nostr event as far as it is read: its author, and its tags as lists of values.
pub record ZapRequest : Type 0 where
  pub pubkey : Text
  pub tags : List (List Text)

pub data ReceiptTag : Type 0 where
  bolt11_tag description_tag preimage_tag sender_tag : Text → ReceiptTag
  copied : List Text → ReceiptTag

pub record Nostr : Type 0 where
  pub from_json : Text → Option ZapRequest
  -- The relays of a tag, if it is one of relays.
  pub relays : List Text → Option (List Text)
  -- The JSON text of the signed receipt with these tags.
  pub sign_with_keys : List ReceiptTag → Option Text
  -- Whether the event is sent to any of the relays.
  pub send_event : List Text → Text → Bool

pub data PublishError : Type 0 where
  unreadable unsigned no_relays not_sent not_stored : PublishError

abbrev is_copied : List Text → Bool
is_copied [] = false
is_copied (name ∷ values) = name == text "e" || (name == text "a" || name == text "p")

module _ (nostr : Nostr) where
  unfoldable pub build_zap_receipt_event : Zap → Text → Text → Result PublishError Text
  build_zap_receipt_event zap bolt11 preimage = do
    zap_request ← ok_or (nostr.from_json zap.zap_request) unreadable
    ok_or
        (nostr.sign_with_keys (
          bolt11_tag bolt11
          ∷ description_tag zap.zap_request
          ∷ preimage_tag preimage
          ∷ (map copied (retain is_copied zap_request.tags) ++ sender_tag zap_request.pubkey ∷ [])))
        unsigned

  -- `filter_map` and `flatten`.
  unfoldable pub all_relays : List (List Text) → List Text
  all_relays [] = []
  all_relays (tag ∷ tags) = elim (nostr.relays tag) [
    | none ↦ all_relays tags
    | some relays ↦ relays ++ all_relays tags
  ]

  unfoldable pub publish_zap_receipt : ℕ → Zap → Text → Text → Store → Result PublishError Store
  unfolding build_zap_receipt_event all_relays
  publish_zap_receipt now zap bolt11 preimage s = do
    zap_request ← ok_or (nostr.from_json zap.zap_request) unreadable
    zap_event ← build_zap_receipt_event zap bolt11 preimage
    let relays = take max_nostr_relays (all_relays zap_request.tags)
    refuse_if (is_empty relays) no_relays
    refuse_if (not (nostr.send_event relays zap_event)) not_sent
    map_err (λ e. not_stored)
        (upsert_zap (record zap { zap_event = some zap_event; updated_at = now }) s)

-- After `publish_zap_receipt`.
unfoldable pub after_publish : ℕ → PendingZapReceipt → Store → Result PublishError Store → Store
after_publish now item s (ok s') = delete_pending_zap_receipt item.payment_hash s'
after_publish now item s (err e) =
    let retry_count = next_count item.retry_count in
    update_pending_zap_receipt_retry item.payment_hash retry_count
      (saturating_add now (next_retry_delay retry_count)) s

-- From the zap and the invoice of the payment hash on.
unfoldable pub process_joined :
    ℕ → ℕ → Nostr → PendingZapReceipt → Option Zap → Option Invoice → Store → Store
unfolding after_publish
process_joined now later nostr item none invoice s = delete_pending_zap_receipt item.payment_hash s
process_joined now later nostr item (some zap) none s =
    delete_pending_zap_receipt item.payment_hash s
process_joined now later nostr item (some zap) (some invoice) s =
    if is_some zap.zap_event
    then delete_pending_zap_receipt item.payment_hash s
    else elim invoice.preimage [
      | none ↦ s
      | some preimage ↦
          after_publish now item s (publish_zap_receipt nostr later zap invoice.invoice preimage s)
    ]

-- `now` is the reading of the clock here, and `later` the one in `publish_zap_receipt`.
unfoldable pub process_pending_zap_receipt :
    ℕ → ℕ → Option Nostr → PendingZapReceipt → Store → Store
unfolding process_joined
process_pending_zap_receipt now later none item s = delete_pending_zap_receipt item.payment_hash s
process_pending_zap_receipt now later (some nostr) item s =
    if ltb max_retry_duration_ms (now - item.created_at)
    then delete_pending_zap_receipt item.payment_hash s
    else (let (zap, invoice) = get_zap_and_invoice_by_payment_hash item.payment_hash s in
        process_joined now later nostr item zap invoice s)

module _ (keys : Option Nostr) (clock : ℕ → ℕ) where
  -- The loop over a batch, from the `k`-th reading of the clock on.
  unfoldable pub process_items : ℕ → List PendingZapReceipt → Store → Store
  process_items k [] s = s
  process_items k (item ∷ items) s =
      process_items (k + 2) items
        (process_pending_zap_receipt (clock k) (clock (k + 1)) keys item s)

  -- The outer loop; `none` where it has not ended after so many rounds.
  unfoldable pub process_pending_zap_receipts : ℕ → ℕ → Store → Option Store
  unfolding process_items
  process_pending_zap_receipts zero k s = none
  process_pending_zap_receipts (suc rounds) k s =
      let (pending, s') = take_pending_zap_receipts (clock k) zap_receipt_batch_limit s in
      let s'' = process_items (k + 1) pending s' in
      let rest = process_pending_zap_receipts rounds (k + 1 + 2 * length pending) s'' in
      if is_empty pending
      then some s'
      else if ltb (length pending) zap_receipt_batch_limit
      then some s''
      else rest
