-- ===== src/Zap/Poll.antt =====
-- A poll of the zap receipt processor ends.
use blink_lnurl_server.Prelude.{
  ℕ, zero, suc, ◌+◌, ◌*◌, ◌-◌, ◌≤◌, ◌<◌, ◌≡◌, refl, Bool-cases, inl, inr, Option, none, some,
  Option-cases, List, [], ◌∷◌, arith, length, is_empty, take, ltb, Text, Result, ok, err, Yields,
  map_err-Yields, >>=-Yields_next, ok_or, refuse_if, not, is_some,
}
use blink_lnurl_server.Payments.{Zap, Invoice, PendingZapReceipt, Store, i64_max_millis, refers}
use blink_lnurl_server.Sqlite.Query.{find}
use blink_lnurl_server.Payments.Invoices.{invoice_of}
use blink_lnurl_server.Payments.Zaps.{zap_of, upsert_zap, get_zap_and_invoice_by_payment_hash}
use blink_lnurl_server.Payments.Receipts.{
  receipt_of, take_pending_zap_receipts, retry_receipt, update_pending_zap_receipt_retry,
  delete_pending_zap_receipt,
}
use blink_lnurl_server.Payments.Counts.{count-le-length, count-delete-le, count-update-le}
use blink_lnurl_server.Zap.{
  Nostr, PublishError, next_retry_delay, next_count, saturating_add, zap_receipt_batch_limit,
  max_nostr_relays, unreadable, no_relays, not_sent, not_stored, all_relays, max_retry_duration_ms,
  publish_zap_receipt, build_zap_receipt_event, after_publish, process_joined,
  process_pending_zap_receipt, process_items, process_pending_zap_receipts,
}
use blink_lnurl_server.Zap.Queue.{next_retry_delay-ge, is_open, opened, take_opened}

publish-keeps_queue :
    (nostr : Nostr) (now : ℕ) (zap : Zap) (bolt11 preimage : Text) (s : Store)
    → Yields
        (λ s'. s'.pending_zap_receipts ≡ s.pending_zap_receipts)
        (publish_zap_receipt nostr now zap bolt11 preimage s)
unfolding publish_zap_receipt upsert_zap
publish-keeps_queue nostr now zap bolt11 preimage s =
    let P = λ (s' : Store). s'.pending_zap_receipts ≡ s.pending_zap_receipts in
    >>=-Yields_next P (ok_or (nostr.from_json zap.zap_request) unreadable) _ λ request.
      >>=-Yields_next P (build_zap_receipt_event nostr zap bolt11 preimage) _ λ event.
        let relays = take max_nostr_relays (all_relays nostr request.tags) in
        >>=-Yields_next P (refuse_if (is_empty relays) no_relays) _ λ some_relays.
          >>=-Yields_next P (refuse_if (not (nostr.send_event relays event)) not_sent) _ λ sent.
            map_err-Yields P (λ e. not_stored)
              (upsert_zap (record zap { zap_event = some event; updated_at = now }) s)
              (elim (Bool-cases (refers s.db zap.account_id)) [
                | inl sound ↦ rw sound refl
                | inr unsound ↦ rw unsound tt
              ])

-- The window of readings [end - 30000, end).
abbrev pub IsWithin : ℕ → ℕ → Type 0
IsWithin end now = (now < end) × (end ≤ now + 30000)

module _ (end : ℕ) (bound : end ≤ i64_max_millis) where
  after_publish-opened :
      (now : ℕ) (item : PendingZapReceipt) (s : Store) (r : Result PublishError Store)
      → IsWithin end now
      → Yields (λ s'. s'.pending_zap_receipts ≡ s.pending_zap_receipts) r
      → opened end (after_publish now item s r) ≤ opened end s
  unfolding after_publish delete_pending_zap_receipt update_pending_zap_receipt_retry
  after_publish-opened now item s (ok s') w y =
      rw y (count-delete-le (is_open end) (receipt_of item.payment_hash) s.pending_zap_receipts)
  after_publish-opened now item s (err e) w y =
      let n = next_count item.retry_count in
      count-update-le (is_open end) (receipt_of item.payment_hash)
        (retry_receipt n (saturating_add now (next_retry_delay n))) s.pending_zap_receipts
        λ r q. ground (arith, next_retry_delay-ge n)

  process_joined-opened :
      (now later : ℕ) (nostr : Nostr) (item : PendingZapReceipt) (zap : Option Zap)
      (invoice : Option Invoice) (s : Store)
      → IsWithin end now
      → opened end (process_joined now later nostr item zap invoice s) ≤ opened end s
  unfolding process_joined delete_pending_zap_receipt
  process_joined-opened now later nostr item none invoice s w =
      count-delete-le (is_open end) (receipt_of item.payment_hash) s.pending_zap_receipts
  process_joined-opened now later nostr item (some zap) none s w =
      count-delete-le (is_open end) (receipt_of item.payment_hash) s.pending_zap_receipts
  process_joined-opened now later nostr item (some zap) (some invoice) s w =
      let deleted =
        count-delete-le (is_open end) (receipt_of item.payment_hash) s.pending_zap_receipts in
      elim (Bool-cases (is_some zap.zap_event)) [
        | inl published ↦ rw published deleted
        | inr unpublished ↦ elim (Option-cases invoice.preimage) [
          | inl unpaid ↦ rw (unpublished, unpaid) (omega arith)
          | inr (preimage, paid) ↦
              rw (unpublished, paid)
                (after_publish-opened now item s
                  (publish_zap_receipt nostr later zap invoice.invoice preimage s) w
                  (publish-keeps_queue nostr later zap invoice.invoice preimage s))
        ]
      ]

  process-opened :
      (now later : ℕ) (keys : Option Nostr) (item : PendingZapReceipt) (s : Store)
      → IsWithin end now
      → opened end (process_pending_zap_receipt now later keys item s) ≤ opened end s
  unfolding process_pending_zap_receipt delete_pending_zap_receipt
      get_zap_and_invoice_by_payment_hash
  process-opened now later none item s w =
      count-delete-le (is_open end) (receipt_of item.payment_hash) s.pending_zap_receipts
  process-opened now later (some nostr) item s w =
      elim (Bool-cases (ltb max_retry_duration_ms (now - item.created_at))) [
        | inl old ↦
            rw old
              (count-delete-le (is_open end) (receipt_of item.payment_hash) s.pending_zap_receipts)
        | inr fresh ↦ rw fresh (
            process_joined-opened now later nostr item (find (zap_of item.payment_hash) s.zaps)
              (find (invoice_of item.payment_hash) s.invoices) s w)
      ]

  module _ (keys : Option Nostr) (clock : ℕ → ℕ) (within : (k : ℕ) → IsWithin end (clock k)) where
    items-opened :
        (k : ℕ) (items : List PendingZapReceipt) (s : Store)
        → opened end (process_items keys clock k items s) ≤ opened end s
    unfolding process_items
    items-opened k [] s = omega arith
    items-opened k (item ∷ items) s =
        let next = process_pending_zap_receipt (clock k) (clock (k + 1)) keys item s in
        omega (
          arith,
          items-opened (k + 2) items next,
          process-opened (clock k) (clock (k + 1)) keys item s (within k),
        )

    poll_ends :
        (rounds k : ℕ) (s : Store)
        → opened end s < rounds
        → (s' : Store) × (process_pending_zap_receipts keys clock rounds k s ≡ some s')
    unfolding process_pending_zap_receipts
    poll_ends zero k s h = absurd (omega arith)
    poll_ends (suc rounds) k s h =
        let taken = take_pending_zap_receipts (clock k) zap_receipt_batch_limit s in
        elim (Bool-cases (is_empty taken.0)) [
          | inl drained ↦ (taken.1, rw drained refl)
          | inr claimed ↦
              let processed = process_items keys clock (k + 1) taken.0 taken.1 in
              elim (Bool-cases (ltb (length taken.0) zap_receipt_batch_limit)) [
                | inl last ↦ (processed, rw (claimed, last) refl)
                | inr more ↦
                    rw (claimed, more)
                      (poll_ends rounds (k + 1 + 2 * length taken.0) processed (
                        omega (
                          arith,
                          items-opened (k + 1) taken.0 taken.1,
                          take_opened end (clock k) zap_receipt_batch_limit s (within k).0
                              (omega (arith, (within k).1)) claimed,
                        )))
              ]
        ]

-- If all readings of the clock during a poll lie within thirty seconds, it ends: after no more rounds
-- than there are rows in the queue, and one.
pub process_pending_zap_receipts-ends :
    (keys : Option Nostr) (clock : ℕ → ℕ) (end k : ℕ) (s : Store)
    → end ≤ i64_max_millis
    → ((k : ℕ) → IsWithin end (clock k))
    → (s' : Store) × (process_pending_zap_receipts keys clock
          (suc (length s.pending_zap_receipts))
          k
          s
        ≡ some s')
process_pending_zap_receipts-ends keys clock end k s b w =
    poll_ends end b keys clock w (suc (length s.pending_zap_receipts)) k s
      (omega (arith, count-le-length (is_open end) s.pending_zap_receipts))
