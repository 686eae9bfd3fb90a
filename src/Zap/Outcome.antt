-- ===== src/Zap/Outcome.antt =====
-- What becomes of a zap receipt that is processed.
use blink_lnurl_server.Prelude.{
  ℕ, ◌+◌, ◌-◌, ◌≤◌, ◌<◌, ◌≡◌, refl, ◌⊎◌, inl, inr, Bool-cases, Bool, true, false, ◌&&◌, ◌||◌, not,
  is_none, Option, none, some, arith, is_empty, take, ltb, Text, eq_iff, eq_refl, Result, ok, err,
  Yields, >>=-Yields, >>=-Yields_next, min, List, ◌==◌, map_err-Yields, ok_or, refuse_if,
}
use blink_lnurl_server.Sqlite.Query.{exists, update}
use blink_lnurl_server.Sqlite.Query.Laws.{exists-delete_self, find-holds}
use blink_lnurl_server.Payments.{
  Zap, Invoice, PendingZapReceipt, ReceiptRow, Store, i64_max_millis, refers,
}
use blink_lnurl_server.Payments.Laws.{exists-upsert_hit}
use blink_lnurl_server.Payments.Invoices.{get_invoice_by_payment_hash}
use blink_lnurl_server.Payments.Zaps.{
  zap_of, merge_zap, upsert_zap, get_zap_by_payment_hash, get_zap_and_invoice_by_payment_hash,
}
use blink_lnurl_server.Payments.Receipts.{
  receipt_of, delete_pending_zap_receipt, update_pending_zap_receipt_retry,
}
use blink_lnurl_server.Settlement.Notified.{has_receipt}
use blink_lnurl_server.Zap.{
  Nostr, PublishError, unreadable, no_relays, not_sent, not_stored, next_retry_delay, next_count,
  max_nostr_relays, max_retry_duration_ms, all_relays, build_zap_receipt_event, publish_zap_receipt,
  after_publish, process_joined, process_pending_zap_receipt,
}
use blink_lnurl_server.Zap.Queue.{next_retry_delay-ge}
use mathlib.Core.Path.{subst}

abbrev pub has_event : Text → Option Text → Bool
has_event event none = false
has_event event (some e) = e == event

refuse_if-Yields : {E : Type 0} (b : Bool) (e : E) → Yields (λ u. b ≡ false) (refuse_if b e)
refuse_if-Yields true e = tt
refuse_if-Yields false e = refl

sent-Yields : {E : Type 0} (b : Bool) (e : E) → Yields (λ u. b ≡ true) (refuse_if (not b) e)
sent-Yields true e = refl
sent-Yields false e = tt

Yields-mono :
    {E A : Type 0} {P Q : A → Type 0} (f : (a : A) → P a → Q a) (r : Result E A)
    → Yields P r
    → Yields Q r
Yields-mono f (err e) y = tt
Yields-mono f (ok a) y = f a y

deleted-has_receipt :
    (payment_hash : Text) (s : Store)
    → has_receipt payment_hash (delete_pending_zap_receipt payment_hash s) ≡ false
unfolding delete_pending_zap_receipt
deleted-has_receipt payment_hash s =
    exists-delete_self (receipt_of payment_hash) (receipt_of payment_hash) s.pending_zap_receipts
      λ r h. h

older_than :
    (created limit now : ℕ) → ltb (created + limit) now ≡ true → ltb limit (now - created) ≡ true
older_than created limit now h = ground arith

-- A receipt that was enqueued more than fourteen days ago leaves the queue, and so does any, however
-- recent, where the server has no nostr keys.
pub process-drops_old :
    (now later : ℕ) (keys : Option Nostr) (item : PendingZapReceipt) (s : Store)
    → (is_none keys || ltb (item.created_at + max_retry_duration_ms) now) ≡ true
    → has_receipt item.payment_hash (process_pending_zap_receipt now later keys item s) ≡ false
unfolding process_pending_zap_receipt
process-drops_old now later none item s old = deleted-has_receipt item.payment_hash s
process-drops_old now later (some nostr) item s old =
    let e : ltb max_retry_duration_ms (now - item.created_at) ≡ true =
      older_than item.created_at max_retry_duration_ms now old in
    rw e (deleted-has_receipt item.payment_hash s)

-- Some relays took an event, which the zap is stored with.
abbrev pub IsPublished : Nostr → Text → Store → Type 0
IsPublished nostr payment_hash s =
    (relays : List Text) × (event : Text) × (nostr.send_event relays event ≡ true)
    × (is_empty relays ≡ false)
    × (exists (λ z. zap_of payment_hash z && has_event event z.zap_event) s.zaps ≡ true)

stored-has_event :
    (event : Text) (new : Zap) (s : Store)
    → new.zap_event ≡ some event
    → Yields
        (λ s'.
          exists (λ z. zap_of new.payment_hash z && has_event event z.zap_event) s'.zaps ≡ true)
        (upsert_zap new s)
unfolding upsert_zap merge_zap
stored-has_event event new s h = elim (Bool-cases (refers s.db new.account_id)) [
  | inl sound ↦ rw sound (
      exists-upsert_hit (λ z. zap_of new.payment_hash z && has_event event z.zap_event)
        (zap_of new.payment_hash) (merge_zap new) new s.zaps
        (λ r k. rw (eq_refl new.payment_hash) (rw h (eq_refl event)))
        (rw (eq_refl new.payment_hash) (rw h (eq_refl event))))
  | inr unsound ↦ rw unsound tt
]

publish-IsPublished :
    (nostr : Nostr) (now : ℕ) (zap : Zap) (bolt11 preimage : Text) (s : Store)
    → Yields
        (IsPublished nostr zap.payment_hash)
        (publish_zap_receipt nostr now zap bolt11 preimage s)
unfolding publish_zap_receipt
publish-IsPublished nostr now zap bolt11 preimage s =
    let P = IsPublished nostr zap.payment_hash in
    >>=-Yields_next P (ok_or (nostr.from_json zap.zap_request) unreadable) _ λ request.
      >>=-Yields_next P (build_zap_receipt_event nostr zap bolt11 preimage) _ λ event.
        let relays = take max_nostr_relays (all_relays nostr request.tags) in
        >>=-Yields (λ u. is_empty relays ≡ false) P (refuse_if (is_empty relays) no_relays) _
          (refuse_if-Yields (is_empty relays) no_relays)
          λ u some_relays.
            >>=-Yields (λ u. nostr.send_event relays event ≡ true) P
              (refuse_if (not (nostr.send_event relays event)) not_sent) _
              (sent-Yields (nostr.send_event relays event) not_sent)
              λ v sent.
                let new = record zap { zap_event = some event; updated_at = now } in
                map_err-Yields P (λ e. not_stored) (upsert_zap new s)
                  (Yields-mono (λ s' stored. (relays, event, sent, some_relays, stored))
                    (upsert_zap new s) (stored-has_event event new s refl))

-- The row of the receipt waits for its next time, with a retry more, free of any claim.
abbrev pub waiting_again : ℕ → PendingZapReceipt → ReceiptRow → ReceiptRow
waiting_again now item r =
    let n = min (item.retry_count + 1) 2147483647 in
    record r {
      receipt = record r.receipt {
        retry_count = n;
        next_retry_at = min (now + next_retry_delay n) i64_max_millis;
      };
      claimed_at = none;
    }

-- What remains of a receipt that was to be published.
abbrev pub IsHandled : Nostr → ℕ → PendingZapReceipt → Store → Store → Type 0
IsHandled nostr now item s s' =
    ((has_receipt item.payment_hash s' ≡ false) × IsPublished nostr item.payment_hash s')
    ⊎ ((s' ≡ record s {
      pending_zap_receipts =
          update (receipt_of item.payment_hash) (waiting_again now item) s.pending_zap_receipts;
    })
        × (now
            < min (now + next_retry_delay (min (item.retry_count + 1) 2147483647)) i64_max_millis))

after_publish-IsHandled :
    (nostr : Nostr) (now : ℕ) (item : PendingZapReceipt) (s : Store) (r : Result PublishError Store)
    → now < i64_max_millis
    → Yields (IsPublished nostr item.payment_hash) r
    → IsHandled nostr now item s (after_publish now item s r)
unfolding after_publish delete_pending_zap_receipt update_pending_zap_receipt_retry
after_publish-IsHandled nostr now item s (ok s') b y =
    inl (deleted-has_receipt item.payment_hash s', y)
after_publish-IsHandled nostr now item s (err e) b y =
    inr (refl, omega (arith, next_retry_delay-ge (next_count item.retry_count)))

-- A receipt of the last fourteen days whose zap has no event yet and whose invoice is paid is either
-- published, and then some relay took an event with which the zap is stored, and the receipt has left
-- the queue, or its row waits for the later time that its delay gives, with one more retry and
-- without a claim, and nothing else changes.
pub process-IsHandled :
    (now later : ℕ) (nostr : Nostr) (item : PendingZapReceipt) (s : Store) (zap : Zap) (i : Invoice)
    (preimage : Text)
    → now < i64_max_millis
    → now ≤ item.created_at + max_retry_duration_ms
    → get_zap_by_payment_hash item.payment_hash s ≡ some zap
    → zap.zap_event ≡ none
    → get_invoice_by_payment_hash item.payment_hash s ≡ some i
    → i.preimage ≡ some preimage
    → IsHandled nostr now item s (process_pending_zap_receipt now later (some nostr) item s)
unfolding process_pending_zap_receipt process_joined get_zap_and_invoice_by_payment_hash
    get_zap_by_payment_hash get_invoice_by_payment_hash
process-IsHandled now later nostr item s zap i preimage b fresh z u f p =
    let same : zap.payment_hash ≡ item.payment_hash =
      (eq_iff _ _).0 (find-holds (zap_of item.payment_hash) s.zaps zap z) in
    let young : ltb max_retry_duration_ms (now - item.created_at) ≡ false = ground arith in
    let published : Yields (IsPublished nostr item.payment_hash)
        (publish_zap_receipt nostr later zap i.invoice preimage s) =
      subst
        (λ h.
          Yields (IsPublished nostr h) (publish_zap_receipt nostr later zap i.invoice preimage s))
        same (publish-IsPublished nostr later zap i.invoice preimage s) in
    rw (young, z, f, u, p)
      (after_publish-IsHandled nostr now item s
        (publish_zap_receipt nostr later zap i.invoice preimage s) b published)
