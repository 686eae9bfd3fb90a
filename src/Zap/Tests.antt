-- ===== src/Zap/Tests.antt =====
-- Examples of the theorems on zap receipts and their queue.
use blink_lnurl_server.Prelude.{
  ℕ, ◌≤◌, ◌≡◌, refl, true, false, none, some, List, [], ◌∷◌, arith, length, any, all, text, ◌==◌,
  retain,
}
use blink_lnurl_server.Sqlite.Query.{find, exists}
use blink_lnurl_server.Payments.{Zap, Store, sort_by, is_unclaimed}
use blink_lnurl_server.Payments.Zaps.{get_zap_by_payment_hash}
use blink_lnurl_server.Payments.Invoices.{get_invoice_by_payment_hash}
use blink_lnurl_server.Payments.Receipts.{take_pending_zap_receipts, due_hashes, is_due}
use blink_lnurl_server.Payments.Exclusive.{
  QueueCall, enqueues, takes, retries, removes, queue_run, hands_out, take-exclusive,
}
use blink_lnurl_server.Payments.Limit.{queue_run-takes_le}
use blink_lnurl_server.Settlement.{new_receipt}
use blink_lnurl_server.Settlement.Notified.{has_receipt}
use blink_lnurl_server.Settlement.Outcome.{settled_invoice}
use blink_lnurl_server.Settlement.Tests.{hash_of_seven, seven, unpaid, with_invoices}
use blink_lnurl_server.Zap.{Nostr, process_pending_zap_receipt, process_pending_zap_receipts}
use blink_lnurl_server.Zap.Poll.{process_pending_zap_receipts-ends}
use blink_lnurl_server.Zap.Outcome.{IsHandled, process-drops_old, process-IsHandled}

-- Requests without tags but one of a relay, and a relay that takes every event.
abbrev toy_nostr : Nostr
toy_nostr = record {
  from_json = λ json. some (record { pubkey = text "p"; tags = (text "relays" ∷ []) ∷ [] });
  relays = λ tag. some (text "wss://r" ∷ []);
  sign_with_keys = λ tags. some (text "{}");
  send_event = λ relays event. true;
}

abbrev a_zap : Zap
a_zap = record {
  account_id = none;
  payment_hash = hash_of_seven;
  zap_request = text "{}";
  zap_event = none;
  user_pubkey = text "a-key";
  invoice_expiry = 9;
  updated_at = 1;
  is_user_nostr_key = false;
}

abbrev one_million : ℕ
one_million = 1000000

abbrev queued : Store
queued = record (with_invoices (settled_invoice 3 seven none unpaid ∷ [])) {
  zaps = a_zap ∷ [];
  pending_zap_receipts =
      record { receipt = new_receipt 5 (text "other"); claimed_at = none }
      ∷ record { receipt = new_receipt 3 hash_of_seven; claimed_at = none }
      ∷ [];
}

process_pending_zap_receipts-ends_example :
    (s' : Store) × (process_pending_zap_receipts (some toy_nostr) (λ k. one_million) 3 0 queued
      ≡ some s')
process_pending_zap_receipts-ends_example =
    process_pending_zap_receipts-ends (some toy_nostr) (λ k. one_million) 1000001 0 queued
      (omega arith) (λ k. (omega arith, omega arith))

process-drops_old_example :
    has_receipt hash_of_seven (
      process_pending_zap_receipt 2000000000 2000000001
        (some toy_nostr)
        (new_receipt 3 hash_of_seven)
        queued)
    ≡ false
process-drops_old_example =
    process-drops_old 2000000000 2000000001 (some toy_nostr) (new_receipt 3 hash_of_seven) queued
      refl

process-IsHandled_example : IsHandled toy_nostr one_million (new_receipt 3 hash_of_seven) queued (
    process_pending_zap_receipt one_million one_million
      (some toy_nostr)
      (new_receipt 3 hash_of_seven)
      queued)
unfolding get_zap_by_payment_hash get_invoice_by_payment_hash find ◌==◌
process-IsHandled_example =
    process-IsHandled one_million one_million toy_nostr (new_receipt 3 hash_of_seven) queued a_zap
      (settled_invoice 3 seven none unpaid) seven (omega arith) (omega arith) refl refl refl refl

abbrev between : List QueueCall
between =
    enqueues (new_receipt 9 (text "third"))
    ∷ takes 1000002 4
    ∷ retries (text "other") 1 1045000
    ∷ removes (text "third")
    ∷ []

take-exclusive_example :
    hands_out hash_of_seven
      (take_pending_zap_receipts 1300000 4
        (queue_run between (take_pending_zap_receipts one_million 4 queued).1)).0
    ≡ false
unfolding take_pending_zap_receipts due_hashes is_due is_unclaimed sort_by retain any all ◌==◌
take-exclusive_example =
    take-exclusive hash_of_seven one_million 4 1300000 4 between queued refl refl (omega arith)

queue_run-takes_le_example :
    length (take_pending_zap_receipts one_million 1 (queue_run between queued)).0 ≤ 1
unfolding exists ◌==◌
queue_run-takes_le_example = queue_run-takes_le between one_million 1 queued (refl, (refl, tt))
