-- ===== src/Settlement/Tests.antt =====
-- Examples of the theorems on settled invoices.
use blink_lnurl_server.Prelude.{
  ◌≡◌, refl, true, none, some, List, [], ◌∷◌, Text, text, ◌==◌, ok, any, all,
}
use blink_lnurl_server.Sqlite.Tests.{empty_db}
use blink_lnurl_server.Sqlite.Query.{find, exists, update}
use blink_lnurl_server.Sqlite.Query.Keys.{Every}
use blink_lnurl_server.Payments.{Invoice, Store, upsert}
use blink_lnurl_server.Payments.Invoices.{get_invoice_by_payment_hash}
use blink_lnurl_server.Payments.Invoices.{upsert_invoice, merge_invoice}
use blink_lnurl_server.Payments.Receipts.{insert_pending_zap_receipt, insert_receipt}
use blink_lnurl_server.Payments.Deliveries.{
  new_delivery_row, insert_webhook_deliveries, insert_deliveries, insert_delivery,
}
use blink_lnurl_server.Payments.Payloads.{
  notify_webhooks, get_webhook_payloads, payload_rows, deliveries_of, delivery_of,
}
use blink_lnurl_server.Settlement.{enqueue_zap_receipt, notify_logged}
use blink_lnurl_server.Settlement.{
  Codecs, verify_preimage, handle_invoice_paid, handle_invoices_paid, logged,
}
use blink_lnurl_server.Settlement.History.{
  PaymentCall, creates, settles, resumes, reports, expires, pay_run,
}
use blink_lnurl_server.Settlement.Paid.{IsProven, is_paid, pay_run-IsProven, pay_run-is_paid}
use blink_lnurl_server.Settlement.Notified.{has_receipt}
use blink_lnurl_server.Settlement.Untouched.{handle_invoices_paid-untouched}
use blink_lnurl_server.Settlement.Outcome.{
  settled_invoice, is_notified, handle_invoice_paid-settles, handle_invoice_paid-again,
}

-- A hash that puts a 1 before the bytes, and an invoice text that is its payment hash.
abbrev pub toy_codecs : Codecs
toy_codecs = record {
  hex_decode = λ s. some s;
  sha256_hex = λ bytes. 1 ∷ bytes;
  parse_bolt11 = λ invoice. some (record { payment_hash = invoice; expires_at = some 5 });
  to_json = λ p. some (text "{}");
}

abbrev pub seven : Text
seven = 7 ∷ []

abbrev pub hash_of_seven : Text
hash_of_seven = 1 ∷ seven

abbrev pub unpaid : Invoice
unpaid = record {
  account_id = none;
  provider = none;
  wallet_kind = none;
  wallet_id = none;
  provider_payment_hash = none;
  payment_hash = hash_of_seven;
  user_pubkey = text "a-key";
  invoice = text "lnbc";
  preimage = none;
  expired_at = some 4;
  invoice_expiry = 9;
  created_at = 1;
  updated_at = 1;
  domain = some (text "d.com");
  amount_received_sat = none;
}

abbrev pub with_invoices : List Invoice → Store
with_invoices invoices = record {
  db = empty_db;
  zaps = [];
  sender_comments = [];
  invoices = invoices;
  pending_zap_receipts = [];
  webhook_deliveries = [];
  domain_webhooks = [];
  allowed_domains = [];
  settings = [];
}

abbrev paid : Invoice
paid = settled_invoice 3 seven (some 21) unpaid

abbrev payments : List PaymentCall
payments =
    creates 1 hash_of_seven none none none none none (text "a-key") (text "lnbc") 9 (text "d.com")
    ∷ resumes 2 hash_of_seven seven none (with_invoices (unpaid ∷ []))
    ∷ settles 2 hash_of_seven seven (some 21)
    ∷ expires hash_of_seven 3
    ∷ reports 4 (record { invoice = 1 ∷ 8 ∷ []; preimage = 8 ∷ [] } ∷ []) (text "b-key")
    ∷ []

abbrev later_payments : List PaymentCall
later_payments =
    creates 1 (1 ∷ 9 ∷ []) none none none none none (text "a-key") (text "lnbc") 9 (text "d.com")
    ∷ settles 2 hash_of_seven seven (some 21)
    ∷ expires hash_of_seven 3
    ∷ []

pay_run-IsProven_example :
    Every (IsProven toy_codecs) (pay_run toy_codecs payments (with_invoices [])).invoices
pay_run-IsProven_example = pay_run-IsProven toy_codecs payments (with_invoices []) tt

pay_run-is_paid_example :
    is_paid hash_of_seven (pay_run toy_codecs later_payments (with_invoices (paid ∷ []))) ≡ true
unfolding exists all ◌==◌
pay_run-is_paid_example =
    pay_run-is_paid toy_codecs hash_of_seven later_payments (with_invoices (paid ∷ [])) refl refl

handle_invoices_paid-untouched_example :
    get_invoice_by_payment_hash hash_of_seven (
      logged (with_invoices (unpaid ∷ [])) (
        handle_invoices_paid toy_codecs 4
          (record { invoice = hash_of_seven; preimage = seven } ∷ [])
          (text "b-key")
          (with_invoices (unpaid ∷ []))))
    ≡ some unpaid
unfolding get_invoice_by_payment_hash find ◌==◌
handle_invoices_paid-untouched_example =
    handle_invoices_paid-untouched toy_codecs hash_of_seven (text "b-key") unpaid 4
      (record { invoice = hash_of_seven; preimage = seven } ∷ []) (with_invoices (unpaid ∷ [])) refl
      refl

handle_invoice_paid-settles_example :
    (s' : Store) × (handle_invoice_paid toy_codecs 3 hash_of_seven seven
        (some 21)
        (with_invoices (unpaid ∷ []))
      ≡ ok s')
    × (get_invoice_by_payment_hash hash_of_seven s' ≡ some paid)
    × (has_receipt hash_of_seven s' ≡ true)
    × (is_notified hash_of_seven (some (text "d.com")) s' ≡ true)
unfolding get_invoice_by_payment_hash find ◌==◌ verify_preimage
handle_invoice_paid-settles_example =
    handle_invoice_paid-settles toy_codecs hash_of_seven 3 seven (some 21)
      (with_invoices (unpaid ∷ [])) unpaid (λ p. refl) refl refl refl refl

abbrev after_payment : Store
after_payment = record (with_invoices (paid ∷ [])) {
  pending_zap_receipts =
      record {
        receipt = record {
          payment_hash = hash_of_seven;
          created_at = 3;
          retry_count = 0;
          next_retry_at = 3;
        };
        claimed_at = none;
      }
      ∷ [];
}

-- One delivery, as the first call enqueues it.
abbrev after_call : Store
after_call = record after_payment {
  webhook_deliveries =
      new_delivery_row 3 1
        (record { identifier = hash_of_seven; domain = text "d.com"; payload = text "{}" })
      ∷ [];
}

first_call :
    handle_invoice_paid toy_codecs 3 hash_of_seven seven (some 21) (with_invoices (unpaid ∷ []))
    ≡ ok after_call
unfolding handle_invoice_paid get_invoice_by_payment_hash find ◌==◌ exists update any upsert
    upsert_invoice merge_invoice enqueue_zap_receipt insert_pending_zap_receipt insert_receipt
    notify_logged notify_webhooks get_webhook_payloads payload_rows deliveries_of delivery_of
    insert_webhook_deliveries insert_deliveries insert_delivery
first_call = refl

handle_invoice_paid-again_example :
    handle_invoice_paid toy_codecs 8 hash_of_seven seven none after_call ≡ ok after_call
handle_invoice_paid-again_example =
    handle_invoice_paid-again toy_codecs hash_of_seven 3 8 seven (some 21) none
      (with_invoices (unpaid ∷ [])) after_call (λ p. refl) first_call
