-- ===== src/Settlement.antt =====
-- src/invoice_paid.rs. The time is an argument; the trigger that wakes the background processors is
-- left out, since a failure to send it is only logged.
pub mod History
pub mod Writes
pub mod Reports
pub mod Kept
pub mod Paid
pub mod Tests
pub mod Untouched
pub mod Notified
pub mod Outcome
use blink_lnurl_server.Prelude.{
  ℕ, Bool, true, false, not, min, Option, none, some, List, [], ◌∷◌, map, is_empty, if◌then◌else◌,
  retain, Text, ◌==◌, Result, ok, err, ◌>>=◌, ◌>>◌, map_err, refuse_if, is_none,
}
use blink_lnurl_server.Repository.{AccountProvider, WalletKind, LnurlRepositoryError}
use blink_lnurl_server.Payments.{Invoice, PendingZapReceipt, Store, contains, i64_max_millis}
use blink_lnurl_server.Payments.Invoices.{
  upsert_invoice, upsert_invoices_paid, get_invoice_by_payment_hash, filter_known_payment_hashes,
}
use blink_lnurl_server.Payments.Receipts.{
  insert_pending_zap_receipt, insert_pending_zap_receipt_batch,
}
use blink_lnurl_server.Payments.Payloads.{WebhookPayload, notify_webhooks}

pub data HandleInvoicePaidError : Type 0 where
  invalid_invoice invalid_preimage : HandleInvoicePaidError
  repository : LnurlRepositoryError → HandleInvoicePaidError

pub record PaidInvoice : Type 0 where
  pub invoice : Text
  pub preimage : Text

-- What is read of a bolt11 invoice: its payment hash, and the milliseconds of its expiry, which is
-- missing where the sum overflows.
pub record Bolt11 : Type 0 where
  pub payment_hash : Text
  pub expires_at : Option ℕ

-- The libraries hex, bitcoin, lightning_invoice and serde_json.
pub record Codecs : Type 0 where
  pub hex_decode : Text → Option (List ℕ)
  pub sha256_hex : List ℕ → Text
  pub parse_bolt11 : Text → Option Bolt11
  pub to_json : WebhookPayload → Option Text

-- `enqueue_zap_receipt` and `enqueue_zap_receipts` of src/zap.rs.
abbrev pub new_receipt : ℕ → Text → PendingZapReceipt
new_receipt now payment_hash = record {
  payment_hash = payment_hash;
  created_at = now;
  retry_count = 0;
  next_retry_at = now;
}

unfoldable pub enqueue_zap_receipt : ℕ → Text → Store → Store
enqueue_zap_receipt now payment_hash = insert_pending_zap_receipt (new_receipt now payment_hash)

unfoldable pub enqueue_zap_receipts : ℕ → List Text → Store → Store
enqueue_zap_receipts now payment_hashes =
    insert_pending_zap_receipt_batch (map (new_receipt now) payment_hashes)

-- A failure to notify is logged, and its transaction rolled back.
abbrev pub logged : {E : Type 0} → Store → Result E Store → Store
logged s (err e) = s
logged s (ok s') = s'

unfoldable pub create_provider_invoice_for_account :
    ℕ
    → Text
    → Option Text
    → Option AccountProvider
    → Option WalletKind
    → Option Text
    → Option Text
    → Text
    → Text
    → ℕ
    → Text
    → Store
    → Result LnurlRepositoryError Store
create_provider_invoice_for_account now payment_hash account_id provider wallet_kind wallet_id
      provider_payment_hash user_pubkey invoice invoice_expiry domain =
    upsert_invoice (record {
      account_id = account_id;
      provider = provider;
      wallet_kind = wallet_kind;
      wallet_id = wallet_id;
      provider_payment_hash = provider_payment_hash;
      payment_hash = payment_hash;
      user_pubkey = user_pubkey;
      invoice = invoice;
      preimage = none;
      expired_at = none;
      invoice_expiry = invoice_expiry;
      created_at = now;
      updated_at = now;
      domain = some domain;
      amount_received_sat = none;
    })

-- The invoice with the preimage, as `handle_invoice_paid` writes it.
abbrev pub paid_invoice : ℕ → Text → Option ℕ → Invoice → Invoice
paid_invoice now preimage amount invoice = record invoice {
  preimage = some preimage;
  amount_received_sat = amount;
  updated_at = now;
}

-- The part under `if invoice.preimage.is_none()`.
unfoldable pub store_preimage :
    ℕ → Text → Text → Option ℕ → Invoice → Store → Result LnurlRepositoryError Store
store_preimage now payment_hash preimage amount invoice s =
    if is_none invoice.preimage
    then (do
      s' ← upsert_invoice (paid_invoice now preimage amount invoice) s
      ok (enqueue_zap_receipt now payment_hash s'))
    else ok s

abbrev pub expiry_of : Option ℕ → ℕ
expiry_of none = 0
expiry_of (some t) = min t i64_max_millis

abbrev pub reported_invoice : ℕ → Text → Text → ℕ → PaidInvoice → Invoice
reported_invoice now user_pubkey payment_hash invoice_expiry item = record {
  account_id = none;
  provider = none;
  wallet_kind = none;
  wallet_id = none;
  provider_payment_hash = none;
  payment_hash = payment_hash;
  user_pubkey = user_pubkey;
  invoice = item.invoice;
  preimage = some item.preimage;
  expired_at = none;
  invoice_expiry = invoice_expiry;
  created_at = now;
  updated_at = now;
  domain = none;
  amount_received_sat = none;
}

abbrev pub hashes_of : List Invoice → List Text
hashes_of = map (λ i. i.payment_hash)

unfoldable pub enqueue_affected : ℕ → List Text → Store → Store
enqueue_affected now affected s =
    if is_empty affected then s else enqueue_zap_receipts now affected s

unfoldable pub create_invoice_for_account :
    ℕ → Text → Option Text → Text → Text → ℕ → Text → Store → Result LnurlRepositoryError Store
create_invoice_for_account now payment_hash account_id =
    create_provider_invoice_for_account now payment_hash account_id none none none none

unfoldable pub create_invoice :
    ℕ → Text → Text → Text → ℕ → Text → Store → Result LnurlRepositoryError Store
create_invoice now payment_hash = create_invoice_for_account now payment_hash none

module _ (codecs : Codecs) where
  unfoldable pub verify_preimage : Text → Text → Result HandleInvoicePaidError (Unit {0})
  verify_preimage payment_hash preimage = elim (codecs.hex_decode preimage) [
    | none ↦ err invalid_preimage
    | some bytes ↦ refuse_if (not (codecs.sha256_hex bytes == payment_hash)) invalid_preimage
  ]

  unfoldable pub notify_logged : ℕ → List Text → Store → Store
  notify_logged now hashes s = logged s (notify_webhooks codecs.to_json now hashes s)

  unfoldable pub handle_known :
      ℕ → Text → Text → Option ℕ → Option Invoice → Store → Result HandleInvoicePaidError Store
  handle_known now payment_hash preimage amount none s = ok s
  handle_known now payment_hash preimage amount (some invoice) s = do
    s' ← map_err repository (store_preimage now payment_hash preimage amount invoice s)
    ok (notify_logged now (payment_hash ∷ []) s')

  unfoldable pub handle_invoice_paid :
      ℕ → Text → Text → Option ℕ → Store → Result HandleInvoicePaidError Store
  unfolding verify_preimage store_preimage handle_known
  handle_invoice_paid now payment_hash preimage amount s = do
    verify_preimage payment_hash preimage
    handle_known now payment_hash preimage amount (get_invoice_by_payment_hash payment_hash s) s

  -- One round of the loop over the items.
  unfoldable pub read_item : ℕ → Text → PaidInvoice → Result HandleInvoicePaidError Invoice
  read_item now user_pubkey item = elim (codecs.hex_decode item.preimage) [
    | none ↦ err invalid_preimage
    | some bytes ↦
        let payment_hash = codecs.sha256_hex bytes in
        elim (codecs.parse_bolt11 item.invoice) [
          | none ↦ err invalid_invoice
          | some bolt11 ↦
              if bolt11.payment_hash == payment_hash
              then ok
                  (reported_invoice now user_pubkey payment_hash (expiry_of bolt11.expires_at) item)
              else err invalid_preimage
        ]
  ]

  unfoldable pub read_items :
      ℕ → Text → List PaidInvoice → Result HandleInvoicePaidError (List Invoice)
  read_items now user_pubkey [] = ok []
  read_items now user_pubkey (item ∷ items) = do
    invoice ← read_item now user_pubkey item
    invoices ← read_items now user_pubkey items
    ok (invoice ∷ invoices)

  -- From the known invoices on.
  unfoldable pub store_paid : ℕ → List Invoice → Store → Result HandleInvoicePaidError Store
  store_paid now invoices s = if is_empty invoices then ok s else (do
    (affected, s') ← map_err repository (upsert_invoices_paid invoices s)
    ok (notify_logged now (hashes_of invoices) (enqueue_affected now affected s')))

  unfoldable pub handle_invoices_paid :
      ℕ → List PaidInvoice → Text → Store → Result HandleInvoicePaidError Store
  unfolding store_paid
  handle_invoices_paid now items user_pubkey s = do
    invoices ← read_items now user_pubkey items
    let known = filter_known_payment_hashes (hashes_of invoices) s
    store_paid now (retain (λ i. contains known i.payment_hash) invoices) s
