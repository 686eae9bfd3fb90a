-- ===== src/Settlement/History.antt =====
-- Histories of the calls that write invoices, zaps and comments, in the order in which the database
-- runs them.
use blink_lnurl_server.Prelude.{ℕ, Option, List, [], ◌∷◌, Text, Result, ◌>>◌}
use blink_lnurl_server.Repository.{AccountProvider, WalletKind}
use blink_lnurl_server.Sqlite.History
use blink_lnurl_server.Payments.{Zap, LnurlSenderComment, Store}
use blink_lnurl_server.Payments.Invoices.{get_invoice_by_payment_hash, mark_invoice_expired}
use blink_lnurl_server.Payments.Zaps.{upsert_zap, insert_lnurl_sender_comment}
use blink_lnurl_server.Settlement.{
  Codecs, PaidInvoice, HandleInvoicePaidError, verify_preimage, handle_known, handle_invoice_paid,
  handle_invoices_paid, create_provider_invoice_for_account, logged,
}

-- `resumes` is a `handle_invoice_paid` that read the invoice from the database as `seen`, before
-- other calls came between.
pub data PaymentCall : Type 0 where
  creates :
      (now : ℕ) (payment_hash : Text) (account_id : Option Text) (provider : Option AccountProvider)
      (wallet_kind : Option WalletKind) (wallet_id provider_payment_hash : Option Text)
      (user_pubkey invoice : Text) (invoice_expiry : ℕ) (domain : Text)
      → PaymentCall
  settles : (now : ℕ) (payment_hash preimage : Text) (amount : Option ℕ) → PaymentCall
  resumes :
      (now : ℕ) (payment_hash preimage : Text) (amount : Option ℕ) (seen : Store) → PaymentCall
  reports : (now : ℕ) (items : List PaidInvoice) (user_pubkey : Text) → PaymentCall
  expires : (payment_hash : Text) (expired_at : ℕ) → PaymentCall
  zaps : Zap → PaymentCall
  comments : LnurlSenderComment → PaymentCall
  changes_accounts : History.Call → PaymentCall

module _ (codecs : Codecs) where
  unfoldable pub resume_paid :
      ℕ → Text → Text → Option ℕ → Store → Store → Result HandleInvoicePaidError Store
  resume_paid now payment_hash preimage amount seen s = do
    verify_preimage codecs payment_hash preimage
    handle_known codecs now payment_hash preimage amount
        (get_invoice_by_payment_hash payment_hash seen) s

  -- The database that a call leaves; one that fails leaves it as it was.
  unfoldable pub pay_step : PaymentCall → Store → Store
  pay_step
        (creates now payment_hash account_id provider wallet_kind wallet_id provider_payment_hash
          user_pubkey invoice invoice_expiry domain)
        s =
      logged s (
        create_provider_invoice_for_account now payment_hash account_id provider wallet_kind
          wallet_id provider_payment_hash user_pubkey invoice invoice_expiry domain s)
  pay_step (settles now payment_hash preimage amount) s =
      logged s (handle_invoice_paid codecs now payment_hash preimage amount s)
  pay_step (resumes now payment_hash preimage amount seen) s =
      logged s (resume_paid now payment_hash preimage amount seen s)
  pay_step (reports now items user_pubkey) s =
      logged s (handle_invoices_paid codecs now items user_pubkey s)
  pay_step (expires payment_hash expired_at) s = mark_invoice_expired payment_hash expired_at s
  pay_step (zaps zap) s = logged s (upsert_zap zap s)
  pay_step (comments comment) s = logged s (insert_lnurl_sender_comment comment s)
  pay_step (changes_accounts call) s = record s { db = (History.step call s.db).1 }

  unfoldable pub pay_run : List PaymentCall → Store → Store
  pay_run [] s = s
  pay_run (c ∷ calls) s = pay_run calls (pay_step c s)
