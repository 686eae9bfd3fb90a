-- ===== src/Settlement/Untouched.antt =====
-- The invoices that a report of paid invoices is not to change.
use blink_lnurl_server.Prelude.{
  ℕ, ◌≡◌, refl, ◌∙◌, Bool-cases, inl, inr, false, ◌&&◌, some, List, Text, ◌==◌, eq_iff, eq_apart,
  is_none,
}
use blink_lnurl_server.Sqlite.Query.{find}
use blink_lnurl_server.Payments.{Invoice, Store}
use blink_lnurl_server.Payments.Laws.{find-upsert_other}
use blink_lnurl_server.Payments.Invoices.{
  invoice_of, merge_paid, inserted_paid, may_be_paid, get_invoice_by_payment_hash,
}
use blink_lnurl_server.Settlement.{Codecs, PaidInvoice, handle_invoices_paid, logged}
use blink_lnurl_server.Settlement.Writes.{KeepsReported, On, logged-keeps}
use blink_lnurl_server.Settlement.Reports.{handle_invoices_paid-On}

module _ (codecs : Codecs) (payment_hash user_pubkey : Text) (r : Invoice) where
  untouched-KeepsReported :
      (r.user_pubkey == user_pubkey && is_none r.preimage) ≡ false
      → KeepsReported codecs user_pubkey (λ rows. find (invoice_of payment_hash) rows ≡ some r)
  unfolding merge_paid inserted_paid may_be_paid
  untouched-KeepsReported barred i rows proof u allowed h =
      elim (Bool-cases (i.payment_hash == payment_hash)) [
        | inl same ↦
            let k : find (invoice_of i.payment_hash) rows ≡ some r = rw ((eq_iff _ _).0 same) h in
            absurd (cc (rw k at allowed, rw (← u) at barred))
        | inr other ↦
            find-upsert_other (invoice_of payment_hash) (invoice_of i.payment_hash) (merge_paid i)
              (inserted_paid i) rows (λ x. refl)
              (λ x k. eq_apart x.payment_hash i.payment_hash payment_hash other k) other
            ∙ h
      ]

  -- A report of paid invoices leaves an invoice as it was that belongs to another user, or that is
  -- already paid.
  pub handle_invoices_paid-untouched :
      (now : ℕ) (items : List PaidInvoice) (s : Store)
      → get_invoice_by_payment_hash payment_hash s ≡ some r
      → (r.user_pubkey == user_pubkey && is_none r.preimage) ≡ false
      → get_invoice_by_payment_hash payment_hash
          (logged s (handle_invoices_paid codecs now items user_pubkey s))
        ≡ some r
  unfolding get_invoice_by_payment_hash
  handle_invoices_paid-untouched now items s h barred =
      let P = λ (rows : List Invoice). find (invoice_of payment_hash) rows ≡ some r in
      logged-keeps (On codecs P) s (handle_invoices_paid codecs now items user_pubkey s) h (
        handle_invoices_paid-On codecs P user_pubkey (untouched-KeepsReported barred) now items s h)
