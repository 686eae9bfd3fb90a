-- ===== src/Settlement/Kept.antt =====
-- Predicates on the invoices that outlast every call of a history.
use blink_lnurl_server.Prelude.{
  ℕ, ◌≡◌, refl, Bool-cases, inl, inr, Bool, true, Option, none, List, [], ◌∷◌, arith, Text, ok,
}
use blink_lnurl_server.Payments.{Invoice, Store}
use blink_lnurl_server.Payments.Zaps.{upsert_zap, insert_lnurl_sender_comment}
use blink_lnurl_server.Payments.Invoices.{
  invoice_of, merge_invoice, upsert_invoice, mark_invoice_expired,
}
use blink_lnurl_server.Settlement.{
  Codecs, verify_preimage, handle_invoice_paid, handle_invoices_paid,
  create_provider_invoice_for_account, logged,
}
use blink_lnurl_server.Settlement.History.{
  PaymentCall, creates, settles, resumes, reports, expires, zaps, comments, changes_accounts,
  resume_paid, pay_step, pay_run,
}
use blink_lnurl_server.Payments.{upsert, refers}
use blink_lnurl_server.Settlement.Writes.{
  KeepsStored, KeepsReported, On, logged-keeps, handle_known-On,
}
use blink_lnurl_server.Settlement.Reports.{handle_invoices_paid-On}
use blink_lnurl_server.Prelude.{Yields-eq, >>=-Yields, all}

-- `P` outlasts the marking of an invoice as expired.
abbrev pub KeepsExpired : (List Invoice → Type 0) → Type 0
KeepsExpired P =
    (payment_hash : Text) (t : ℕ) (s : Store)
    → P s.invoices
    → P (mark_invoice_expired payment_hash t s).invoices

-- `P` outlasts the creation of an invoice that passes the test.
abbrev pub KeepsCreated : (Text → Bool) → (List Invoice → Type 0) → Type 0
KeepsCreated allowed P =
    (i : Invoice) (rows : List Invoice)
    → allowed i.payment_hash ≡ true
    → i.preimage ≡ none
    → P rows
    → P (upsert (invoice_of i.payment_hash) (merge_invoice i) i rows)

-- The call creates no invoice but one that passes the test.
abbrev pub creates_only : (Text → Bool) → PaymentCall → Bool
creates_only allowed (creates now payment_hash a p w id ph u inv e d) = allowed payment_hash
creates_only allowed _ = true

module _ (codecs : Codecs) (P : List Invoice → Type 0) (allowed : Text → Bool) where
  pub record Keeps : Type 0 where
    pub stored : KeepsStored codecs P
    pub reported : (user_pubkey : Text) → KeepsReported codecs user_pubkey P
    pub expired : KeepsExpired P
    pub created : KeepsCreated allowed P

  settled-On :
      (now : ℕ) (payment_hash preimage : Text) (amount : Option ℕ) (seen s : Store)
      → Keeps
      → P s.invoices
      → P (logged s (resume_paid codecs now payment_hash preimage amount seen s)).invoices
  unfolding resume_paid
  settled-On now payment_hash preimage amount seen s k p =
      logged-keeps (On codecs P) s (resume_paid codecs now payment_hash preimage amount seen s) p (
        >>=-Yields (λ u. verify_preimage codecs payment_hash preimage ≡ ok u) (On codecs P)
          (verify_preimage codecs payment_hash preimage) _
          (Yields-eq (verify_preimage codecs payment_hash preimage))
          λ u v. handle_known-On codecs P k.stored now payment_hash preimage amount seen s v p)

  pub pay_step-keeps :
      (c : PaymentCall) (s : Store)
      → Keeps
      → creates_only allowed c ≡ true
      → P s.invoices
      → P (pay_step codecs c s).invoices
  unfolding pay_step handle_invoice_paid resume_paid upsert_invoice
      create_provider_invoice_for_account upsert_zap insert_lnurl_sender_comment
  pay_step-keeps (creates now payment_hash a pr w id ph u inv e d) s k c p =
      elim (Bool-cases (refers s.db a)) [
        | inl sound ↦ rw sound (k.created _ s.invoices c refl p)
        | inr unsound ↦ rw unsound p
      ]
  pay_step-keeps (settles now payment_hash preimage amount) s k c p =
      settled-On now payment_hash preimage amount s s k p
  pay_step-keeps (resumes now payment_hash preimage amount seen) s k c p =
      settled-On now payment_hash preimage amount seen s k p
  pay_step-keeps (reports now items user_pubkey) s k c p =
      logged-keeps (On codecs P) s (handle_invoices_paid codecs now items user_pubkey s) p
        (handle_invoices_paid-On codecs P user_pubkey (k.reported user_pubkey) now items s p)
  pay_step-keeps (expires payment_hash t) s k c p = k.expired payment_hash t s p
  pay_step-keeps (zaps zap) s k c p = elim (Bool-cases (refers s.db zap.account_id)) [
    | inl sound ↦ rw sound p
    | inr unsound ↦ rw unsound p
  ]
  pay_step-keeps (comments comment) s k c p = elim (Bool-cases (refers s.db comment.account_id)) [
    | inl sound ↦ rw sound p
    | inr unsound ↦ rw unsound p
  ]
  pay_step-keeps (changes_accounts call) s k c p = p

  pub pay_run-keeps :
      (calls : List PaymentCall) (s : Store)
      → Keeps
      → all (creates_only allowed) calls ≡ true
      → P s.invoices
      → P (pay_run codecs calls s).invoices
  unfolding pay_run all
  pay_run-keeps [] s k c p = p
  pay_run-keeps (call ∷ calls) s k c p =
      pay_run-keeps calls (pay_step codecs call s) k (ground arith)
        (pay_step-keeps call s k (ground arith) p)
