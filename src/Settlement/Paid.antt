-- ===== src/Settlement/Paid.antt =====
-- The paid invoices over histories of calls.
use blink_lnurl_server.Prelude.{
  ℕ, Option, none, ◌≡◌, refl, Bool, true, not, ◌&&◌, some, List, [], ◌∷◌, arith, Text, ◌==◌, eq_iff,
  Result, ok, err, refuse_if, Bool-cases, inl, inr, is_none, is_some, all,
}
use blink_lnurl_server.Sqlite.Query.{exists}
use blink_lnurl_server.Sqlite.Query.Keys.{Every, Every-update}
use blink_lnurl_server.Payments.{Invoice, Store}
use blink_lnurl_server.Payments.Laws.{Every-upsert, exists-upsert_mono, exists-update_mono}
use blink_lnurl_server.Payments.Invoices.{
  invoice_of, unpaid_invoice_of, merge_invoice, merge_paid, inserted_paid, mark_invoice_expired,
}
use blink_lnurl_server.Settlement.{
  Codecs, HandleInvoicePaidError, invalid_preimage, verify_preimage,
}
use blink_lnurl_server.Settlement.History.{PaymentCall, creates, pay_run}
use blink_lnurl_server.Settlement.Writes.{IsProof}
use blink_lnurl_server.Settlement.Kept.{creates_only, Keeps, pay_run-keeps}

-- A preimage, if there is one, is the hex of bytes whose SHA-256 is the payment hash.
abbrev pub Proves : Codecs → Text → Option Text → Type 0
Proves codecs payment_hash none = Unit {0}
Proves codecs payment_hash (some preimage) =
    (bytes : List ℕ) × (codecs.hex_decode preimage ≡ some bytes)
    × (codecs.sha256_hex bytes ≡ payment_hash)

abbrev pub IsProven : Codecs → Invoice → Type 0
IsProven codecs r = Proves codecs r.payment_hash r.preimage

-- Stored with a preimage, and not marked as expired.
abbrev pub paid_of : Text → Invoice → Bool
paid_of payment_hash r = invoice_of payment_hash r && (is_some r.preimage && is_none r.expired_at)

abbrev pub is_paid : Text → Store → Bool
is_paid payment_hash s = exists (paid_of payment_hash) s.invoices

abbrev pub spared : Text → Text → Bool
spared payment_hash h = not (h == payment_hash)

module _ (codecs : Codecs) where
  hashed-ok :
      (m : Option (List ℕ)) (payment_hash : Text)
      → elim m as (λ x. Result HandleInvoicePaidError (Unit {0})) [
        | none ↦ err invalid_preimage
        | some bytes ↦ refuse_if (not (codecs.sha256_hex bytes == payment_hash)) invalid_preimage
      ]
        ≡ ok tt
      → (bytes : List ℕ) × (m ≡ some bytes) × (codecs.sha256_hex bytes ≡ payment_hash)
  hashed-ok none payment_hash h = cc
  hashed-ok (some bytes) payment_hash h =
      elim (Bool-cases (codecs.sha256_hex bytes == payment_hash)) [
        | inl same ↦ (bytes, refl, (eq_iff _ _).0 same)
        | inr other ↦ absurd (cc (rw other at h))
      ]

  verify_preimage-Proves :
      (payment_hash preimage : Text)
      → verify_preimage codecs payment_hash preimage ≡ ok tt
      → Proves codecs payment_hash (some preimage)
  unfolding verify_preimage
  verify_preimage-Proves payment_hash preimage h =
      hashed-ok (codecs.hex_decode preimage) payment_hash h

  proof-IsProven :
      (i r : Invoice)
      → i.payment_hash ≡ r.payment_hash
      → i.preimage ≡ r.preimage
      → IsProof codecs i
      → IsProven codecs r
  proof-IsProven i r h e (p, stored, verified) =
      rw (← e) (rw stored (verify_preimage-Proves r.payment_hash p (rw (← h) verified)))

  AllProven-Keeps : Keeps codecs (Every (IsProven codecs)) (λ h. true)
  unfolding merge_invoice merge_paid inserted_paid mark_invoice_expired
  AllProven-Keeps = record {
    stored = λ i rows proof p.
        Every-upsert (IsProven codecs) (invoice_of i.payment_hash) (merge_invoice i) i rows
          (λ r same k. proof-IsProven i (merge_invoice i r) (cc ((eq_iff _ _).0 same)) refl proof)
          (proof-IsProven i i refl refl proof) p;
    reported = λ user_pubkey i rows proof u m p.
        Every-upsert (IsProven codecs) (invoice_of i.payment_hash) (merge_paid i) (inserted_paid i)
          rows (λ r same k. proof-IsProven i (merge_paid i r) (cc ((eq_iff _ _).0 same)) refl proof)
          (proof-IsProven i (inserted_paid i) refl refl proof) p;
    expired = λ h t s p.
        Every-update (IsProven codecs) (unpaid_invoice_of h)
          (λ r. record r { expired_at = some t; updated_at = t }) s.invoices (λ r q k. k) p;
    created = λ i rows a n p.
        Every-upsert (IsProven codecs) (invoice_of i.payment_hash) (merge_invoice i) i rows
          (λ r same k. rw n tt) (rw n tt) p;
  }

  any_call : (c : PaymentCall) → creates_only (λ h. true) c ≡ true
  any_call (creates now payment_hash a p w id ph u inv e d) = refl
  any_call _ = refl

  any_calls : (calls : List PaymentCall) → all (creates_only (λ h. true)) calls ≡ true
  unfolding all
  any_calls [] = refl
  any_calls (c ∷ calls) = rw (any_call c) (any_calls calls)

  -- After any history of calls, every preimage that is stored has the payment hash of its invoice as
  -- its SHA-256, if that is so of those stored at the start.
  pub pay_run-IsProven :
      (calls : List PaymentCall) (s : Store)
      → Every (IsProven codecs) s.invoices
      → Every (IsProven codecs) (pay_run codecs calls s).invoices
  pay_run-IsProven calls s p =
      pay_run-keeps codecs (Every (IsProven codecs)) (λ h. true) calls s AllProven-Keeps
        (any_calls calls) p

  paid-Keeps :
      (payment_hash : Text)
      → Keeps codecs (λ rows. exists (paid_of payment_hash) rows ≡ true) (spared payment_hash)
  unfolding merge_invoice merge_paid inserted_paid mark_invoice_expired
  paid-Keeps payment_hash = record {
    stored = λ i rows (p, stored, verified) h.
        exists-upsert_mono (paid_of payment_hash) (invoice_of i.payment_hash) (merge_invoice i) i
          rows (λ r same k. rw stored (ground arith)) h;
    reported = λ user_pubkey i rows (p, stored, verified) u m h.
        exists-upsert_mono (paid_of payment_hash) (invoice_of i.payment_hash) (merge_paid i)
          (inserted_paid i) rows (λ r same k. rw stored (ground arith)) h;
    expired = λ other t s h.
        exists-update_mono (paid_of payment_hash) (unpaid_invoice_of other)
          (λ r. record r { expired_at = some t; updated_at = t }) s.invoices
          (λ r open_row k. absurd (ground arith)) h;
    created = λ i rows a n h.
        exists-upsert_mono (paid_of payment_hash) (invoice_of i.payment_hash) (merge_invoice i) i
          rows (λ r same k. absurd (ground (arith, (eq_iff _ _).0 same))) h;
  }

  -- An invoice that is paid and not expired stays so in every history in which no invoice is created
  -- for its payment hash.
  pub pay_run-is_paid :
      (payment_hash : Text) (calls : List PaymentCall) (s : Store)
      → is_paid payment_hash s ≡ true
      → all (creates_only (spared payment_hash)) calls ≡ true
      → is_paid payment_hash (pay_run codecs calls s) ≡ true
  pay_run-is_paid payment_hash calls s h c =
      pay_run-keeps codecs (λ rows. exists (paid_of payment_hash) rows ≡ true) (spared payment_hash)
        calls s (paid-Keeps payment_hash) c h
