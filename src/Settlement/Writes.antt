-- ===== src/Settlement/Writes.antt =====
-- What the calls of a history write to the invoices, for any predicate on that table.
use blink_lnurl_server.Prelude.{
  ℕ, ◌≡◌, refl, Bool-cases, inl, inr, true, Option, some, Option-cases, List, [], ◌∷◌, Text, eq_iff,
  Result, ok, err, >>=-Yields, Yields, Yields-any, is_none,
}
use blink_lnurl_server.Sqlite.Query.{find}
use blink_lnurl_server.Sqlite.Query.Laws.{find-holds}
use blink_lnurl_server.Payments.{Invoice, Store, upsert, refers}
use blink_lnurl_server.Payments.Invoices.{
  invoice_of, merge_invoice, upsert_invoice, merge_paid, inserted_paid, may_be_paid,
  get_invoice_by_payment_hash,
}
use blink_lnurl_server.Payments.Payloads.{notify_webhooks, deliveries_of, get_webhook_payloads}
use blink_lnurl_server.Payments.Deliveries.{insert_webhook_deliveries}
use blink_lnurl_server.Payments.Receipts.{insert_pending_zap_receipt}
use blink_lnurl_server.Settlement.{
  Codecs, verify_preimage, paid_invoice, store_preimage, notify_logged, handle_known,
  enqueue_zap_receipt, logged,
}

-- The invoice comes with a preimage of its payment hash.
abbrev pub IsProof : Codecs → Invoice → Type 0
IsProof codecs i =
    (preimage : Text) × (i.preimage ≡ some preimage)
    × (verify_preimage codecs i.payment_hash preimage ≡ ok tt)

pub logged-keeps :
    {E : Type 0} (P : Store → Type 0) (s : Store) (r : Result E Store)
    → P s
    → Yields P r
    → P (logged s r)
logged-keeps P s (err e) p y = p
logged-keeps P s (ok s') p y = y

-- `P` outlasts the write of an invoice by `handle_invoice_paid`.
abbrev pub KeepsStored : Codecs → (List Invoice → Type 0) → Type 0
KeepsStored codecs P =
    (i : Invoice) (rows : List Invoice)
    → IsProof codecs i
    → P rows
    → P (upsert (invoice_of i.payment_hash) (merge_invoice i) i rows)

-- `P` outlasts the write of an invoice that a user with this pubkey reports as paid.
abbrev pub KeepsReported : Codecs → Text → (List Invoice → Type 0) → Type 0
KeepsReported codecs user_pubkey P =
    (i : Invoice) (rows : List Invoice)
    → IsProof codecs i
    → i.user_pubkey ≡ user_pubkey
    → may_be_paid i (find (invoice_of i.payment_hash) rows) ≡ true
    → P rows
    → P (upsert (invoice_of i.payment_hash) (merge_paid i) (inserted_paid i) rows)

module _ (codecs : Codecs) (P : List Invoice → Type 0) where
  abbrev pub On : Store → Type 0
  On s = P s.invoices

  pub notify-On :
      (now : ℕ) (hashes : List Text) (s : Store) → On s → On (notify_logged codecs now hashes s)
  unfolding notify_logged notify_webhooks insert_webhook_deliveries
  notify-On now hashes s p = logged-keeps On s (notify_webhooks codecs.to_json now hashes s) p (
      >>=-Yields (λ d. Unit {0}) On
        (deliveries_of codecs.to_json now (get_webhook_payloads hashes s))
        (λ d. ok (insert_webhook_deliveries now d s))
        (Yields-any (deliveries_of codecs.to_json now (get_webhook_payloads hashes s))) λ d u. p)

  pub handle_known-On :
      KeepsStored codecs P
      → (now : ℕ) (payment_hash preimage : Text) (amount : Option ℕ) (seen s : Store)
      → verify_preimage codecs payment_hash preimage ≡ ok tt
      → On s
      → Yields On (
          handle_known codecs now payment_hash preimage amount
            (get_invoice_by_payment_hash payment_hash seen)
            s)
  unfolding handle_known store_preimage get_invoice_by_payment_hash upsert_invoice
      enqueue_zap_receipt insert_pending_zap_receipt
  handle_known-On k now payment_hash preimage amount seen s v p =
      elim (Option-cases (find (invoice_of payment_hash) seen.invoices)) [
        | inl unknown ↦ rw unknown p
        | inr (i, known) ↦
            let same : i.payment_hash ≡ payment_hash =
              (eq_iff _ _).0 (find-holds (invoice_of payment_hash) seen.invoices i known) in
            let proof : IsProof codecs (paid_invoice now preimage amount i) =
              (preimage, refl, rw same v) in
            rw known (elim (Bool-cases (is_none i.preimage)) [
              | inl unpaid ↦ elim (Bool-cases (refers s.db i.account_id)) [
                | inl sound ↦
                    rw (unpaid, sound)
                      (notify-On now (payment_hash ∷ [])
                        (enqueue_zap_receipt now payment_hash (record s {
                          invoices =
                              upsert (invoice_of i.payment_hash)
                                (merge_invoice (paid_invoice now preimage amount i))
                                (paid_invoice now preimage amount i) s.invoices;
                        }))
                        (k (paid_invoice now preimage amount i) s.invoices proof p))
                | inr unsound ↦ rw (unpaid, unsound) tt
              ]
              | inr paid ↦ rw paid (notify-On now (payment_hash ∷ []) s p)
            ])
      ]
