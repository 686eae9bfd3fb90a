-- ===== src/Settlement/Outcome.antt =====
-- What `handle_invoice_paid` leaves behind.
use blink_lnurl_server.Prelude.{
  ℕ, ◌≡◌, refl, sym, ◌∙◌, ap, Bool-cases, inl, inr, Bool, true, false, Option, none, some, [], ◌∷◌,
  arith, Text, ◌==◌, eq_iff, eq_refl, ok, is_none, Option-cases, >>=-eq-ok,
}
use mathlib.Core.Path.{subst}
use blink_lnurl_server.Sqlite.Query.{find}
use blink_lnurl_server.Sqlite.Query.Laws.{find-holds}
use blink_lnurl_server.Sqlite.Query.Keys.{Every-exists}
use blink_lnurl_server.Payments.{Invoice, Store, upsert, refers}
use blink_lnurl_server.Payments.Laws.{find-upsert, coalesce_self}
use blink_lnurl_server.Payments.Invoices.{
  invoice_of, merge_invoice, upsert_invoice, get_invoice_by_payment_hash,
}
use blink_lnurl_server.Payments.Receipts.{insert_pending_zap_receipt}
use blink_lnurl_server.Payments.Payloads.{get_webhook_payloads}
use blink_lnurl_server.Settlement.{
  Codecs, verify_preimage, paid_invoice, store_preimage, notify_logged, handle_invoice_paid,
  enqueue_zap_receipt, new_receipt,
}
use blink_lnurl_server.Settlement.Notified.{
  WritesJson, has_receipt, has_delivery, insert_receipt-exists, is_about, payload_rows-find,
  notify_logged-HasDeliveries, notify_logged-rows, notify_logged_twice,
}

-- The invoice as it is stored once it is paid.
abbrev pub settled_invoice : ℕ → Text → Option ℕ → Invoice → Invoice
settled_invoice now preimage amount i = record i {
  preimage = some preimage;
  amount_received_sat = amount;
  updated_at = now;
  expired_at = none;
}

-- A delivery for the domain, where the invoice has one.
abbrev pub is_notified : Text → Option Text → Store → Bool
is_notified payment_hash none s = true
is_notified payment_hash (some domain) s = has_delivery payment_hash domain s

merge_paid_invoice :
    (now : ℕ) (preimage : Text) (amount : Option ℕ) (i : Invoice)
    → merge_invoice (paid_invoice now preimage amount i) i ≡ settled_invoice now preimage amount i
unfolding merge_invoice
merge_paid_invoice now preimage amount i =
    rw
      (
        coalesce_self i.account_id,
        coalesce_self i.provider,
        coalesce_self i.wallet_kind,
        coalesce_self i.wallet_id,
        coalesce_self i.provider_payment_hash,
      )
      refl

module _ (codecs : Codecs) (payment_hash : Text) where
  -- The row of an invoice in the payloads is in the table of deliveries.
  notified-of_row :
      (now : ℕ) (s : Store) (i : Invoice) (preimage : Text)
      → WritesJson codecs
      → find (invoice_of payment_hash) s.invoices ≡ some i
      → i.preimage ≡ some preimage
      → is_notified payment_hash i.domain (notify_logged codecs now (payment_hash ∷ []) s) ≡ true
  unfolding get_webhook_payloads
  notified-of_row now s i preimage j f e = elim (Option-cases i.domain) [
    | inl nowhere ↦ rw nowhere refl
    | inr (domain, known) ↦ rw known (
        let (x, about, there) =
          Every-exists _ (is_about payment_hash domain) (get_webhook_payloads (payment_hash ∷ []) s)
            (notify_logged-HasDeliveries codecs now (payment_hash ∷ []) s j)
            (payload_rows-find s.db.account_identifiers s.sender_comments payment_hash domain
              preimage s.invoices i f known e) in
        let l : (x.payment_hash == payment_hash) ≡ true = ground arith in
        let r : (x.domain == domain) ≡ true = ground arith in
        rw ((eq_iff _ _).0 l, (eq_iff _ _).0 r) at there)
  ]

  found_settled :
      (now : ℕ) (preimage : Text) (amount : Option ℕ) (s : Store) (i : Invoice)
      → find (invoice_of payment_hash) s.invoices ≡ some i
      → find (invoice_of payment_hash) (
          upsert
            (invoice_of i.payment_hash)
            (merge_invoice (paid_invoice now preimage amount i))
            (paid_invoice now preimage amount i)
            s.invoices)
        ≡ some (settled_invoice now preimage amount i)
  unfolding merge_invoice
  found_settled now preimage amount s i f =
      let paid = paid_invoice now preimage amount i in
      let rows = upsert (invoice_of i.payment_hash) (merge_invoice paid) paid s.invoices in
      let same : i.payment_hash ≡ payment_hash =
        (eq_iff _ _).0 (find-holds (invoice_of payment_hash) s.invoices i f) in
      subst (λ h. find (invoice_of h) rows ≡ some (settled_invoice now preimage amount i)) same
        (find-upsert (invoice_of i.payment_hash) (merge_invoice paid) paid s.invoices i (λ x. refl)
            (subst (λ h. find (invoice_of h) s.invoices ≡ some i) (sym same) f)
            (eq_refl i.payment_hash)
          ∙ ap some (merge_paid_invoice now preimage amount i))

  -- Where an unpaid invoice of an existing account is known for the payment hash: the call succeeds
  -- with a right preimage, the invoice is then stored with it, with the amount and the time, and not
  -- as expired, and there are a zap receipt and, if the invoice has a domain, a webhook delivery in
  -- their queues.
  pub handle_invoice_paid-settles :
      (now : ℕ) (preimage : Text) (amount : Option ℕ) (s : Store) (i : Invoice)
      → WritesJson codecs
      → verify_preimage codecs payment_hash preimage ≡ ok tt
      → get_invoice_by_payment_hash payment_hash s ≡ some i
      → i.preimage ≡ none
      → refers s.db i.account_id ≡ true
      → (s' : Store) × (handle_invoice_paid codecs now payment_hash preimage amount s ≡ ok s')
        × (get_invoice_by_payment_hash payment_hash s'
            ≡ some (settled_invoice now preimage amount i))
        × (has_receipt payment_hash s' ≡ true)
        × (is_notified payment_hash i.domain s' ≡ true)
  unfolding handle_invoice_paid get_invoice_by_payment_hash upsert_invoice enqueue_zap_receipt
      insert_pending_zap_receipt
  handle_invoice_paid-settles now preimage amount s i j v f u k =
      let paid = paid_invoice now preimage amount i in
      let rows = upsert (invoice_of i.payment_hash) (merge_invoice paid) paid s.invoices in
      let stored = enqueue_zap_receipt now payment_hash (record s { invoices = rows }) in
      let found = found_settled now preimage amount s i f in
      let (deliveries, e) = notify_logged-rows codecs now (payment_hash ∷ []) stored j in
      (
        notify_logged codecs now (payment_hash ∷ []) stored,
        rw (v, f, u, k) refl,
        rw e found,
        rw e (insert_receipt-exists (new_receipt now payment_hash) s.pending_zap_receipts),
        notified-of_row now stored (settled_invoice now preimage amount i) preimage j found refl,
      )

  -- Once the invoice is paid and its deliveries are there, a call changes nothing.
  handled_again :
      (now later : ℕ) (preimage : Text) (other : Option ℕ) (t : Store) (r : Invoice)
      → WritesJson codecs
      → verify_preimage codecs payment_hash preimage ≡ ok tt
      → find (invoice_of payment_hash) t.invoices ≡ some r
      → is_none r.preimage ≡ false
      → handle_invoice_paid codecs later payment_hash preimage other
          (notify_logged codecs now (payment_hash ∷ []) t)
        ≡ ok (notify_logged codecs now (payment_hash ∷ []) t)
  unfolding handle_invoice_paid get_invoice_by_payment_hash store_preimage
  handled_again now later preimage other t r j v f paid =
      let (rows, e) = notify_logged-rows codecs now (payment_hash ∷ []) t j in
      let twice = notify_logged_twice codecs now later (payment_hash ∷ []) t j in
      let still = rw e at twice in rw v (rw (e, f) (rw paid (ap (λ x. ok x) still)))

  -- A second call for the same payment hash and preimage changes nothing, whatever its time and
  -- amount are.
  pub handle_invoice_paid-again :
      (now later : ℕ) (preimage : Text) (amount other : Option ℕ) (s s' : Store)
      → WritesJson codecs
      → handle_invoice_paid codecs now payment_hash preimage amount s ≡ ok s'
      → handle_invoice_paid codecs later payment_hash preimage other s' ≡ ok s'
  unfolding handle_invoice_paid get_invoice_by_payment_hash upsert_invoice enqueue_zap_receipt
      insert_pending_zap_receipt
  handle_invoice_paid-again now later preimage amount other s s' j h =
      let (u, v, h') = >>=-eq-ok (verify_preimage codecs payment_hash preimage) _ h in
      elim (Option-cases (find (invoice_of payment_hash) s.invoices)) [
        | inl unknown ↦
            let same : s ≡ s' = ground (arith, rw unknown at h') in
            rw v (rw (← same) (rw unknown refl))
        | inr (i, known) ↦ elim (Bool-cases (is_none i.preimage)) [
          | inl unpaid ↦ elim (Bool-cases (refers s.db i.account_id)) [
            | inl sound ↦
                let paid = paid_invoice now preimage amount i in
                let rows =
                  upsert (invoice_of i.payment_hash) (merge_invoice paid) paid s.invoices in
                let stored = enqueue_zap_receipt now payment_hash (record s { invoices = rows }) in
                let same : notify_logged codecs now (payment_hash ∷ []) stored ≡ s' =
                  ground (arith, rw (known, unpaid, sound) at h') in
                subst (λ x. handle_invoice_paid codecs later payment_hash preimage other x ≡ ok x)
                  same
                  (handled_again now later preimage other stored
                    (settled_invoice now preimage amount i) j v
                    (found_settled now preimage amount s i known) refl)
            | inr unsound ↦ absurd (cc (rw (known, unpaid, unsound) at h'))
          ]
          | inr paid ↦
              let same : notify_logged codecs now (payment_hash ∷ []) s ≡ s' =
                ground (arith, rw (known, paid) at h') in
              subst (λ x. handle_invoice_paid codecs later payment_hash preimage other x ≡ ok x)
                same (handled_again now later preimage other s i j v known paid)
        ]
      ]
