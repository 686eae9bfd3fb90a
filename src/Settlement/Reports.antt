-- ===== src/Settlement/Reports.antt =====
-- What a report of paid invoices writes to the invoices, for any predicate on that table.
use blink_lnurl_server.Prelude.{
  ℕ, ◌≡◌, refl, Bool-cases, inl, inr, Bool, Option-cases, List, [], ◌∷◌, Text, ◌==◌, eq_refl, ok,
  >>=-Yields, map_err-Yields, Yields, map_err, retain, is_empty,
}
use blink_lnurl_server.Sqlite.Query.{find}
use blink_lnurl_server.Sqlite.Query.Keys.{Every}
use blink_lnurl_server.Payments.{Invoice, Store, contains, refers}
use blink_lnurl_server.Payments.Invoices.{
  invoice_of, may_be_paid, upsert_paid, upsert_invoices_paid, filter_known_payment_hashes,
}
use blink_lnurl_server.Payments.Receipts.{insert_pending_zap_receipt_batch}
use blink_lnurl_server.Settlement.{
  Codecs, PaidInvoice, repository, verify_preimage, read_item, read_items, store_paid,
  handle_invoices_paid, enqueue_zap_receipts, enqueue_affected, hashes_of,
}
use blink_lnurl_server.Settlement.Writes.{IsProof, KeepsReported, On, notify-On}

module _ (codecs : Codecs) (P : List Invoice → Type 0) where
  -- What the loop over the reported items makes of them.
  abbrev IsReport : Text → Invoice → Type 0
  IsReport user_pubkey i = IsProof codecs i × (i.user_pubkey ≡ user_pubkey)

  read_item-IsReport :
      (now : ℕ) (user_pubkey : Text) (item : PaidInvoice)
      → Yields (IsReport user_pubkey) (read_item codecs now user_pubkey item)
  unfolding read_item verify_preimage
  read_item-IsReport now user_pubkey item = elim (Option-cases (codecs.hex_decode item.preimage)) [
    | inl undecoded ↦ rw (read_item, undecoded) tt
    | inr (bytes, decoded) ↦ elim (Option-cases (codecs.parse_bolt11 item.invoice)) [
      | inl malformed ↦ rw (read_item, decoded, malformed) tt
      | inr (bolt11, parsed) ↦ elim (Bool-cases (bolt11.payment_hash == codecs.sha256_hex bytes)) [
        | inl matches ↦
            rw (read_item, decoded, parsed, matches)
              (
                (
                  item.preimage,
                  refl,
                  rw (verify_preimage, decoded) (rw (eq_refl (codecs.sha256_hex bytes)) refl),
                ),
                refl,
              )
        | inr differs ↦ rw (read_item, decoded, parsed, differs) tt
      ]
    ]
  ]

  read_items-IsReport :
      (now : ℕ) (user_pubkey : Text) (items : List PaidInvoice)
      → Yields (Every (IsReport user_pubkey)) (read_items codecs now user_pubkey items)
  unfolding read_items
  read_items-IsReport now user_pubkey [] = tt
  read_items-IsReport now user_pubkey (item ∷ items) =
      >>=-Yields (IsReport user_pubkey) (Every (IsReport user_pubkey))
        (read_item codecs now user_pubkey item) _ (read_item-IsReport now user_pubkey item)
        λ i r.
          >>=-Yields (Every (IsReport user_pubkey)) (Every (IsReport user_pubkey))
            (read_items codecs now user_pubkey items) (λ is. ok (i ∷ is))
            (read_items-IsReport now user_pubkey items) λ is rs. (r, rs)

  Every-retain :
      {A : Type 0} (Q : A → Type 0) (p : A → Bool) (rows : List A)
      → Every Q rows
      → Every Q (retain p rows)
  unfolding retain
  Every-retain Q p [] h = tt
  Every-retain Q p (r ∷ rows) h = elim (Bool-cases (p r)) [
    | inl kept ↦ rw kept (h.0, Every-retain Q p rows h.1)
    | inr left ↦ rw left (Every-retain Q p rows h.1)
  ]

  module _ (user_pubkey : Text) (k : KeepsReported codecs user_pubkey P) where
    upsert_paid-On :
        (i : Invoice) (s : Store)
        → IsReport user_pubkey i
        → On codecs P s
        → Yields (λ x. On codecs P x.1) (upsert_paid i s)
    unfolding upsert_paid
    upsert_paid-On i s r p =
        elim (Bool-cases (may_be_paid i (find (invoice_of i.payment_hash) s.invoices))) [
          | inl allowed ↦ elim (Bool-cases (refers s.db i.account_id)) [
            | inl sound ↦ rw (allowed, sound) (k i s.invoices r.0 r.1 allowed p)
            | inr unsound ↦ rw (allowed, unsound) tt
          ]
          | inr refused ↦ rw refused p
        ]

    upsert_invoices_paid-On :
        (invoices : List Invoice) (s : Store)
        → Every (IsReport user_pubkey) invoices
        → On codecs P s
        → Yields (λ x. On codecs P x.1) (upsert_invoices_paid invoices s)
    unfolding upsert_invoices_paid
    upsert_invoices_paid-On [] s r p = p
    upsert_invoices_paid-On (i ∷ invoices) s r p =
        >>=-Yields (λ x. On codecs P x.1) (λ x. On codecs P x.1) (upsert_paid i s) _
          (upsert_paid-On i s r.0 p)
          λ (affected, s') p'.
            >>=-Yields (λ x. On codecs P x.1) (λ x. On codecs P x.1)
              (upsert_invoices_paid invoices s') _ (upsert_invoices_paid-On invoices s' r.1 p')
              λ (others, s'') p''. p''

    store_paid-On :
        (now : ℕ) (invoices : List Invoice) (s : Store)
        → Every (IsReport user_pubkey) invoices
        → On codecs P s
        → Yields (On codecs P) (store_paid codecs now invoices s)
    unfolding store_paid enqueue_affected enqueue_zap_receipts insert_pending_zap_receipt_batch
    store_paid-On now invoices s r p = elim (Bool-cases (is_empty invoices)) [
      | inl none_known ↦ rw none_known p
      | inr known ↦ rw known (
          >>=-Yields (λ x. On codecs P x.1) (On codecs P)
            (map_err repository (upsert_invoices_paid invoices s)) _
            (map_err-Yields (λ x. On codecs P x.1) repository (upsert_invoices_paid invoices s)
              (upsert_invoices_paid-On invoices s r p))
            λ (affected, s') p'.
              notify-On codecs P now (hashes_of invoices) (enqueue_affected now affected s')
                (elim (Bool-cases (is_empty affected)) [
                  | inl unaffected ↦ rw unaffected p'
                  | inr changed ↦ rw changed p'
                ]))
    ]

    pub handle_invoices_paid-On :
        (now : ℕ) (items : List PaidInvoice) (s : Store)
        → On codecs P s
        → Yields (On codecs P) (handle_invoices_paid codecs now items user_pubkey s)
    unfolding handle_invoices_paid
    handle_invoices_paid-On now items s p =
        >>=-Yields (Every (IsReport user_pubkey)) (On codecs P)
          (read_items codecs now user_pubkey items) _ (read_items-IsReport now user_pubkey items)
          λ is r.
            let known = filter_known_payment_hashes (hashes_of is) s in
            store_paid-On now (retain (λ i. contains known i.payment_hash) is) s
              (Every-retain (IsReport user_pubkey) (λ i. contains known i.payment_hash) is r) p
