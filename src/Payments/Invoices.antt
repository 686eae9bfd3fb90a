-- ===== src/Payments/Invoices.antt =====
-- The invoices of src/sqlite/repository.rs.
use blink_lnurl_server.Prelude.{
  ℕ, Bool, true, not, ◌&&◌, Option, none, some, List, [], ◌∷◌, ◌++◌, map, if◌then◌else◌, retain,
  Text, ◌==◌, Result, ok, err, ◌>>=◌, is_none,
}
use blink_lnurl_server.Repository.{LnurlRepositoryError}
use blink_lnurl_server.Sqlite.Query.{find, update}
use blink_lnurl_server.Payments.{
  Invoice, Store, coalesce, contains, refers, foreign_key_violation, upsert,
}

abbrev pub invoice_of : Text → Invoice → Bool
invoice_of payment_hash r = r.payment_hash == payment_hash

-- The CASE of both upserts.
abbrev pub merged_expiry : Option Text → Option ℕ → Option ℕ → Option ℕ
merged_expiry none new old = coalesce new old
merged_expiry (some preimage) new old = none

-- DO UPDATE SET of `upsert_invoice`: `created_at` is kept.
unfoldable pub merge_invoice : Invoice → Invoice → Invoice
merge_invoice new old = record old {
  user_pubkey = new.user_pubkey;
  invoice = new.invoice;
  preimage = new.preimage;
  expired_at = merged_expiry new.preimage new.expired_at old.expired_at;
  invoice_expiry = new.invoice_expiry;
  updated_at = new.updated_at;
  domain = new.domain;
  amount_received_sat = new.amount_received_sat;
  account_id = coalesce new.account_id old.account_id;
  provider = coalesce new.provider old.provider;
  wallet_kind = coalesce new.wallet_kind old.wallet_kind;
  wallet_id = coalesce new.wallet_id old.wallet_id;
  provider_payment_hash = coalesce new.provider_payment_hash old.provider_payment_hash;
}

unfoldable pub upsert_invoice : Invoice → Store → Result LnurlRepositoryError Store
upsert_invoice invoice s =
    if refers s.db invoice.account_id
    then ok (record s {
      invoices =
          upsert (invoice_of invoice.payment_hash) (merge_invoice invoice) invoice s.invoices;
    })
    else err foreign_key_violation

-- DO UPDATE SET of `upsert_invoices_paid`.
unfoldable pub merge_paid : Invoice → Invoice → Invoice
merge_paid new old = record old {
  preimage = new.preimage;
  expired_at = merged_expiry new.preimage new.expired_at old.expired_at;
  updated_at = new.updated_at;
  account_id = coalesce new.account_id old.account_id;
  provider = coalesce new.provider old.provider;
  wallet_kind = coalesce new.wallet_kind old.wallet_kind;
  wallet_id = coalesce new.wallet_id old.wallet_id;
  provider_payment_hash = coalesce new.provider_payment_hash old.provider_payment_hash;
}

-- The row that the statement inserts: it names no `domain` and no `amount_received_sat`.
unfoldable pub inserted_paid : Invoice → Invoice
inserted_paid new = record new { domain = none; amount_received_sat = none }

-- Whether the conflicting row passes the WHERE of the DO UPDATE.
unfoldable pub may_be_paid : Invoice → Option Invoice → Bool
may_be_paid new none = true
may_be_paid new (some old) = old.user_pubkey == new.user_pubkey && is_none old.preimage

-- One round of the loop: the table, and the payment hash if the statement returned it.
unfoldable pub upsert_paid : Invoice → Store → Result LnurlRepositoryError (List Text × Store)
upsert_paid new s =
    if may_be_paid new (find (invoice_of new.payment_hash) s.invoices)
    then (if refers s.db new.account_id
        then ok (
          new.payment_hash ∷ [],
          record s {
            invoices =
                upsert (invoice_of new.payment_hash) (merge_paid new) (inserted_paid new)
                  s.invoices;
          },
        )
        else err foreign_key_violation)
    else ok ([], s)

-- One transaction, which an error rolls back.
unfoldable pub upsert_invoices_paid :
    List Invoice → Store → Result LnurlRepositoryError (List Text × Store)
upsert_invoices_paid [] s = ok ([], s)
upsert_invoices_paid (new ∷ invoices) s = do
  (affected, s') ← upsert_paid new s
  (others, s'') ← upsert_invoices_paid invoices s'
  ok (affected ++ others, s'')

unfoldable pub get_invoice_by_payment_hash : Text → Store → Option Invoice
get_invoice_by_payment_hash payment_hash s = find (invoice_of payment_hash) s.invoices

abbrev pub unpaid_invoice_of : Text → Invoice → Bool
unpaid_invoice_of payment_hash r = invoice_of payment_hash r && is_none r.preimage

unfoldable pub mark_invoice_expired : Text → ℕ → Store → Store
mark_invoice_expired payment_hash expired_at s = record s {
  invoices =
      update (unpaid_invoice_of payment_hash)
        (λ r. record r { expired_at = some expired_at; updated_at = expired_at }) s.invoices;
}

-- UNION keeps one row of each value.
unfoldable pub dedup : List Text → List Text
dedup [] = []
dedup (t ∷ texts) = t ∷ retain (λ x. not (x == t)) (dedup texts)

unfoldable pub filter_known_payment_hashes : List Text → Store → List Text
filter_known_payment_hashes hashes s = dedup (
    retain (contains hashes) (map (λ r. r.payment_hash) s.invoices)
    ++ retain (contains hashes) (map (λ r. r.payment_hash) s.zaps)
    ++ retain (contains hashes) (map (λ r. r.payment_hash) s.sender_comments))
