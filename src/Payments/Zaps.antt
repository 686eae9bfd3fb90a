-- ===== src/Payments/Zaps.antt =====
-- The zaps and sender comments of src/sqlite/repository.rs, and the metadata that joins them.
use blink_lnurl_server.Prelude.{
  ℕ, Bool, ◌&&◌, max, Option, none, some, List, ◌++◌, map, ltb, if◌then◌else◌, retain, take, drop,
  Text, ◌==◌, Result, ok, err,
}
use blink_lnurl_server.Repository.{LnurlRepositoryError}
use blink_lnurl_server.Sqlite.Query.{find}
use blink_lnurl_server.Payments.{
  Zap, LnurlSenderComment, Invoice, Store, coalesce, claim_or_zero, refers, sort_by,
  foreign_key_violation, upsert,
}
use blink_lnurl_server.Payments.Invoices.{invoice_of, dedup}

abbrev pub zap_of : Text → Zap → Bool
zap_of payment_hash r = r.payment_hash == payment_hash

abbrev pub comment_of : Text → LnurlSenderComment → Bool
comment_of payment_hash r = r.payment_hash == payment_hash

unfoldable pub merge_zap : Zap → Zap → Zap
merge_zap new old = record new { account_id = coalesce new.account_id old.account_id }

unfoldable pub upsert_zap : Zap → Store → Result LnurlRepositoryError Store
upsert_zap zap s =
    if refers s.db zap.account_id
    then ok (record s { zaps = upsert (zap_of zap.payment_hash) (merge_zap zap) zap s.zaps })
    else err foreign_key_violation

unfoldable pub get_zap_by_payment_hash : Text → Store → Option Zap
get_zap_by_payment_hash payment_hash s = find (zap_of payment_hash) s.zaps

unfoldable pub merge_comment : LnurlSenderComment → LnurlSenderComment → LnurlSenderComment
merge_comment new old = record new { account_id = coalesce new.account_id old.account_id }

unfoldable pub insert_lnurl_sender_comment :
    LnurlSenderComment → Store → Result LnurlRepositoryError Store
insert_lnurl_sender_comment comment s =
    if refers s.db comment.account_id
    then ok (record s {
      sender_comments =
          upsert (comment_of comment.payment_hash) (merge_comment comment) comment
            s.sender_comments;
    })
    else err foreign_key_violation

unfoldable pub get_zap_and_invoice_by_payment_hash : Text → Store → Option Zap × Option Invoice
get_zap_and_invoice_by_payment_hash payment_hash s =
    (find (zap_of payment_hash) s.zaps, find (invoice_of payment_hash) s.invoices)

pub record ListMetadataMetadata : Type 0 where
  pub payment_hash : Text
  pub account_id : Option Text
  pub sender_comment : Option Text
  pub nostr_zap_request : Option Text
  pub nostr_zap_receipt : Option Text
  pub updated_at : ℕ
  pub preimage : Option Text

-- A column of a LEFT JOIN.
abbrev pub column : {A B : Type 0} → (A → Option B) → Option A → Option B
column f none = none
column f (some r) = f r

abbrev pub column_or_zero : {A : Type 0} → (A → ℕ) → Option A → ℕ
column_or_zero f none = 0
column_or_zero f (some r) = f r

-- The payment hashes of the UNION.
unfoldable pub metadata_hashes : Text → ℕ → Store → List Text
metadata_hashes pubkey after s = dedup (
    map (λ r. r.payment_hash)
      (retain (λ r. r.user_pubkey == pubkey && ltb after r.updated_at) s.invoices)
    ++ map (λ r. r.payment_hash)
        (retain (λ r. r.user_pubkey == pubkey && ltb after r.updated_at) s.zaps)
    ++ map (λ r. r.payment_hash)
        (retain (λ r. r.user_pubkey == pubkey && ltb after r.updated_at) s.sender_comments))

unfoldable pub metadata_row : Store → Text → ListMetadataMetadata
metadata_row s payment_hash =
    let i = find (invoice_of payment_hash) s.invoices in
    let z = find (zap_of payment_hash) s.zaps in
    let sc = find (comment_of payment_hash) s.sender_comments in
    record {
      payment_hash = payment_hash;
      account_id =
          coalesce (column (λ r. r.account_id) i)
            (coalesce (column (λ r. r.account_id) z) (column (λ r. r.account_id) sc));
      sender_comment = column (λ r. some r.comment) sc;
      nostr_zap_request = column (λ r. some r.zap_request) z;
      nostr_zap_receipt = column (λ r. r.zap_event) z;
      updated_at =
          max (column_or_zero (λ r. r.updated_at) z)
            (max (column_or_zero (λ r. r.updated_at) sc) (column_or_zero (λ r. r.updated_at) i));
      preimage = column (λ r. r.preimage) i;
    }

unfoldable pub get_metadata_by_pubkey : Text → ℕ → ℕ → Option ℕ → Store → List ListMetadataMetadata
get_metadata_by_pubkey pubkey offset limit updated_after s =
    let rows = map (metadata_row s) (metadata_hashes pubkey (claim_or_zero updated_after) s) in
    take limit (drop offset (sort_by (λ r. r.updated_at) rows))
