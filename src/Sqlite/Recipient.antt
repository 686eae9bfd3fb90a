-- ===== src/Sqlite/Recipient.antt =====
-- The look-ups of accounts and recipients (src/sqlite/repository.rs).
pub mod Resolution
use blink_lnurl_server.Prelude.{
  ℕ, ltb, nat_eq, Bool, true, false, not, ◌&&◌, ◌||◌, Option, none, some, List, [], ◌∷◌,
  if◌then◌else◌, Text, ◌==◌, Result, ok, err, is_some, is_none,
}
use blink_lnurl_server.Repository.{
  AccountProvider, spark, blink, provider_eq, WalletKind, Account, ResolvedRecipient, SparkUsername,
  username, kind_eq, LnurlRepositoryError, invalid_ownership,
}
use blink_lnurl_server.Sqlite.Query.{find, exists}
use blink_lnurl_server.Sqlite.Transfer.{has_account}
use blink_lnurl_server.Sqlite.Tables.{
  AccountRow, IdentifierRow, SparkRow, BlinkRow, Db, account_is, spark_is, blink_is, pubkey_is,
  named,
}

abbrev pub pubkey_col : Option SparkRow → Option Text
pubkey_col none = none
pubkey_col (some s) = some s.pubkey

abbrev pub blink_id_col : Option BlinkRow → Option Text
blink_id_col none = none
blink_id_col (some b) = some b.blink_account_id

abbrev pub btc_col : Option BlinkRow → Option Text
btc_col none = none
btc_col (some b) = some b.btc_wallet_id

abbrev pub usd_col : Option BlinkRow → Option Text
usd_col none = none
usd_col (some b) = some b.usd_wallet_id

abbrev pub wallet_col : Option BlinkRow → Option WalletKind
wallet_col none = none
wallet_col (some b) = some b.default_wallet

-- A Spark account has a Spark row and no Blink row, and a Blink account the other way round.
unfoldable pub is_consistent : AccountProvider → Option SparkRow → Option BlinkRow → Bool
is_consistent spark s b = not (is_none s || is_some b)
is_consistent blink s b = not (is_some s || is_none b)

-- The row of the join, with the columns of the two outer joins, and its decoding.
unfoldable pub map_resolved_recipient :
    IdentifierRow
    → AccountRow
    → Option SparkRow
    → Option BlinkRow
    → Result LnurlRepositoryError ResolvedRecipient
map_resolved_recipient i a s b =
    if not (is_consistent a.provider s b)
    then err invalid_ownership
    else ok (record {
      account_id = a.account_id;
      provider = a.provider;
      domain = i.domain;
      identifier = i.identifier;
      identifier_kind = i.identifier_kind;
      description = i.description;
      spark_pubkey = pubkey_col s;
      blink_account_id = blink_id_col b;
      btc_wallet_id = btc_col b;
      usd_wallet_id = usd_col b;
      default_wallet = wallet_col b;
    })

abbrev transpose {ℓ} : {E A : Type ℓ} → Option (Result E A) → Result E (Option A)
transpose none = ok none
transpose (some (ok a)) = ok (some a)
transpose (some (err e)) = err e

unfoldable pub join_recipient :
    Option IdentifierRow → Db → Option (Result LnurlRepositoryError ResolvedRecipient)
join_recipient none db = none
join_recipient (some i) db = elim (find (account_is i.account_id) db.accounts) [
  | none ↦ none
  | some a ↦ some (
      map_resolved_recipient i a (find (spark_is a.account_id) db.spark_accounts)
        (find (blink_is a.account_id) db.blink_accounts))
]

unfoldable pub resolve_recipient_by_identifier :
    Text → Text → Db → Result LnurlRepositoryError (Option ResolvedRecipient)
resolve_recipient_by_identifier domain identifier db =
    transpose (join_recipient (find (named domain identifier) db.account_identifiers) db)

unfoldable pub map_account : AccountRow → Account
map_account r = record {
  account_id = r.account_id;
  provider = r.provider;
  created_at = r.created_at;
  updated_at = r.updated_at;
}

unfoldable pub get_account_by_id : Text → Db → Option Account
get_account_by_id id db = elim (find (account_is id) db.accounts) [
  | none ↦ none
  | some a ↦ some (map_account a)
]

abbrev join_account : Option SparkRow → Db → Option Account
join_account none db = none
join_account (some s) db = elim (find (account_is s.account_id) db.accounts) [
  | none ↦ none
  | some a ↦ some (map_account a)
]

unfoldable pub get_account_by_spark_pubkey : Text → Db → Option Account
get_account_by_spark_pubkey pubkey db = join_account (find (pubkey_is pubkey) db.spark_accounts) db

-- `get_spark_username_by_name`: the username row of a Spark account.
abbrev spark_username_row :
    IdentifierRow → Option AccountRow → Option SparkRow → Option SparkUsername
spark_username_row i none s = none
spark_username_row i (some a) none = none
spark_username_row i (some a) (some s) =
    if kind_eq i.identifier_kind username && provider_eq a.provider spark
    then some (record {
      domain = i.domain;
      pubkey = s.pubkey;
      username = i.identifier;
      description = i.description;
    })
    else none

abbrev join_username : Option IdentifierRow → Db → Option SparkUsername
join_username none db = none
join_username (some i) db =
    spark_username_row i (find (account_is i.account_id) db.accounts)
      (find (spark_is i.account_id) db.spark_accounts)

-- The unique index on domain and identifier leaves one row, so that the tests on the kind and the
-- provider may come after the look-up.
unfoldable pub get_spark_username_by_name : Text → Text → Db → Option SparkUsername
get_spark_username_by_name domain name db =
    join_username (find (named domain name) db.account_identifiers) db

-- The order of texts in an index: UTF-8 keeps the order of the code points.
unfoldable pub text_lt : Text → Text → Bool
text_lt s [] = false
text_lt [] (y ∷ t) = true
text_lt (x ∷ s) (y ∷ t) = ltb x y || nat_eq x y && text_lt s t

-- ORDER BY updated_at DESC, identifier ASC.
abbrev pub comes_before : IdentifierRow → IdentifierRow → Bool
comes_before r s =
    ltb s.updated_at r.updated_at
    || nat_eq s.updated_at r.updated_at && text_lt r.identifier s.identifier

abbrev pub is_username_of : Text → Text → IdentifierRow → Bool
is_username_of domain account_id r =
    r.domain == domain && kind_eq r.identifier_kind username && r.account_id == account_id

abbrev pub sooner : IdentifierRow → Option IdentifierRow → IdentifierRow
sooner r none = r
sooner r (some s) = if comes_before s r then s else r

-- LIMIT 1 of the ordered rows that pass the test.
unfoldable pub first_of : (IdentifierRow → Bool) → List IdentifierRow → Option IdentifierRow
first_of p [] = none
first_of p (r ∷ rows) = let rest = first_of p rows in if p r then some (sooner r rest) else rest

abbrev pub username_of : Text → Text → Option IdentifierRow → Option SparkUsername
username_of domain pubkey none = none
username_of domain pubkey (some i) = some (record {
  domain = domain;
  pubkey = pubkey;
  username = i.identifier;
  description = i.description;
})

-- The pubkey has one Spark row, by its unique index.
unfoldable pub get_spark_username_by_pubkey : Text → Text → Db → Option SparkUsername
get_spark_username_by_pubkey domain pubkey db = elim (find (pubkey_is pubkey) db.spark_accounts) [
  | none ↦ none
  | some s ↦
      if exists (has_account spark s.account_id) db.accounts
      then username_of domain pubkey
          (first_of (is_username_of domain s.account_id) db.account_identifiers)
      else none
]
