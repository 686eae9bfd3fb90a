-- ===== src/Sqlite/Tables.antt =====
-- The tables of migrations/sqlite, their keys, and the errors of a statement.
use blink_lnurl_server.Prelude.{
  ℕ, Bool, true, false, not, ◌&&◌, Option, none, some, List, ◌∷◌, if◌then◌else◌, Text, text, ◌==◌,
  Result, ok, err,
}
use blink_lnurl_server.Repository.{
  AccountProvider, AccountIdentifierKind, username, WalletKind, AccountMode, ModeSource,
  LnurlRepositoryError, identifier_conflict, blink_account_exists, name_taken, general, kind_eq,
}
use blink_lnurl_server.Sqlite.Query.{exists}

pub record AccountRow : Type 0 where
  pub account_id : Text
  pub provider : AccountProvider
  pub created_at : ℕ
  pub updated_at : ℕ

pub record IdentifierRow : Type 0 where
  pub account_id : Text
  pub domain : Text
  pub identifier : Text
  pub identifier_kind : AccountIdentifierKind
  pub description : Text
  pub created_at : ℕ
  pub updated_at : ℕ

pub record SparkRow : Type 0 where
  pub account_id : Text
  pub pubkey : Text
  pub created_at : ℕ
  pub updated_at : ℕ
  pub mode : Option AccountMode
  pub mode_source : Option ModeSource
  pub mode_updated_at : Option ℕ
  pub mode_last_timestamp : Option ℕ
  pub country : Option Text
  pub country_updated_at : Option ℕ

pub record BlinkRow : Type 0 where
  pub account_id : Text
  pub blink_account_id : Text
  pub btc_wallet_id : Text
  pub usd_wallet_id : Text
  pub default_wallet : WalletKind
  pub created_at : ℕ
  pub updated_at : ℕ

pub record ClaimRow : Type 0 where
  pub statement_hash : List ℕ
  pub route : Text
  pub expires_at : ℕ
  pub created_at : ℕ

pub record Db : Type 0 where
  pub accounts : List AccountRow
  pub account_identifiers : List IdentifierRow
  pub spark_accounts : List SparkRow
  pub blink_accounts : List BlinkRow
  pub used_signed_messages : List ClaimRow

-- What a statement may fail with: a violated constraint, named if the driver names it, or another
-- error.
pub data SqlxError : Type 0 where
  database : Bool → Option Text → SqlxError
  other : SqlxError

-- `From<sqlx::Error>` of src/error.rs.
abbrev from_constraint : Option Text → LnurlRepositoryError
from_constraint none = name_taken
from_constraint (some c) =
    if c == text "account_identifiers_domain_identifier_key"
    then identifier_conflict
    else if c == text "blink_accounts_blink_account_id_key"
    then blink_account_exists
    else name_taken

unfoldable pub from_sqlx : SqlxError → LnurlRepositoryError
from_sqlx (database true constraint) = from_constraint constraint
from_sqlx (database false constraint) = general
from_sqlx other = general

-- The unique indexes that a write to these tables can violate.
pub data UniqueKey : Type 0 where
  accounts_pkey account_identifiers_domain_identifier_key : UniqueKey
  spark_accounts_pkey spark_accounts_pubkey_key : UniqueKey
  blink_accounts_pkey blink_accounts_blink_account_id_key : UniqueKey

-- What a call reads from outside: the clock in seconds, the id that `generate_account_id` returns,
-- and the name that the driver gives for a violated index.
pub record Env : Type 0 where
  pub now : ℕ
  pub account_id : AccountProvider → Text
  pub constraint : UniqueKey → Option Text

abbrev pub violation : Env → UniqueKey → LnurlRepositoryError
violation env k = from_sqlx (database true (env.constraint k))

abbrev pub account_is : Text → AccountRow → Bool
account_is id r = r.account_id == id

abbrev pub spark_is : Text → SparkRow → Bool
spark_is id r = r.account_id == id

abbrev pub pubkey_is : Text → SparkRow → Bool
pubkey_is pk r = r.pubkey == pk

abbrev pub blink_is : Text → BlinkRow → Bool
blink_is id r = r.account_id == id

abbrev pub blink_id_is : Text → BlinkRow → Bool
blink_id_is id r = r.blink_account_id == id

abbrev pub named : Text → Text → IdentifierRow → Bool
named domain identifier r = r.domain == domain && r.identifier == identifier

-- INSERT INTO accounts.
unfoldable pub insert_account :
    Env → AccountRow → List AccountRow → Result LnurlRepositoryError (List AccountRow)
insert_account env r rows =
    if exists (account_is r.account_id) rows
    then err (violation env accounts_pkey)
    else ok (r ∷ rows)

-- A row of INSERT INTO spark_accounts (account_id, pubkey, created_at, updated_at).
abbrev pub new_spark_row : Text → Text → ℕ → SparkRow
new_spark_row account_id pubkey now = record {
  account_id = account_id;
  pubkey = pubkey;
  created_at = now;
  updated_at = now;
  mode = none;
  mode_source = none;
  mode_updated_at = none;
  mode_last_timestamp = none;
  country = none;
  country_updated_at = none;
}

unfoldable pub insert_spark :
    Env → SparkRow → List SparkRow → Result LnurlRepositoryError (List SparkRow)
insert_spark env r rows =
    if exists (spark_is r.account_id) rows
    then err (violation env spark_accounts_pkey)
    else if exists (pubkey_is r.pubkey) rows
    then err (violation env spark_accounts_pubkey_key)
    else ok (r ∷ rows)

-- DELETE of the other usernames of an account on a domain.
abbrev pub other_username : Text → Text → Text → IdentifierRow → Bool
other_username account_id domain identifier r =
    r.account_id == account_id
    && r.domain == domain
    && kind_eq r.identifier_kind username
    && not (r.identifier == identifier)

-- A method that returns `Err` inside a transaction has dropped it, which rolls it back.
abbrev pub transact :
    (Db → Result LnurlRepositoryError Db) → Db → Result LnurlRepositoryError (Unit {0}) × Db
transact body db = elim (body db) [ ok db' ↦ (ok tt, db') | err e ↦ (err e, db) ]
