-- ===== src/Sqlite/Integrity.antt =====
-- The integrity of the accounts tables: the keys of migrations/sqlite, the references between the
-- tables, and that an account has the row of its provider and no other.
pub mod Rows
pub mod Parts
pub mod Calls
pub mod Moves
mod Updates
mod Creation
pub mod Steps
use blink_lnurl_server.Prelude.{◌≡◌, true, List, Text}
use blink_lnurl_server.Repository.{AccountProvider, spark, blink}
use blink_lnurl_server.Sqlite.Query.{exists}
use blink_lnurl_server.Sqlite.Query.Keys.{Every, Distinct}
use blink_lnurl_server.Sqlite.Tables.{
  AccountRow, IdentifierRow, SparkRow, BlinkRow, ClaimRow, Db, account_is, spark_is, pubkey_is,
  blink_is, blink_id_is, named,
}
use blink_lnurl_server.Sqlite.Claims.{hash_is}
use blink_lnurl_server.Sqlite.Transfer.{has_account}

abbrev pub UniqueAccounts : List AccountRow → Type 0
UniqueAccounts = Distinct λ r. account_is r.account_id

abbrev pub UniqueNames : List IdentifierRow → Type 0
UniqueNames = Distinct λ r. named r.domain r.identifier

abbrev pub UniqueSparks : List SparkRow → Type 0
UniqueSparks = Distinct λ r. spark_is r.account_id

abbrev pub UniquePubkeys : List SparkRow → Type 0
UniquePubkeys = Distinct λ r. pubkey_is r.pubkey

abbrev pub UniqueBlinks : List BlinkRow → Type 0
UniqueBlinks = Distinct λ r. blink_is r.account_id

abbrev pub UniqueBlinkIds : List BlinkRow → Type 0
UniqueBlinkIds = Distinct λ r. blink_id_is r.blink_account_id

abbrev pub UniqueClaims : List ClaimRow → Type 0
UniqueClaims = Distinct λ r. hash_is r.statement_hash

-- `account_id REFERENCES accounts(account_id)`.
abbrev pub NamesOwned : List AccountRow → List IdentifierRow → Type 0
NamesOwned accounts = Every λ r. exists (account_is r.account_id) accounts ≡ true

abbrev pub SparksOwned : List AccountRow → List SparkRow → Type 0
SparksOwned accounts = Every λ r. exists (has_account spark r.account_id) accounts ≡ true

abbrev pub BlinksOwned : List AccountRow → List BlinkRow → Type 0
BlinksOwned accounts = Every λ r. exists (has_account blink r.account_id) accounts ≡ true

abbrev pub Backed : List SparkRow → List BlinkRow → AccountProvider → Text → Type 0
Backed sparks blinks spark id = exists (spark_is id) sparks ≡ true
Backed sparks blinks blink id = exists (blink_is id) blinks ≡ true

abbrev pub AccountsBacked : List SparkRow → List BlinkRow → List AccountRow → Type 0
AccountsBacked sparks blinks = Every λ a. Backed sparks blinks a.provider a.account_id

pub record Integrity (db : Db) : Type 0 where
  pub accounts : UniqueAccounts db.accounts
  pub names : UniqueNames db.account_identifiers
  pub sparks : UniqueSparks db.spark_accounts
  pub pubkeys : UniquePubkeys db.spark_accounts
  pub blinks : UniqueBlinks db.blink_accounts
  pub blink_ids : UniqueBlinkIds db.blink_accounts
  pub claims : UniqueClaims db.used_signed_messages
  pub names_owned : NamesOwned db.accounts db.account_identifiers
  pub sparks_owned : SparksOwned db.accounts db.spark_accounts
  pub blinks_owned : BlinksOwned db.accounts db.blink_accounts
  pub backed : AccountsBacked db.spark_accounts db.blink_accounts db.accounts
