-- ===== src/Sqlite/Transfer.antt =====
-- Transfers of an identifier to a Spark account (src/sqlite/repository.rs).
pub mod Laws
pub mod Outcome
use blink_lnurl_server.Prelude.{
  ℕ, Bool, true, false, not, ◌&&◌, Option, none, some, List, [], ◌∷◌, nat_eq, if◌then◌else◌, Text,
  ◌==◌, Result, ok, err, ◌>>=◌, ◌>>◌, refuse_if, is_some,
}
use blink_lnurl_server.Repository.{
  AccountProvider, spark, blink, provider_eq, IdentifierTransfer, BlinkToSparkIdentifierTransfer,
  LnurlRepositoryError, invalid_provider, invalid_ownership, source_not_owner,
}
use blink_lnurl_server.Sqlite.Query.{find, exists, count, delete, update}
use blink_lnurl_server.Sqlite.Tables.{
  AccountRow, IdentifierRow, SparkRow, BlinkRow, Db, Env, account_is, spark_is, blink_is, pubkey_is,
  named, new_spark_row, insert_account, insert_spark, other_username, transact,
}
use blink_lnurl_server.Sqlite.Claims.{claim_statement}

abbrev pub is_owned_by : Text → Option IdentifierRow → Bool
is_owned_by id none = false
is_owned_by id (some r) = r.account_id == id

-- A join on `accounts` by a provider.
abbrev pub has_account : AccountProvider → Text → AccountRow → Bool
has_account p id r = account_is id r && provider_eq r.provider p

abbrev pub has_spark_account : Text → Db → Bool
has_spark_account id db =
    exists (has_account spark id) db.accounts && exists (spark_is id) db.spark_accounts

abbrev pub has_blink_account : Text → Db → Bool
has_blink_account id db =
    exists (has_account blink id) db.accounts && exists (blink_is id) db.blink_accounts

-- The account of the destination pubkey, made where there is none.
unfoldable pub make_destination : Env → Text → Db → Result LnurlRepositoryError (Text × Db)
make_destination env pubkey db = do
  let id = env.account_id spark
  accounts ←
      insert_account env
        (record { account_id = id; provider = spark; created_at = env.now; updated_at = env.now })
        db.accounts
  spark_accounts ← insert_spark env (new_spark_row id pubkey env.now) db.spark_accounts
  ok (id, record db { accounts = accounts; spark_accounts = spark_accounts })

-- The join of the pubkey's row with its account; where the account is missing there is no row.
unfoldable pub destination_of :
    Env → Text → Option SparkRow → Db → Result LnurlRepositoryError (Text × Db)
destination_of env pubkey none db = make_destination env pubkey db
destination_of env pubkey (some s) db = elim (find (account_is s.account_id) db.accounts) [
  | none ↦ make_destination env pubkey db
  | some a ↦ if provider_eq a.provider spark then ok (s.account_id, db) else err invalid_provider
]

abbrev pub moved : Text → Text → Text → IdentifierRow → Bool
moved domain identifier source r = named domain identifier r && r.account_id == source

-- UPDATE of the owner, then DELETE of the destination's other usernames on the domain.
unfoldable pub move_identifier :
    Env → Text → Text → Text → Text → Text → Db → Result LnurlRepositoryError Db
move_identifier env domain identifier source destination description db =
    if not (nat_eq (count (moved domain identifier source) db.account_identifiers) 1)
    then err source_not_owner
    else (let rows =
          update (moved domain identifier source)
            (λ r. record r {
              account_id = destination;
              description = description;
              updated_at = env.now;
            })
            db.account_identifiers in
        ok (record db {
          account_identifiers = delete (other_username destination domain identifier) rows;
        }))

unfoldable pub transfer_body : Env → IdentifierTransfer → Db → Result LnurlRepositoryError Db
transfer_body env t db = do
  claimed ← claim_statement env t.claim db
  refuse_if
      (not (
        is_owned_by t.source_account_id
          (find (named t.domain t.identifier) claimed.account_identifiers)))
      source_not_owner
  refuse_if (not (has_spark_account t.source_account_id claimed)) invalid_ownership
  (destination, made) ←
      destination_of env t.destination_spark_pubkey
        (find (pubkey_is t.destination_spark_pubkey) claimed.spark_accounts) claimed
  move_identifier env t.domain t.identifier t.source_account_id destination t.description made

unfoldable pub transfer_identifier :
    Env → IdentifierTransfer → Db → Result LnurlRepositoryError (Unit {0}) × Db
transfer_identifier env t = transact (transfer_body env t)

unfoldable pub blink_transfer_body :
    Env → BlinkToSparkIdentifierTransfer → Db → Result LnurlRepositoryError Db
blink_transfer_body env t db = do
  refuse_if
      (not (
        is_owned_by t.source_account_id
          (find (named t.domain t.identifier) db.account_identifiers)))
      source_not_owner
  refuse_if (not (has_blink_account t.source_account_id db)) invalid_ownership
  (destination, made) ←
      destination_of env t.destination_spark_pubkey
        (find (pubkey_is t.destination_spark_pubkey) db.spark_accounts) db
  move_identifier env t.domain t.identifier t.source_account_id destination t.description made

unfoldable pub transfer_blink_identifier_to_spark :
    Env → BlinkToSparkIdentifierTransfer → Db → Result LnurlRepositoryError (Unit {0}) × Db
transfer_blink_identifier_to_spark env t = transact (blink_transfer_body env t)
