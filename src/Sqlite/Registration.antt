-- ===== src/Sqlite/Registration.antt =====
-- Registering, first contact and unregistering of Spark accounts (src/sqlite/repository.rs).
pub mod Laws
pub mod Outcome
pub mod Recovery
use blink_lnurl_server.Prelude.{
  ℕ, Bool, true, false, not, ◌&&◌, Option, none, some, List, [], ◌∷◌, nat_eq, if◌then◌else◌, Text,
  ◌==◌, Result, ok, err, ◌>>=◌, ◌>>◌, refuse_if, is_some,
}
use blink_lnurl_server.Repository.{
  AccountProvider, spark, provider_eq, NewAccountIdentifier, NewSparkRegistration, StatementClaim,
  LnurlRepositoryError, invalid_provider, identifier_conflict, invalid_ownership, source_not_owner,
  validate,
}
use blink_lnurl_server.Sqlite.Query.{find, exists, count, delete, update}
use blink_lnurl_server.Sqlite.Tables.{
  AccountRow, IdentifierRow, SparkRow, Db, Env, accounts_pkey, spark_accounts_pkey,
  spark_accounts_pubkey_key, account_identifiers_domain_identifier_key, violation, account_is,
  spark_is, pubkey_is, named, new_spark_row, insert_account, insert_spark, other_username, transact,
}
use blink_lnurl_server.Sqlite.Claims.{claim_statement}

-- INSERT INTO accounts … ON CONFLICT(account_id) DO UPDATE SET provider, updated_at.
unfoldable pub upsert_account : ℕ → Text → AccountProvider → List AccountRow → List AccountRow
upsert_account now id provider rows =
    if exists (account_is id) rows
    then update (account_is id) (λ r. record r { provider = provider; updated_at = now }) rows
    else record { account_id = id; provider = provider; created_at = now; updated_at = now } ∷ rows

-- INSERT INTO spark_accounts … ON CONFLICT(account_id) DO UPDATE SET pubkey, updated_at, under the
-- unique index on the pubkey.
unfoldable pub upsert_spark :
    Env → Text → Text → List SparkRow → Result LnurlRepositoryError (List SparkRow)
upsert_spark env id pubkey rows =
    if exists (λ r. pubkey_is pubkey r && not (spark_is id r)) rows
    then err (violation env spark_accounts_pubkey_key)
    else if exists (spark_is id) rows
    then ok (update (spark_is id) (λ r. record r { pubkey = pubkey; updated_at = env.now }) rows)
    else ok (new_spark_row id pubkey env.now ∷ rows)

-- INSERT INTO account_identifiers … ON CONFLICT(account_id, domain, identifier) DO UPDATE, under
-- the unique index on domain and identifier.
unfoldable pub upsert_identifier :
    Env
    → Text
    → NewAccountIdentifier
    → List IdentifierRow
    → Result LnurlRepositoryError (List IdentifierRow)
upsert_identifier env id new rows =
    if exists (λ r. named new.domain new.identifier r && not (r.account_id == id)) rows
    then err (violation env account_identifiers_domain_identifier_key)
    else if exists (λ r. named new.domain new.identifier r && r.account_id == id) rows
    then ok (
        update (λ r. named new.domain new.identifier r && r.account_id == id)
          (λ r. record r {
            identifier_kind = new.identifier_kind;
            description = new.description;
            updated_at = env.now;
          })
          rows)
    else ok (
        record {
          account_id = id;
          domain = new.domain;
          identifier = new.identifier;
          identifier_kind = new.identifier_kind;
          description = new.description;
          created_at = env.now;
          updated_at = env.now;
        }
        ∷ rows)

-- The account that a registration is for: the one it names, that of the pubkey, or a new one.
unfoldable pub registered_account : Env → NewSparkRegistration → Db → Text
registered_account env reg db = elim reg.account_id [
  | some id ↦ id
  | none ↦ elim (find (pubkey_is reg.pubkey) db.spark_accounts) [
    | some r ↦ r.account_id
    | none ↦ env.account_id spark
  ]
]

abbrev pub has_other_provider : AccountProvider → Option AccountRow → Bool
has_other_provider p none = false
has_other_provider p (some r) = not (provider_eq r.provider p)

abbrev pub identifier_of_other : Text → Option IdentifierRow → Bool
identifier_of_other id none = false
identifier_of_other id (some r) = not (r.account_id == id)

abbrev pub pubkey_of_other : Text → Option SparkRow → Bool
pubkey_of_other id none = false
pubkey_of_other id (some r) = not (r.account_id == id)

-- The three refusals that stand before the writes.
unfoldable pub registration_checks :
    Text → NewSparkRegistration → Db → Result LnurlRepositoryError (Unit {0})
registration_checks id reg db = do
  refuse_if (has_other_provider spark (find (account_is id) db.accounts)) invalid_provider
  refuse_if
      (identifier_of_other id
        (find (named reg.identifier.domain reg.identifier.identifier) db.account_identifiers))
      identifier_conflict
  refuse_if (pubkey_of_other id (find (pubkey_is reg.pubkey) db.spark_accounts)) invalid_ownership

unfoldable pub registration_writes :
    Env → Text → NewSparkRegistration → Db → Result LnurlRepositoryError Db
registration_writes env id reg db = do
  let new = reg.identifier
  let kept = delete (other_username id new.domain new.identifier) db.account_identifiers
  spark_accounts ← upsert_spark env id reg.pubkey db.spark_accounts
  identifiers ← upsert_identifier env id new kept
  ok (record db {
    accounts = upsert_account env.now id spark db.accounts;
    spark_accounts = spark_accounts;
    account_identifiers = identifiers;
  })

unfoldable pub registration_body : Env → NewSparkRegistration → Db → Result LnurlRepositoryError Db
registration_body env reg db = do
  validate reg
  claimed ← claim_statement env reg.claim db
  let id = registered_account env reg claimed
  registration_checks id reg claimed
  registration_writes env id reg claimed

unfoldable pub upsert_spark_registration :
    Env → NewSparkRegistration → Db → Result LnurlRepositoryError (Unit {0}) × Db
upsert_spark_registration env reg = transact (registration_body env reg)

-- First contact of a pubkey.
-- Another first contact may have won since the look-up: then the transaction is rolled back.
unfoldable pub ensure_tx : Env → Text → Db → Result LnurlRepositoryError (Unit {0}) × Db
ensure_tx env pubkey db =
    let id = env.account_id spark in
    if exists (account_is id) db.accounts
    then (err (violation env accounts_pkey), db)
    else if exists (pubkey_is pubkey) db.spark_accounts
    then (ok tt, db)
    else if exists (spark_is id) db.spark_accounts
    then (err (violation env spark_accounts_pkey), db)
    else (
      ok tt,
      record db {
        accounts =
            record { account_id = id; provider = spark; created_at = env.now; updated_at = env.now }
            ∷ db.accounts;
        spark_accounts = new_spark_row id pubkey env.now ∷ db.spark_accounts;
      },
    )

unfoldable pub ensure_spark_account : Env → Text → Db → Result LnurlRepositoryError (Unit {0}) × Db
ensure_spark_account env pubkey db =
    if is_some (find (pubkey_is pubkey) db.spark_accounts)
    then (ok tt, db)
    else ensure_tx env pubkey db

abbrev pub owned_name : Text → Text → Text → IdentifierRow → Bool
owned_name id domain identifier r = r.account_id == id && named domain identifier r

unfoldable pub delete_owned : Text → Text → Text → Db → Result LnurlRepositoryError Db
delete_owned id domain identifier db =
    if nat_eq (count (owned_name id domain identifier) db.account_identifiers) 0
    then err source_not_owner
    else ok (record db {
      account_identifiers = delete (owned_name id domain identifier) db.account_identifiers;
    })

unfoldable pub delete_of_owner : Option SparkRow → Text → Text → Db → Result LnurlRepositoryError Db
delete_of_owner none domain identifier db = err source_not_owner
delete_of_owner (some r) domain identifier db = delete_owned r.account_id domain identifier db

unfoldable pub unregister_body :
    Env → Text → Text → Text → Option StatementClaim → Db → Result LnurlRepositoryError Db
unregister_body env domain pubkey identifier claim db = do
  claimed ← claim_statement env claim db
  delete_of_owner (find (pubkey_is pubkey) claimed.spark_accounts) domain identifier claimed

unfoldable pub delete_spark_registration :
    Env
    → Text
    → Text
    → Text
    → Option StatementClaim
    → Db
    → Result LnurlRepositoryError (Unit {0}) × Db
delete_spark_registration env domain pubkey identifier claim =
    transact (unregister_body env domain pubkey identifier claim)
