-- ===== src/Sqlite/Integrity/Calls.antt =====
-- Integrity and the transactions of registering and unregistering (src/sqlite/repository.rs).
use mathlib.Core.Path.{subst}
use blink_lnurl_server.Prelude.{
  ◌≡◌, Bool, false, Option, none, some, List, arith, Text, ok, >>=-eq-ok,
}
use blink_lnurl_server.Repository.{spark, blink, NewSparkRegistration, StatementClaim}
use blink_lnurl_server.Sqlite.Query.{find, delete}
use blink_lnurl_server.Sqlite.Query.Keys.{Every-mono, Every-delete, Distinct-delete, exists_mono}
use blink_lnurl_server.Sqlite.Tables.{
  IdentifierRow, SparkRow, Db, Env, account_is, pubkey_is, other_username,
}
use blink_lnurl_server.Sqlite.Claims.{claim_statement}
use blink_lnurl_server.Sqlite.Claims.Laws.{claim_statement-ok}
use blink_lnurl_server.Sqlite.Registration.{
  upsert_account, upsert_spark, upsert_identifier, registered_account, registration_checks,
  registration_writes, registration_body, has_other_provider, delete_of_owner, delete_owned,
  owned_name, unregister_body,
}
use blink_lnurl_server.Sqlite.Registration.Laws.{registration_body-ok, unregister_body-ok}
use blink_lnurl_server.Sqlite.Transfer.{has_account}
use blink_lnurl_server.Sqlite.Integrity.{Integrity}
use blink_lnurl_server.Sqlite.Integrity.Rows.{
  provider-Every, upsert_account-Unique, upsert_account-grows, upsert_account-has,
  upsert_account-made,
}
use blink_lnurl_server.Sqlite.Integrity.Parts.{
  upsert_spark-keeps, upsert_identifier-keeps, Backed-mono, upsert_account-Backed,
}

pub claim_statement-Integrity :
    (env : Env) (claim : Option StatementClaim) (db db' : Db)
    → claim_statement env claim db ≡ ok db'
    → Integrity db
    → Integrity db'
claim_statement-Integrity env none db db' h v =
    let e : db ≡ db' = unfold claim_statement in ground arith in subst Integrity e v
claim_statement-Integrity env (some c) db db' h v =
    let k = claim_statement-ok env c db db' h in
    rw k.1 (record {
      accounts = v.accounts;
      names = v.names;
      sparks = v.sparks;
      pubkeys = v.pubkeys;
      blinks = v.blinks;
      blink_ids = v.blink_ids;
      claims = (k.0, v.claims);
      names_owned = v.names_owned;
      sparks_owned = v.sparks_owned;
      blinks_owned = v.blinks_owned;
      backed = v.backed;
    })

-- The writes of a registration, one after another.
pub registration_writes-parts :
    (env : Env) (id : Text) (reg : NewSparkRegistration) (db db' : Db)
    → registration_writes env id reg db ≡ ok db'
    → (sparks : List SparkRow) × (names : List IdentifierRow) × (upsert_spark env id reg.pubkey
          db.spark_accounts
        ≡ ok sparks)
      × (upsert_identifier env id reg.identifier (
            delete
              (other_username id reg.identifier.domain reg.identifier.identifier)
              db.account_identifiers)
          ≡ ok names)
      × (record db {
        accounts = upsert_account env.now id spark db.accounts;
        spark_accounts = sparks;
        account_identifiers = names;
      }
          ≡ db')
unfolding registration_writes
registration_writes-parts env id reg db db' h =
    let (sparks, s, h1) = >>=-eq-ok (upsert_spark env id reg.pubkey db.spark_accounts) _ h in
    let (names, n, h2) =
      >>=-eq-ok
        (upsert_identifier env id reg.identifier (
          delete (other_username id reg.identifier.domain reg.identifier.identifier)
            db.account_identifiers))
        _ h1 in
    (sparks, names, s, n, ground arith)

checks-provider :
    (id : Text) (reg : NewSparkRegistration) (db : Db)
    → registration_checks id reg db ≡ ok tt
    → has_other_provider spark (find (account_is id) db.accounts) ≡ false
unfolding registration_checks
checks-provider id reg db h = ground arith

registration_writes-Integrity :
    (env : Env) (id : Text) (reg : NewSparkRegistration) (db db' : Db)
    → registration_checks id reg db ≡ ok tt
    → registration_writes env id reg db ≡ ok db'
    → Integrity db
    → Integrity db'
registration_writes-Integrity env id reg db db' k h v =
    let (sparks, names, s, n, e) = registration_writes-parts env id reg db db' h in
    let only = provider-Every spark id db.accounts v.accounts (checks-provider id reg db k) in
    let accounts = upsert_account env.now id spark db.accounts in
    let made = upsert_account-made env.now id db.accounts in
    let has = upsert_account-has env.now id db.accounts in
    let sp =
      upsert_spark-keeps env id reg.pubkey accounts db.spark_accounts sparks s v.sparks v.pubkeys
        (Every-mono _ _ db.spark_accounts (λ r. has spark r.account_id only) v.sparks_owned) made in
    let gone = other_username id reg.identifier.domain reg.identifier.identifier in
    let nm =
      upsert_identifier-keeps env id reg.identifier accounts (delete gone db.account_identifiers)
        names n (Distinct-delete _ gone db.account_identifiers v.names)
        (Every-delete _ gone db.account_identifiers (
          Every-mono _ _ db.account_identifiers
            (λ r. upsert_account-grows env.now id db.accounts r.account_id) v.names_owned))
        (exists_mono (has_account spark id) (account_is id) accounts (λ r h. ground arith) made) in
    subst Integrity e (record {
      accounts = upsert_account-Unique env.now id db.accounts v.accounts;
      names = nm.0;
      sparks = sp.0;
      pubkeys = sp.1;
      blinks = v.blinks;
      blink_ids = v.blink_ids;
      claims = v.claims;
      names_owned = nm.1;
      sparks_owned = sp.2;
      blinks_owned =
          Every-mono _ _ db.blink_accounts (λ r. has blink r.account_id only) v.blinks_owned;
      backed =
          upsert_account-Backed env.now id sparks db.blink_accounts db.accounts sp.4
            (Backed-mono db.spark_accounts sparks db.blink_accounts db.accounts sp.3 v.backed);
    })

pub registration_body-Integrity :
    (env : Env) (reg : NewSparkRegistration) (db db' : Db)
    → registration_body env reg db ≡ ok db'
    → Integrity db
    → Integrity db'
registration_body-Integrity env reg db db' h v =
    let (claimed, _, c, k, w) = registration_body-ok env reg db db' h in
    registration_writes-Integrity env (registered_account env reg claimed) reg claimed db' k w
      (claim_statement-Integrity env reg.claim db claimed c v)

-- Fewer names.
pub fewer_names-Integrity :
    (p : IdentifierRow → Bool) (db : Db)
    → Integrity db
    → Integrity (record db { account_identifiers = delete p db.account_identifiers })
fewer_names-Integrity p db v = record {
  accounts = v.accounts;
  names = Distinct-delete _ p db.account_identifiers v.names;
  sparks = v.sparks;
  pubkeys = v.pubkeys;
  blinks = v.blinks;
  blink_ids = v.blink_ids;
  claims = v.claims;
  names_owned = Every-delete _ p db.account_identifiers v.names_owned;
  sparks_owned = v.sparks_owned;
  blinks_owned = v.blinks_owned;
  backed = v.backed;
}

delete_of_owner-Integrity :
    (o : Option SparkRow) (d i : Text) (db db' : Db)
    → delete_of_owner o d i db ≡ ok db'
    → Integrity db
    → Integrity db'
unfolding delete_of_owner delete_owned
delete_of_owner-Integrity none d i db db' h v = cc
delete_of_owner-Integrity (some r) d i db db' h v =
    let e : record db {
      account_identifiers = delete (owned_name r.account_id d i) db.account_identifiers;
    }
        ≡ db' =
      ground arith in
    subst Integrity e (fewer_names-Integrity (owned_name r.account_id d i) db v)

pub unregister_body-Integrity :
    (env : Env) (d pk i : Text) (claim : Option StatementClaim) (db db' : Db)
    → unregister_body env d pk i claim db ≡ ok db'
    → Integrity db
    → Integrity db'
unregister_body-Integrity env d pk i claim db db' h v =
    let (claimed, c, w) = unregister_body-ok env d pk i claim db db' h in
    delete_of_owner-Integrity (find (pubkey_is pk) claimed.spark_accounts) d i claimed db' w
      (claim_statement-Integrity env claim db claimed c v)
