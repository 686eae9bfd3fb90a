-- ===== src/Sqlite/History/Names.antt =====
-- The names of an account through histories of calls (src/sqlite/repository.rs).
use blink_lnurl_server.Prelude.{
  ◌≡◌, refl, sym, Bool, false, ◌||◌, some, List, [], ◌∷◌, arith, Text, ◌==◌, Result, ok, err,
  >>=-eq-ok,
}
use blink_lnurl_server.Repository.{spark, SparkModeUpdate, NewBlinkAccount, LnurlRepositoryError}
use blink_lnurl_server.Sqlite.Query.{find}
use blink_lnurl_server.Sqlite.Tables.{
  IdentifierRow, Db, Env, pubkey_is, named, insert_account, transact,
}
use blink_lnurl_server.Sqlite.Claims.{delete_expired_signed_messages}
use blink_lnurl_server.Sqlite.Registration.{
  registered_account, registration_body, upsert_spark_registration, unregister_body,
  delete_spark_registration, ensure_spark_account, ensure_tx,
}
use blink_lnurl_server.Sqlite.Transfer.{
  transfer_body, transfer_identifier, blink_transfer_body, transfer_blink_identifier_to_spark,
}
use blink_lnurl_server.Sqlite.Mode.{
  write_mode, upsert_spark_mode, refresh_spark_country_evidence, set_spark_mode_enhanced_if_unset,
}
use blink_lnurl_server.Sqlite.Blink.{
  create_body, create_blink_account, create_checks, insert_blink, insert_identifiers,
  blink_account_id_of, update_blink_default_wallet,
}
use blink_lnurl_server.Sqlite.History.{
  Call, registers, unregisters, transfers, moves_blink, sets_mode, contacts, writes_mode, refreshes,
  enhances, creates_blink, updates_wallet, prunes, discard, step, run,
}
use blink_lnurl_server.Sqlite.History.Held.{
  Held, is_account, registration_body-Held, unregister_body-Held, transfer_body-Held,
  blink_transfer_body-Held, insert_identifiers-Held,
}

-- The calls that act for an account: a registration of the account, an unregistration signed with
-- its pubkey, and a transfer from it or to it.
unfoldable pub acts_for : Text → Call → Db → Bool
acts_for o (registers env reg) db = o == registered_account env reg db
acts_for o (unregisters env domain pubkey identifier claim) db =
    is_account o (find (pubkey_is pubkey) db.spark_accounts)
acts_for o (transfers env t) db =
    o == t.source_account_id
    || (is_account o (find (pubkey_is t.destination_spark_pubkey) db.spark_accounts)
        || env.account_id spark == o)
acts_for o (moves_blink env t) db =
    o == t.source_account_id
    || (is_account o (find (pubkey_is t.destination_spark_pubkey) db.spark_accounts)
        || env.account_id spark == o)
acts_for o _ db = false

transact-Held :
    (d n : Text) (i : IdentifierRow) (body : Db → Result LnurlRepositoryError Db) (db : Db)
    → ((db' : Db) → body db ≡ ok db' → Held d n i db'.account_identifiers)
    → Held d n i db.account_identifiers
    → Held d n i (transact body db).1.account_identifiers
transact-Held d n i body db k v = after (body db) k
  where
    after :
        (m : Result LnurlRepositoryError Db)
        → ((db' : Db) → m ≡ ok db' → Held d n i db'.account_identifiers)
        → (let answer : Result LnurlRepositoryError (Unit {0}) × Db = elim m [
          | ok db' ↦ (ok tt, db')
          | err e ↦ (err e, db)
        ] in
            Held d n i answer.1.account_identifiers)
    after (ok db') l = l db' refl
    after (err e) l = v

create_body-Held :
    (d n : Text) (i : IdentifierRow) (env : Env) (new : NewBlinkAccount) (db db' : Db)
    → create_body env new db ≡ ok db'
    → Held d n i db.account_identifiers
    → Held d n i db'.account_identifiers
unfolding create_body
create_body-Held d n i env new db db' h k =
    let (_, _, h1) = >>=-eq-ok (create_checks (blink_account_id_of env new) new db) _ h in
    let (_, _, h2) = >>=-eq-ok (insert_account env _ db.accounts) _ h1 in
    let (_, _, h3) = >>=-eq-ok (insert_blink env _ db.blink_accounts) _ h2 in
    let (names, m, h4) =
      >>=-eq-ok
        (insert_identifiers env (blink_account_id_of env new) new.identifiers
          db.account_identifiers)
        _ h3 in
    let e : names ≡ db'.account_identifiers = ground arith in
    rw (sym e) (
      insert_identifiers-Held d n i env (blink_account_id_of env new) new.identifiers
        db.account_identifiers names m k)

ensure_tx-names :
    (env : Env) (pk : Text) (db : Db)
    → (ensure_tx env pk db).1.account_identifiers ≡ db.account_identifiers
unfolding ensure_tx
ensure_tx-names env pk db = ground arith

ensure-names :
    (env : Env) (pk : Text) (db : Db)
    → (ensure_spark_account env pk db).1.account_identifiers ≡ db.account_identifiers
unfolding ensure_spark_account ensure_tx
ensure-names env pk db = ground arith

write_mode-names :
    (env : Env) (u : SparkModeUpdate) (db : Db)
    → (write_mode env u db).1.account_identifiers ≡ db.account_identifiers
unfolding write_mode
write_mode-names env u db = ground arith

upsert_spark_mode-names :
    (env : Env) (u : SparkModeUpdate) (db : Db)
    → (upsert_spark_mode env u db).1.account_identifiers ≡ db.account_identifiers
unfolding upsert_spark_mode
upsert_spark_mode-names env u db =
    after (ensure_spark_account env u.pubkey db) (ensure-names env u.pubkey db)
  where
    after :
        (m : Result LnurlRepositoryError (Unit {0}) × Db)
        → m.1.account_identifiers ≡ db.account_identifiers
        → (let answer : Result LnurlRepositoryError (Unit {0}) × Db = elim m.0 [
          | err e ↦ (err e, m.1)
          | ok _ ↦ write_mode env u m.1
        ] in
            answer.1.account_identifiers ≡ db.account_identifiers)
    after (ok x, made) w = rw (write_mode-names env u made) w
    after (err e, made) w = w

-- Whatever call comes next, if it does not act for the account that holds a name, the row of that
-- name is as it was.
pub step-keeps_names :
    (d n : Text) (i : IdentifierRow) (c : Call) (db : Db)
    → find (named d n) db.account_identifiers ≡ some i
    → acts_for i.account_id c db ≡ false
    → find (named d n) (step c db).1.account_identifiers ≡ some i
unfolding step acts_for
step-keeps_names d n i (registers env reg) db k o =
    unfold upsert_spark_registration in
    transact-Held d n i (registration_body env reg) db
      (λ db' e. registration_body-Held d n i env reg db db' e o k) k
step-keeps_names d n i (unregisters env d' pk n' claim) db k o =
    unfold delete_spark_registration in
    transact-Held d n i (unregister_body env d' pk n' claim) db
      (λ db' e. unregister_body-Held d n i env d' pk n' claim db db' e o k) k
step-keeps_names d n i (transfers env t) db k o =
    unfold transfer_identifier in
    transact-Held d n i (transfer_body env t) db
      (λ db' e. transfer_body-Held d n i env t db db' e (ground arith) (ground arith) k) k
step-keeps_names d n i (moves_blink env t) db k o =
    unfold transfer_blink_identifier_to_spark in
    transact-Held d n i (blink_transfer_body env t) db
      (λ db' e. blink_transfer_body-Held d n i env t db db' e (ground arith) (ground arith) k) k
step-keeps_names d n i (sets_mode env u) db k o = rw (upsert_spark_mode-names env u db) k
step-keeps_names d n i (contacts env pk) db k o = rw (ensure_tx-names env pk db) k
step-keeps_names d n i (writes_mode env u) db k o = rw (write_mode-names env u db) k
step-keeps_names d n i (refreshes env pk country) db k o =
    unfold refresh_spark_country_evidence in k
step-keeps_names d n i (enhances env pk) db k o = unfold set_spark_mode_enhanced_if_unset in k
step-keeps_names d n i (creates_blink env new) db k o =
    unfold create_blink_account in
    transact-Held d n i (create_body env new) db
      (λ db' e. create_body-Held d n i env new db db' e k) k
step-keeps_names d n i (updates_wallet env id wallet) db k o =
    discarded (update_blink_default_wallet env id wallet db)
      (unfold update_blink_default_wallet in k)
  where
    discarded :
        {A : Type 0} (m : Result LnurlRepositoryError A × Db)
        → Held d n i m.1.account_identifiers
        → Held d n i (discard m).1.account_identifiers
    discarded (ok a, db') w = w
    discarded (err e, db') w = w
step-keeps_names d n i (prunes now) db k o = unfold delete_expired_signed_messages in k

-- No call of the history acts for the account.
abbrev pub NoneActs : Text → List Call → Db → Type 0
NoneActs o [] db = Unit {0}
NoneActs o (c ∷ calls) db = (acts_for o c db ≡ false) × NoneActs o calls (step c db).1

-- In every history in which no call acts for the account that holds a name, the row of that name is
-- at the end as it was at the start.
pub run-keeps_names :
    (d n : Text) (i : IdentifierRow) (calls : List Call) (db : Db)
    → find (named d n) db.account_identifiers ≡ some i
    → NoneActs i.account_id calls db
    → find (named d n) (run calls db).account_identifiers ≡ some i
unfolding run
run-keeps_names d n i [] db k o = k
run-keeps_names d n i (c ∷ calls) db k o =
    run-keeps_names d n i calls (step c db).1 (step-keeps_names d n i c db k o.0) o.1
