-- ===== src/Sqlite/History/SparkSteps.antt =====
-- What each call does to the table of Spark accounts.
use mathlib.Core.Path.{subst}
use blink_lnurl_server.Prelude.{
  ◌≡◌, refl, sym, ◌∙◌, Option, none, some, List, arith, nat_eq, Text, Bool-cases, Option-cases, inl,
  inr, Result, ok, err, is_some,
}
use blink_lnurl_server.Repository.{
  spark, SparkModeUpdate, StatementClaim, IdentifierTransfer, BlinkToSparkIdentifierTransfer,
  NewBlinkAccount, LnurlRepositoryError,
}
use blink_lnurl_server.Sqlite.Query.{find, exists, count}
use blink_lnurl_server.Sqlite.Tables.{
  SparkRow, Db, Env, account_is, spark_is, pubkey_is, insert_account, insert_spark, transact,
}
use blink_lnurl_server.Sqlite.Claims.{delete_expired_signed_messages}
use blink_lnurl_server.Sqlite.Claims.Laws.{claim_statement-tables}
use blink_lnurl_server.Sqlite.Registration.{
  registration_body, upsert_spark_registration, ensure_spark_account, ensure_tx, delete_of_owner,
  delete_owned, unregister_body, delete_spark_registration,
}
use blink_lnurl_server.Sqlite.Registration.Laws.{unregister_body-ok}
use blink_lnurl_server.Sqlite.Transfer.{
  make_destination, destination_of, transfer_body, transfer_identifier, blink_transfer_body,
  transfer_blink_identifier_to_spark,
}
use blink_lnurl_server.Sqlite.Transfer.Laws.{
  transfer_body-ok, blink_transfer_body-ok, move_identifier-ok,
}
use blink_lnurl_server.Sqlite.Mode.{
  accepts, write_mode, upsert_spark_mode, refresh_spark_country_evidence,
  set_spark_mode_enhanced_if_unset,
}
use blink_lnurl_server.Sqlite.Blink.{create_body, create_blink_account, update_blink_default_wallet}
use blink_lnurl_server.Sqlite.History.{
  Call, registers, unregisters, transfers, moves_blink, sets_mode, contacts, writes_mode, refreshes,
  enhances, creates_blink, updates_wallet, prunes, discard, step,
}
use blink_lnurl_server.Sqlite.History.Sparks.{
  SparkChange, unchanged, adds, sets, locates, migrates, IsNewcomer, registration_body-sparks,
}

delete_of_owner-sparks :
    (o : Option SparkRow) (d n : Text) (db db' : Db)
    → delete_of_owner o d n db ≡ ok db'
    → db'.spark_accounts ≡ db.spark_accounts
unfolding delete_of_owner delete_owned
delete_of_owner-sparks none d n db db' h = cc
delete_of_owner-sparks (some r) d n db db' h = ground arith

unregister_body-sparks :
    (env : Env) (d pk n : Text) (claim : Option StatementClaim) (db db' : Db)
    → unregister_body env d pk n claim db ≡ ok db'
    → db'.spark_accounts ≡ db.spark_accounts
unregister_body-sparks env d pk n claim db db' h =
    let (claimed, c, w) = unregister_body-ok env d pk n claim db db' h in
    delete_of_owner-sparks (find (pubkey_is pk) claimed.spark_accounts) d n claimed db' w
    ∙ (claim_statement-tables env claim db claimed c).1

make_destination-sparks :
    (env : Env) (pk id : Text) (db made : Db)
    → make_destination env pk db ≡ ok (id, made)
    → SparkChange (Unit {0}) db.spark_accounts made.spark_accounts
unfolding make_destination insert_spark insert_account
make_destination-sparks env pk id db made h =
    adds (env.account_id spark) pk env.now (ground arith) (ground arith)

destination_of-sparks :
    (env : Env) (pk id : Text) (o : Option SparkRow) (db made : Db)
    → destination_of env pk o db ≡ ok (id, made)
    → SparkChange (Unit {0}) db.spark_accounts made.spark_accounts
unfolding destination_of
destination_of-sparks env pk id none db made h = make_destination-sparks env pk id db made h
destination_of-sparks env pk id (some s) db made h =
    elim (Option-cases (find (account_is s.account_id) db.accounts)) [
      | inl gone ↦ make_destination-sparks env pk id db made (ground arith)
      | inr (a, f) ↦ unchanged (ground arith)
    ]

transfer_body-sparks :
    (env : Env) (t : IdentifierTransfer) (db db' : Db)
    → transfer_body env t db ≡ ok db'
    → SparkChange (Unit {0}) db.spark_accounts db'.spark_accounts
transfer_body-sparks env t db db' h =
    let (claimed, id, made, c, _, _, x, w) = transfer_body-ok env t db db' h in
    let moved =
      move_identifier-ok env t.domain t.identifier t.source_account_id id t.description made db'
        w in
    subst (λ rows. SparkChange (Unit {0}) rows db'.spark_accounts)
      (claim_statement-tables env t.claim db claimed c).1
      (subst (λ rows. SparkChange (Unit {0}) claimed.spark_accounts rows) (sym moved.3)
        (destination_of-sparks env t.destination_spark_pubkey id _ claimed made x))

blink_transfer_body-sparks :
    (env : Env) (t : BlinkToSparkIdentifierTransfer) (db db' : Db)
    → blink_transfer_body env t db ≡ ok db'
    → SparkChange (Unit {0}) db.spark_accounts db'.spark_accounts
blink_transfer_body-sparks env t db db' h =
    let (id, made, _, _, x, w) = blink_transfer_body-ok env t db db' h in
    let moved =
      move_identifier-ok env t.domain t.identifier t.source_account_id id t.description made db'
        w in
    subst (λ rows. SparkChange (Unit {0}) db.spark_accounts rows) (sym moved.3)
      (destination_of-sparks env t.destination_spark_pubkey id _ db made x)

create_body-sparks :
    (env : Env) (new : NewBlinkAccount) (db db' : Db)
    → create_body env new db ≡ ok db'
    → db'.spark_accounts ≡ db.spark_accounts
unfolding create_body
create_body-sparks env new db db' h = ground arith

ensure_tx-sparks :
    (env : Env) (pk : Text) (db : Db)
    → SparkChange (Unit {0}) db.spark_accounts (ensure_tx env pk db).1.spark_accounts
unfolding ensure_tx
ensure_tx-sparks env pk db =
    elim (Bool-cases (exists (account_is (env.account_id spark)) db.accounts)) [
      | inl a ↦ rw a (unchanged refl)
      | inr a ↦ rw a elim (Bool-cases (exists (pubkey_is pk) db.spark_accounts)) [
        | inl p ↦ rw p (unchanged refl)
        | inr p ↦
            rw p elim (Bool-cases (exists (spark_is (env.account_id spark)) db.spark_accounts)) [
              | inl s ↦ rw s (unchanged refl)
              | inr s ↦ rw s (adds (env.account_id spark) pk env.now p refl)
            ]
      ]
    ]

ensure_spark_account-sparks :
    (env : Env) (pk : Text) (db : Db)
    → SparkChange (Unit {0}) db.spark_accounts (ensure_spark_account env pk db).1.spark_accounts
unfolding ensure_spark_account
ensure_spark_account-sparks env pk db =
    elim (Bool-cases (is_some (find (pubkey_is pk) db.spark_accounts))) [
      | inl known ↦ rw known (unchanged refl)
      | inr unknown ↦ rw unknown (ensure_tx-sparks env pk db)
    ]

write_mode-sparks :
    (env : Env) (u : SparkModeUpdate) (db : Db)
    → SparkChange (Unit {0}) db.spark_accounts (write_mode env u db).1.spark_accounts
unfolding write_mode
write_mode-sparks env u db = elim (Bool-cases (nat_eq (count (accepts u) db.spark_accounts) 0)) [
  | inl z ↦ rw z (unchanged refl)
  | inr w ↦ rw w (sets u env.now refl)
]

-- A call that registers is natural where it registers a newcomer.
abbrev pub IsNatural : Call → Db → Type 0
IsNatural (registers env reg) db = IsNewcomer env reg db.spark_accounts
IsNatural _ db = Unit {0}

-- A call makes at most two changes of the table, and its last one is a change of pubkeys only in a
-- registration.
abbrev pub Changes : Type 0 → List SparkRow → List SparkRow → Type 0
Changes natural rows rows' =
    (mid : List SparkRow) × SparkChange (Unit {0}) rows mid × SparkChange natural mid rows'

once :
    (natural : Type 0) (rows rows' : List SparkRow)
    → SparkChange natural rows rows'
    → Changes natural rows rows'
once natural rows rows' c = (rows, unchanged refl, c)

transact-sparks :
    (natural : Type 0) (body : Db → Result LnurlRepositoryError Db) (db : Db)
    → ((db' : Db) → body db ≡ ok db' → SparkChange natural db.spark_accounts db'.spark_accounts)
    → Changes natural db.spark_accounts (transact body db).1.spark_accounts
transact-sparks natural body db k = after (body db) k
  where
    after :
        (m : Result LnurlRepositoryError Db)
        → ((db' : Db) → m ≡ ok db' → SparkChange natural db.spark_accounts db'.spark_accounts)
        → (let answer : Result LnurlRepositoryError (Unit {0}) × Db = elim m [
          | ok db' ↦ (ok tt, db')
          | err e ↦ (err e, db)
        ] in
            Changes natural db.spark_accounts answer.1.spark_accounts)
    after (ok db') l = once natural db.spark_accounts db'.spark_accounts (l db' refl)
    after (err e) l = once natural db.spark_accounts db.spark_accounts (unchanged refl)

upsert_spark_mode-sparks :
    (env : Env) (u : SparkModeUpdate) (db : Db)
    → Changes (Unit {0}) db.spark_accounts (upsert_spark_mode env u db).1.spark_accounts
unfolding upsert_spark_mode
upsert_spark_mode-sparks env u db =
    after (ensure_spark_account env u.pubkey db) (ensure_spark_account-sparks env u.pubkey db)
  where
    after :
        (m : Result LnurlRepositoryError (Unit {0}) × Db)
        → SparkChange (Unit {0}) db.spark_accounts m.1.spark_accounts
        → (let answer : Result LnurlRepositoryError (Unit {0}) × Db = elim m.0 [
          | err e ↦ (err e, m.1)
          | ok _ ↦ write_mode env u m.1
        ] in
            Changes (Unit {0}) db.spark_accounts answer.1.spark_accounts)
    after (ok x, made) w = (made.spark_accounts, w, write_mode-sparks env u made)
    after (err e, made) w = (made.spark_accounts, w, unchanged refl)

pub step-sparks :
    (c : Call) (db : Db) → Changes (IsNatural c db) db.spark_accounts (step c db).1.spark_accounts
unfolding step
step-sparks (registers env reg) db =
    unfold upsert_spark_registration in
    transact-sparks (IsNewcomer env reg db.spark_accounts) (registration_body env reg) db
      (registration_body-sparks env reg db)
step-sparks (unregisters env d pk n claim) db =
    unfold delete_spark_registration in
    transact-sparks (Unit {0}) (unregister_body env d pk n claim) db
      (λ db' e. unchanged (unregister_body-sparks env d pk n claim db db' e))
step-sparks (transfers env t) db =
    unfold transfer_identifier in
    transact-sparks (Unit {0}) (transfer_body env t) db (transfer_body-sparks env t db)
step-sparks (moves_blink env t) db =
    unfold transfer_blink_identifier_to_spark in
    transact-sparks (Unit {0}) (blink_transfer_body env t) db (blink_transfer_body-sparks env t db)
step-sparks (sets_mode env u) db = upsert_spark_mode-sparks env u db
step-sparks (contacts env pk) db = once _ _ _ (ensure_tx-sparks env pk db)
step-sparks (writes_mode env u) db = once _ _ _ (write_mode-sparks env u db)
step-sparks (refreshes env pk country) db =
    unfold refresh_spark_country_evidence in once _ _ _ (locates pk country env.now refl)
step-sparks (enhances env pk) db =
    unfold set_spark_mode_enhanced_if_unset in once _ _ _ (migrates pk env.now refl)
step-sparks (creates_blink env new) db =
    unfold create_blink_account in
    transact-sparks (Unit {0}) (create_body env new) db
      (λ db' e. unchanged (create_body-sparks env new db db' e))
step-sparks (updates_wallet env id wallet) db =
    discarded (update_blink_default_wallet env id wallet db)
      (unfold update_blink_default_wallet in once _ _ _ (unchanged refl))
  where
    discarded :
        {A : Type 0} (m : Result LnurlRepositoryError A × Db)
        → Changes (Unit {0}) db.spark_accounts m.1.spark_accounts
        → Changes (Unit {0}) db.spark_accounts (discard m).1.spark_accounts
    discarded (ok a, db') w = w
    discarded (err e, db') w = w
step-sparks (prunes now) db = unfold delete_expired_signed_messages in once _ _ _ (unchanged refl)
