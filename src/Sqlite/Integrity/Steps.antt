-- ===== src/Sqlite/Integrity/Steps.antt =====
-- Integrity through calls and histories of calls.
use blink_lnurl_server.Prelude.{◌≡◌, refl, List, [], ◌∷◌, Result, ok, err}
use blink_lnurl_server.Repository.{LnurlRepositoryError}
use blink_lnurl_server.Sqlite.Tables.{Db, transact}
use blink_lnurl_server.Sqlite.Registration.{
  registration_body, upsert_spark_registration, unregister_body, delete_spark_registration,
}
use blink_lnurl_server.Sqlite.Transfer.{
  transfer_body, transfer_identifier, blink_transfer_body, transfer_blink_identifier_to_spark,
}
use blink_lnurl_server.Sqlite.Blink.{create_body, create_blink_account, update_blink_default_wallet}
use blink_lnurl_server.Sqlite.Integrity.{Integrity}
use blink_lnurl_server.Sqlite.Integrity.Calls.{
  registration_body-Integrity, unregister_body-Integrity,
}
use blink_lnurl_server.Sqlite.Integrity.Moves.{
  ensure_tx-Integrity, transfer_body-Integrity, blink_transfer_body-Integrity,
}
use blink_lnurl_server.Sqlite.Integrity.Updates.{
  upsert_spark_mode-Integrity, write_mode-Integrity, refresh-Integrity, enhance-Integrity,
  prune-Integrity, wallet-Integrity,
}
use blink_lnurl_server.Sqlite.Integrity.Creation.{create_body-Integrity}
use blink_lnurl_server.Sqlite.History.{
  Call, registers, unregisters, transfers, moves_blink, sets_mode, contacts, writes_mode, refreshes,
  enhances, creates_blink, updates_wallet, prunes, discard, step, run,
}

-- A transaction keeps what its body keeps where it succeeds.
transact-Integrity :
    (body : Db → Result LnurlRepositoryError Db) (db : Db)
    → ((db' : Db) → body db ≡ ok db' → Integrity db → Integrity db')
    → Integrity db
    → Integrity (transact body db).1
transact-Integrity body db k v = after (body db) (λ db' e. k db' e v)
  where
    after :
        (m : Result LnurlRepositoryError Db)
        → ((db' : Db) → m ≡ ok db' → Integrity db')
        → (let answer : Result LnurlRepositoryError (Unit {0}) × Db = elim m [
          | ok db' ↦ (ok tt, db')
          | err e ↦ (err e, db)
        ] in
            Integrity answer.1)
    after (ok db') l = l db' refl
    after (err e) l = v

-- Every call of the repository keeps the integrity of the accounts tables: each unique key is on one
-- row, every name and every provider's row has its account, and every account the row of its
-- provider.
pub step-Integrity : (c : Call) (db : Db) → Integrity db → Integrity (step c db).1
unfolding step
step-Integrity (registers env reg) db v =
    unfold upsert_spark_registration in
    transact-Integrity (registration_body env reg) db (registration_body-Integrity env reg db) v
step-Integrity (unregisters env d pk i claim) db v =
    unfold delete_spark_registration in
    transact-Integrity (unregister_body env d pk i claim) db
      (unregister_body-Integrity env d pk i claim db) v
step-Integrity (transfers env t) db v =
    unfold transfer_identifier in
    transact-Integrity (transfer_body env t) db (transfer_body-Integrity env t db) v
step-Integrity (moves_blink env t) db v =
    unfold transfer_blink_identifier_to_spark in
    transact-Integrity (blink_transfer_body env t) db (blink_transfer_body-Integrity env t db) v
step-Integrity (sets_mode env u) db v = upsert_spark_mode-Integrity env u db v
step-Integrity (contacts env pk) db v = ensure_tx-Integrity env pk db v
step-Integrity (writes_mode env u) db v = write_mode-Integrity env u db v
step-Integrity (refreshes env pk country) db v = refresh-Integrity env pk country db v
step-Integrity (enhances env pk) db v = enhance-Integrity env pk db v
step-Integrity (creates_blink env new) db v =
    unfold create_blink_account in
    transact-Integrity (create_body env new) db (create_body-Integrity env new db) v
step-Integrity (updates_wallet env id wallet) db v =
    discarded (update_blink_default_wallet env id wallet db) (wallet-Integrity env id wallet db v)
  where
    discarded :
        {A : Type 0} (m : Result LnurlRepositoryError A × Db)
        → Integrity m.1
        → Integrity (discard m).1
    discarded (ok a, db') w = w
    discarded (err e, db') w = w
step-Integrity (prunes now) db v = prune-Integrity now db v

-- After any history of repository calls that starts with integrity of the accounts tables, they have
-- it still.
pub run-Integrity : (calls : List Call) (db : Db) → Integrity db → Integrity (run calls db)
unfolding run
run-Integrity [] db v = v
run-Integrity (c ∷ calls) db v = run-Integrity calls (step c db).1 (step-Integrity c db v)
