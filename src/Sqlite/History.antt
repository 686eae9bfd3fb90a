-- ===== src/Sqlite/History.antt =====
-- Histories of repository calls, in the order in which the database runs them.
pub mod Effect
pub mod Held
pub mod Sparks
pub mod SparkSteps
pub mod Names
pub mod Replay
use blink_lnurl_server.Prelude.{
  ℕ, Bool, true, false, Option, none, some, List, [], ◌∷◌, Text, Result, ok, err,
}
use blink_lnurl_server.Repository.{
  NewSparkRegistration, StatementClaim, IdentifierTransfer, BlinkToSparkIdentifierTransfer,
  SparkModeUpdate, NewBlinkAccount, WalletKind, UpdatedBlinkAccount, LnurlRepositoryError,
}
use blink_lnurl_server.Sqlite.Tables.{Db, Env}
use blink_lnurl_server.Sqlite.Claims.{delete_expired_signed_messages}
use blink_lnurl_server.Sqlite.Registration.{
  ensure_tx, upsert_spark_registration, delete_spark_registration,
}
use blink_lnurl_server.Sqlite.Transfer.{transfer_identifier, transfer_blink_identifier_to_spark}
use blink_lnurl_server.Sqlite.Mode.{
  upsert_spark_mode, write_mode, refresh_spark_country_evidence, set_spark_mode_enhanced_if_unset,
}
use blink_lnurl_server.Sqlite.Blink.{create_blink_account, update_blink_default_wallet}

-- `contacts` and `writes_mode` are the two transactions of `sets_mode`, which others may come between.
pub data Call : Type 0 where
  registers : Env → NewSparkRegistration → Call
  unregisters : Env → Text → Text → Text → Option StatementClaim → Call
  transfers : Env → IdentifierTransfer → Call
  moves_blink : Env → BlinkToSparkIdentifierTransfer → Call
  sets_mode : Env → SparkModeUpdate → Call
  contacts : Env → Text → Call
  writes_mode : Env → SparkModeUpdate → Call
  refreshes : Env → Text → Text → Call
  enhances : Env → Text → Call
  creates_blink : Env → NewBlinkAccount → Call
  updates_wallet : Env → Text → WalletKind → Call
  prunes : ℕ → Call

abbrev pub discard : {E A : Type 0} → Result E A × Db → Result E (Unit {0}) × Db
discard (ok a, db) = (ok tt, db)
discard (err e, db) = (err e, db)

-- The result and the database that a call leaves.
unfoldable pub step : Call → Db → Result LnurlRepositoryError (Unit {0}) × Db
step (registers env reg) db = upsert_spark_registration env reg db
step (unregisters env domain pubkey identifier claim) db =
    delete_spark_registration env domain pubkey identifier claim db
step (transfers env t) db = transfer_identifier env t db
step (moves_blink env t) db = transfer_blink_identifier_to_spark env t db
step (sets_mode env u) db = upsert_spark_mode env u db
step (contacts env pubkey) db = ensure_tx env pubkey db
step (writes_mode env u) db = write_mode env u db
step (refreshes env pubkey country) db =
    (ok tt, refresh_spark_country_evidence env pubkey country db)
step (enhances env pubkey) db = (ok tt, set_spark_mode_enhanced_if_unset env pubkey db)
step (creates_blink env new) db = create_blink_account env new db
step (updates_wallet env id wallet) db = discard (update_blink_default_wallet env id wallet db)
step (prunes now) db = (ok tt, (delete_expired_signed_messages now db).1)

unfoldable pub run : List Call → Db → Db
run [] db = db
run (c ∷ calls) db = run calls (step c db).1
