-- ===== src/Sqlite/History/Effect.antt =====
-- What each call does to the table of claims.
use blink_lnurl_server.Prelude.{
  is_some, ◌≢◌, ap, ℕ, ◌≡◌, refl, ◌∙◌, Bool, true, false, ◌&&◌, Option, none, some, List, ◌∷◌,
  arith, Text, ◌==◌, Result, ok, err,
}
use blink_lnurl_server.Repository.{
  StatementClaim, BlinkToSparkIdentifierTransfer, SparkModeUpdate, NewBlinkAccount,
  LnurlRepositoryError,
}
use blink_lnurl_server.Sqlite.Query.{exists}
use blink_lnurl_server.Sqlite.Tables.{ClaimRow, Db, Env, transact, pubkey_is}
use blink_lnurl_server.Sqlite.Query.{find}
use blink_lnurl_server.Sqlite.Claims.{hash_is, claim_statement}
use blink_lnurl_server.Sqlite.Claims.Laws.{claim_statement-ok}
use blink_lnurl_server.Sqlite.Registration.{
  registered_account, registration_body, upsert_spark_registration, unregister_body,
  delete_spark_registration,
}
use blink_lnurl_server.Sqlite.Registration.Laws.{
  registration_body-ok, registration_writes-ok, delete_of_owner-used, unregister_body-ok,
}
use blink_lnurl_server.Sqlite.Transfer.{
  transfer_body, transfer_identifier, transfer_blink_identifier_to_spark, blink_transfer_body,
}
use blink_lnurl_server.Sqlite.Transfer.Laws.{
  transfer_body-ok, blink_transfer_body-ok, destination_of-rest, move_identifier-ok,
}
use blink_lnurl_server.Sqlite.Mode.{
  upsert_spark_mode, write_mode, refresh_spark_country_evidence, set_spark_mode_enhanced_if_unset,
}
use blink_lnurl_server.Sqlite.Registration.{ensure_spark_account, ensure_tx}
use blink_lnurl_server.Sqlite.Blink.{create_blink_account, create_body, update_blink_default_wallet}
use blink_lnurl_server.Sqlite.History.{
  Call, registers, unregisters, transfers, moves_blink, sets_mode, contacts, writes_mode, refreshes,
  enhances, creates_blink, updates_wallet, prunes, step,
}

-- The claim that a call carries.
abbrev pub claim_of : Call → Option StatementClaim
claim_of (registers env reg) = reg.claim
claim_of (unregisters env domain pubkey identifier claim) = claim
claim_of (transfers env t) = t.claim
claim_of _ = none

abbrev pub carries : List ℕ → Option StatementClaim → Bool
carries h none = false
carries h (some c) = c.statement_hash == h

abbrev pub succeeded : Result LnurlRepositoryError (Unit {0}) → Bool
succeeded (ok _) = true
succeeded (err _) = false

-- What a call that is no pruning does to the table of claims.
pub data Effect (claim : Option StatementClaim) (passed : Bool) (rows rows' : List ClaimRow)
    : Type 0 where
  same : (is_some claim && passed) ≡ false → rows' ≡ rows → Effect claim passed rows rows'
  claims :
      (c : StatementClaim) (r : ClaimRow)
      → claim ≡ some c
      → exists (hash_is c.statement_hash) rows ≡ false
      → r.statement_hash ≡ c.statement_hash
      → r.expires_at ≡ c.expires_at
      → rows' ≡ r ∷ rows
      → Effect claim passed rows rows'

claim_statement-Effect :
    (env : Env) (claim : Option StatementClaim) (db db' : Db)
    → claim_statement env claim db ≡ ok db'
    → Effect claim true db.used_signed_messages db'.used_signed_messages
unfolding claim_statement
claim_statement-Effect env none db db' h = same refl (ground arith)
claim_statement-Effect env (some c) db db' h =
    let k = claim_statement-ok env c db db' h in
    claims c
      (record {
        statement_hash = c.statement_hash;
        route = c.route;
        expires_at = c.expires_at;
        created_at = env.now;
      })
      refl k.0 refl refl (ap (λ (d : Db). d.used_signed_messages) k.1)

-- A transaction whose body claims first and leaves the claims alone after that.
transact-Effect :
    (env : Env) (body : Db → Result LnurlRepositoryError Db) (claim : Option StatementClaim)
    (db : Db)
    (claims_first : (db' : Db)
      → body db ≡ ok db'
      → (claimed : Db) × (claim_statement env claim db ≡ ok claimed)
        × (db'.used_signed_messages ≡ claimed.used_signed_messages))
    → Effect claim
        (succeeded (transact body db).0)
        db.used_signed_messages
        (transact body db).1.used_signed_messages
transact-Effect env body claim db claims_first = go (body db) refl
  where
    go :
        (r : Result LnurlRepositoryError Db)
        → body db ≡ r
        → Effect claim
            (succeeded (transact body db).0)
            db.used_signed_messages
            (transact body db).1.used_signed_messages
    go (ok db') e =
        let (claimed, c, u) = claims_first db' e in
        rw (e, transact) (rw u (claim_statement-Effect env claim db claimed c))
    go (err x) e = rw (e, transact) (same (ground arith) refl)

-- The calls that carry no claim leave the claims alone.
moves_blink-used :
    (env : Env) (t : BlinkToSparkIdentifierTransfer) (db : Db)
    → (transfer_blink_identifier_to_spark env t db).1.used_signed_messages ≡ db.used_signed_messages
unfolding transfer_blink_identifier_to_spark
moves_blink-used env t db = go (blink_transfer_body env t db) refl
  where
    go :
        (r : Result LnurlRepositoryError Db)
        → blink_transfer_body env t db ≡ r
        → (transact (blink_transfer_body env t) db).1.used_signed_messages ≡ db.used_signed_messages
    go (ok db') e =
        let (id, made, k1, k2, k3, w) = blink_transfer_body-ok env t db db' e in
        rw (e, transact)
          ((move_identifier-ok env t.domain t.identifier t.source_account_id id t.description made
              db' w).0
            ∙ (destination_of-rest env t.destination_spark_pubkey id _ db made k3).0)
    go (err x) e = rw (e, transact)

ensure_tx-used :
    (env : Env) (pk : Text) (db : Db)
    → (ensure_tx env pk db).1.used_signed_messages ≡ db.used_signed_messages
unfolding ensure_tx
ensure_tx-used env pk db = ground arith

ensure-used :
    (env : Env) (pk : Text) (db : Db)
    → (ensure_spark_account env pk db).1.used_signed_messages ≡ db.used_signed_messages
unfolding ensure_spark_account ensure_tx
ensure-used env pk db = ground arith

write_mode-used :
    (env : Env) (u : SparkModeUpdate) (db : Db)
    → (write_mode env u db).1.used_signed_messages ≡ db.used_signed_messages
unfolding write_mode
write_mode-used env u db = ground arith

sets_mode-used :
    (env : Env) (u : SparkModeUpdate) (db : Db)
    → (upsert_spark_mode env u db).1.used_signed_messages ≡ db.used_signed_messages
unfolding upsert_spark_mode
sets_mode-used env u db = ground (
  arith,
  ensure-used env u.pubkey db,
  write_mode-used env u (ensure_spark_account env u.pubkey db).1,
)

create_body-used :
    (env : Env) (new : NewBlinkAccount) (db db' : Db)
    → create_body env new db ≡ ok db'
    → db'.used_signed_messages ≡ db.used_signed_messages
unfolding create_body
create_body-used env new db db' h = ground arith

creates_blink-used :
    (env : Env) (new : NewBlinkAccount) (db : Db)
    → (create_blink_account env new db).1.used_signed_messages ≡ db.used_signed_messages
unfolding create_blink_account
creates_blink-used env new db = go (create_body env new db) refl
  where
    go :
        (r : Result LnurlRepositoryError Db)
        → create_body env new db ≡ r
        → (transact (create_body env new) db).1.used_signed_messages ≡ db.used_signed_messages
    go (ok db') e = rw (e, transact) (create_body-used env new db db' e)
    go (err x) e = rw (e, transact)

pub step-Effect :
    (c : Call) (db : Db)
    → ((now : ℕ) → c ≢ prunes now)
    → Effect
        (claim_of c)
        (succeeded (step c db).0)
        db.used_signed_messages
        (step c db).1.used_signed_messages
unfolding step
step-Effect (registers env reg) db np =
    unfold upsert_spark_registration in
    transact-Effect env (registration_body env reg) reg.claim db λ db' h.
      let (claimed, v, c, k, w) = registration_body-ok env reg db db' h in
      (
        claimed,
        c,
        (registration_writes-ok env (registered_account env reg claimed) reg claimed db' w).0,
      )
step-Effect (unregisters env d pk i claim) db np =
    unfold delete_spark_registration in
    transact-Effect env (unregister_body env d pk i claim) claim db λ db' h.
      let (claimed, c, w) = unregister_body-ok env d pk i claim db db' h in
      (
        claimed,
        c,
        delete_of_owner-used (find (pubkey_is pk) claimed.spark_accounts) d i claimed db' w,
      )
step-Effect (transfers env t) db np =
    unfold transfer_identifier in
    transact-Effect env (transfer_body env t) t.claim db λ db' h.
      let (claimed, id, made, c, k1, k2, k3, w) = transfer_body-ok env t db db' h in
      (
        claimed,
        c,
        (move_identifier-ok env t.domain t.identifier t.source_account_id id t.description made db'
              w).0
            ∙ (destination_of-rest env t.destination_spark_pubkey id _ claimed made k3).0,
      )
step-Effect (prunes now) db np = absurd (np now refl)
step-Effect (moves_blink env t) db np = same refl (moves_blink-used env t db)
step-Effect (sets_mode env u) db np = same refl (sets_mode-used env u db)
step-Effect (contacts env pk) db np = same refl (ensure_tx-used env pk db)
step-Effect (writes_mode env u) db np = same refl (write_mode-used env u db)
step-Effect (refreshes env pk country) db np =
    unfold refresh_spark_country_evidence in same refl refl
step-Effect (enhances env pk) db np = unfold set_spark_mode_enhanced_if_unset in same refl refl
step-Effect (creates_blink env new) db np = same refl (creates_blink-used env new db)
step-Effect (updates_wallet env id wallet) db np =
    unfold update_blink_default_wallet in same refl (ground arith)
