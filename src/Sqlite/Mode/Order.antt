-- ===== src/Sqlite/Mode/Order.antt =====
-- The order of mode requests for one pubkey (`upsert_spark_mode` of src/sqlite/repository.rs).
use mathlib.Core.Path.{subst}
use blink_lnurl_server.Prelude.{
  ℕ, ◌≤◌, ◌≡◌, refl, sym, ◌∙◌, true, false, none, List, [], ◌∷◌, arith, nat_eq, Text, eq_refl,
  Bool-cases, inl, inr, Result, ok, err, is_some,
}
use blink_lnurl_server.Repository.{
  spark, SparkModeUpdate, LnurlRepositoryError, classify_refused_mode_write,
}
use blink_lnurl_server.Sqlite.Query.{find, exists, count, update}
use blink_lnurl_server.Sqlite.Query.Laws.{
  exists-update, exists-eq-find, count-eq-zero, exists-of-count_zero,
}
use blink_lnurl_server.Sqlite.Query.Keys.{Every}
use blink_lnurl_server.Sqlite.Tables.{SparkRow, Db, Env, spark_is, pubkey_is}
use blink_lnurl_server.Sqlite.Registration.{ensure_spark_account, ensure_tx}
use blink_lnurl_server.Sqlite.Mode.{
  accepts, set_mode_row, write_mode, upsert_spark_mode, get_spark_account_mode,
}
use blink_lnurl_server.Sqlite.Integrity.{Integrity}
use blink_lnurl_server.Sqlite.Integrity.Steps.{step-Integrity}
use blink_lnurl_server.Sqlite.History.{Call, registers, sets_mode, step, run}
use blink_lnurl_server.Sqlite.History.SparkSteps.{IsNatural}
use blink_lnurl_server.Sqlite.Mode.Stamped.{IsStamped, Stamped, step-Stamped, refused-rows}

ensure-known :
    (env : Env) (pk : Text) (db : Db)
    → exists (pubkey_is pk) db.spark_accounts ≡ true
    → ensure_spark_account env pk db ≡ (ok tt, db)
unfolding ensure_spark_account
ensure-known env pk db h =
    let known : is_some (find (pubkey_is pk) db.spark_accounts) ≡ true =
      sym (exists-eq-find (pubkey_is pk) db.spark_accounts) ∙ h in
    rw known refl

write_mode-refused :
    (env : Env) (u : SparkModeUpdate) (db : Db)
    → count (accepts u) db.spark_accounts ≡ 0
    → write_mode env u db ≡ (classify_refused_mode_write (get_spark_account_mode u.pubkey db) u, db)
unfolding write_mode
write_mode-refused env u db z = rw z refl

upsert-refused :
    (env : Env) (u : SparkModeUpdate) (db : Db)
    → exists (pubkey_is u.pubkey) db.spark_accounts ≡ true
    → count (accepts u) db.spark_accounts ≡ 0
    → upsert_spark_mode env u db
      ≡ (classify_refused_mode_write (get_spark_account_mode u.pubkey db) u, db)
unfolding upsert_spark_mode
upsert-refused env u db h z =
    subst
      (λ (m : Result LnurlRepositoryError (Unit {0}) × Db).
        (let answer : Result LnurlRepositoryError (Unit {0}) × Db = elim m.0 [
          | err e ↦ (err e, m.1)
          | ok _ ↦ write_mode env u m.1
        ] in
          answer ≡ (classify_refused_mode_write (get_spark_account_mode u.pubkey db) u, db)))
      (sym (ensure-known env u.pubkey db h)) (write_mode-refused env u db z)

-- A first contact that succeeds leaves a row of the pubkey.
ensure-exists :
    (env : Env) (pk : Text) (db : Db)
    → (ensure_spark_account env pk db).0 ≡ ok tt
    → exists (pubkey_is pk) (ensure_spark_account env pk db).1.spark_accounts ≡ true
unfolding ensure_spark_account ensure_tx exists
ensure-exists env pk db h =
    ground (arith, eq_refl pk, exists-eq-find (pubkey_is pk) db.spark_accounts)

unaccepted-Every :
    (u : SparkModeUpdate) (rows : List SparkRow)
    → exists (accepts u) rows ≡ false
    → Every (IsStamped u.pubkey u.client_timestamp) rows
unfolding exists
unaccepted-Every u [] h = tt
unaccepted-Every u (r ∷ rows) h = ((λ k. ground arith), unaccepted-Every u rows (ground arith))

set-Every :
    (u : SparkModeUpdate) (now : ℕ) (rows : List SparkRow)
    → Every (IsStamped u.pubkey u.client_timestamp) (update (accepts u) (set_mode_row now u) rows)
unfolding update set_mode_row
set-Every u now [] = tt
set-Every u now (r ∷ rows) = elim (Bool-cases (accepts u r)) [
  | inl hit ↦ rw hit ((λ k. ground arith), set-Every u now rows)
  | inr miss ↦ rw miss ((λ k. ground arith), set-Every u now rows)
]

-- The rows of the pubkey after the write of a mode, whether it went through or not.
write_mode-Stamped :
    (env : Env) (u : SparkModeUpdate) (db : Db)
    → exists (pubkey_is u.pubkey) db.spark_accounts ≡ true
    → Stamped u.pubkey u.client_timestamp (write_mode env u db).1.spark_accounts
unfolding write_mode
write_mode-Stamped env u db h = elim (Bool-cases (nat_eq (count (accepts u) db.spark_accounts) 0)) [
  | inl z ↦ rw z (
    h,
    unaccepted-Every u db.spark_accounts
        (exists-of-count_zero (accepts u) db.spark_accounts (ground arith)),
  )
  | inr w ↦ rw w (
    exists-update (pubkey_is u.pubkey) (accepts u) (set_mode_row env.now u) db.spark_accounts
          (λ r. unfold set_mode_row in refl)
        ∙ h,
    set-Every u env.now db.spark_accounts,
  )
]

upsert-Stamped :
    (env : Env) (u : SparkModeUpdate) (db : Db)
    → (upsert_spark_mode env u db).0 ≡ ok tt
    → Stamped u.pubkey u.client_timestamp (upsert_spark_mode env u db).1.spark_accounts
unfolding upsert_spark_mode
upsert-Stamped env u db h =
    after (ensure_spark_account env u.pubkey db) (ensure-exists env u.pubkey db) h
  where
    after :
        (m : Result LnurlRepositoryError (Unit {0}) × Db)
        → (m.0 ≡ ok tt → exists (pubkey_is u.pubkey) m.1.spark_accounts ≡ true)
        → (let answer : Result LnurlRepositoryError (Unit {0}) × Db = elim m.0 [
          | err e ↦ (err e, m.1)
          | ok _ ↦ write_mode env u m.1
        ] in
            answer.0 ≡ ok tt → Stamped u.pubkey u.client_timestamp answer.1.spark_accounts)
    after (ok x, made) w k = write_mode-Stamped env u made (w refl)
    after (err e, made) w k = cc

-- The registrations of a history name no account, and come with a generated account id that no Spark
-- row has.
abbrev pub IsFresh : Call → Db → Type 0
IsFresh (registers env reg) db =
    (reg.account_id ≡ none) × (exists (spark_is (env.account_id spark)) db.spark_accounts ≡ false)
IsFresh _ db = Unit {0}

abbrev pub AllFresh : List Call → Db → Type 0
AllFresh [] db = Unit {0}
AllFresh (c ∷ calls) db = IsFresh c db × AllFresh calls (step c db).1

IsNatural-of_fresh : (c : Call) (db : Db) → IsFresh c db → Integrity db → IsNatural c db
IsNatural-of_fresh (registers env reg) db (n, f) v = (n, f, v.sparks)
IsNatural-of_fresh c db n v = n

run-Stamped :
    (pk : Text) (t : ℕ) (calls : List Call) (db : Db)
    → Integrity db
    → AllFresh calls db
    → Stamped pk t db.spark_accounts
    → Stamped pk t (run calls db).spark_accounts
unfolding run
run-Stamped pk t [] db v f s = s
run-Stamped pk t (c ∷ calls) db v f s =
    run-Stamped pk t calls (step c db).1 (step-Integrity c db v) f.1
      (step-Stamped pk t c db (IsNatural-of_fresh c db f.0 v) s)

-- After a mode request that was answered with success on tables with integrity, and whatever calls
-- come then, if the registrations among them name no account and come with generated account ids
-- that no Spark row has: another mode request for the same pubkey with the same or an earlier
-- timestamp leaves the database as it is, and its answer is the one for a refused write.
pub mode-no_rollback :
    (env env' : Env) (u u' : SparkModeUpdate) (calls : List Call) (db : Db)
    → Integrity db
    → (step (sets_mode env u) db).0 ≡ ok tt
    → AllFresh calls (step (sets_mode env u) db).1
    → u'.pubkey ≡ u.pubkey
    → u'.client_timestamp ≤ u.client_timestamp
    → upsert_spark_mode env' u' (run calls (step (sets_mode env u) db).1) ≡ (
      classify_refused_mode_write
          (get_spark_account_mode u'.pubkey (run calls (step (sets_mode env u) db).1))
          u',
      run calls (step (sets_mode env u) db).1,
    )
mode-no_rollback env env' u u' calls db v a f e b =
    let db' = (step (sets_mode env u) db).1 in
    let first : Stamped u.pubkey u.client_timestamp db'.spark_accounts =
      unfold step in upsert-Stamped env u db a in
    let s =
      run-Stamped u.pubkey u.client_timestamp calls db' (step-Integrity (sets_mode env u) db v) f
        first in
    upsert-refused env' u' (run calls db')
      (subst (λ k. exists (pubkey_is k) (run calls db').spark_accounts ≡ true) (sym e) s.0)
      (count-eq-zero (accepts u') (run calls db').spark_accounts
        (refused-rows u.pubkey u.client_timestamp u' (run calls db').spark_accounts e b s.1))
