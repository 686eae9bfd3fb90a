-- ===== src/Sqlite/Mode/Country.antt =====
-- The country of anonymous accounts through histories of calls (src/sqlite/repository.rs).
use mathlib.Core.Path.{subst}
use blink_lnurl_server.Prelude.{ℕ, ◌≡◌, sym, true, Option, none, some, List, [], ◌∷◌, arith}
use blink_lnurl_server.Repository.{SparkModeUpdate, AccountMode, anon, enhanced, has_mode}
use blink_lnurl_server.Sqlite.Query.Keys.{Every, Every-update}
use blink_lnurl_server.Sqlite.Tables.{SparkRow, Db}
use blink_lnurl_server.Sqlite.Mode.{accepts, set_mode_row}
use blink_lnurl_server.Sqlite.History.{Call, step, run}
use blink_lnurl_server.Sqlite.History.Sparks.{
  SparkChange, unchanged, adds, sets, locates, migrates, repubkeys,
}
use blink_lnurl_server.Sqlite.History.SparkSteps.{IsNatural, step-sparks}

abbrev pub HidesCountry : SparkRow → Type 0
HidesCountry r = has_mode anon r.mode ≡ true → (r.country ≡ none) × (r.country_updated_at ≡ none)

set-HidesCountry :
    (u : SparkModeUpdate) (now : ℕ) (r : SparkRow) → HidesCountry (set_mode_row now u r)
unfolding set_mode_row
set-HidesCountry u now r h = (ground arith, ground arith)

change-HidesCountry :
    (natural : Type 0) (rows rows' : List SparkRow)
    → SparkChange natural rows rows'
    → Every HidesCountry rows
    → Every HidesCountry rows'
change-HidesCountry natural rows rows' (unchanged e) s = subst (Every HidesCountry) (sym e) s
change-HidesCountry natural rows rows' (adds id pk now free e) s = rw e ((λ h. cc), s)
change-HidesCountry natural rows rows' (sets u now e) s = rw e (
    Every-update HidesCountry (accepts u) (set_mode_row now u) rows
      (λ r hit k. set-HidesCountry u now r) s)
change-HidesCountry natural rows rows' (locates pk country now e) s =
    rw e (
      Every-update HidesCountry _ _ rows (λ r hit k h. absurd (not_both r.mode (ground arith) h)) s)
  where
    not_both : (o : Option AccountMode) → has_mode enhanced o ≡ true → has_mode anon o ≡ true → ⊥
    not_both none a b = cc
    not_both (some enhanced) a b = cc
    not_both (some anon) a b = cc
change-HidesCountry natural rows rows' (migrates pk now e) s =
    rw e (Every-update HidesCountry _ _ rows (λ r hit k h. cc) s)
change-HidesCountry natural rows rows' (repubkeys id pk now e source) s =
    rw e (Every-update HidesCountry _ _ rows (λ r hit k. k) s)

step-HidesCountry :
    (c : Call) (db : Db)
    → Every HidesCountry db.spark_accounts
    → Every HidesCountry (step c db).1.spark_accounts
step-HidesCountry c db s =
    let (mid, first, second) = step-sparks c db in
    change-HidesCountry (IsNatural c db) mid (step c db).1.spark_accounts second
      (change-HidesCountry (Unit {0}) db.spark_accounts mid first s)

-- After any history of repository calls on tables in which no anonymous Spark account has a country
-- or a time of its evidence, none has.
pub run-HidesCountry :
    (calls : List Call) (db : Db)
    → Every HidesCountry db.spark_accounts
    → Every HidesCountry (run calls db).spark_accounts
unfolding run
run-HidesCountry [] db s = s
run-HidesCountry (c ∷ calls) db s = run-HidesCountry calls (step c db).1 (step-HidesCountry c db s)
