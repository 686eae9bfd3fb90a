-- ===== src/Sqlite/Mode.antt =====
-- The mode of Spark accounts and its country evidence (src/sqlite/repository.rs).
pub mod Laws
mod Stamped
pub mod Order
pub mod Country
use blink_lnurl_server.Prelude.{
  ℕ, Bool, true, false, ◌&&◌, ◌||◌, Option, none, some, nat_eq, ltb, if◌then◌else◌, Text, ◌==◌,
  Result, ok, err, is_some, is_none,
}
use blink_lnurl_server.Repository.{
  AccountMode, enhanced, anon, ModeSource, signup, switch, migration, SparkAccountMode,
  SparkModeUpdate, LnurlRepositoryError, has_mode, mode_eq, classify_refused_mode_write,
}
use blink_lnurl_server.Sqlite.Query.{find, count, update}
use blink_lnurl_server.Sqlite.Tables.{SparkRow, Db, Env, pubkey_is}
use blink_lnurl_server.Sqlite.Registration.{ensure_spark_account}

unfoldable pub map_spark_account_mode : SparkRow → SparkAccountMode
map_spark_account_mode r = record {
  account_id = r.account_id;
  pubkey = r.pubkey;
  mode = r.mode;
  mode_source = r.mode_source;
  mode_updated_at = r.mode_updated_at;
  mode_last_timestamp = r.mode_last_timestamp;
  country = r.country;
  country_updated_at = r.country_updated_at;
}

abbrev pub map_option : {A B : Type 0} → (A → B) → Option A → Option B
map_option f none = none
map_option f (some a) = some (f a)

unfoldable pub get_spark_account_mode : Text → Db → Option SparkAccountMode
unfolding map_spark_account_mode
get_spark_account_mode pubkey db =
    map_option map_spark_account_mode (find (pubkey_is pubkey) db.spark_accounts)

-- `mode_last_timestamp IS NULL OR mode_last_timestamp < $10`.
abbrev pub is_newer : Option ℕ → ℕ → Bool
is_newer none t = true
is_newer (some u) t = ltb u t

abbrev pub accepts : SparkModeUpdate → SparkRow → Bool
accepts u r = pubkey_is u.pubkey r && is_newer r.mode_last_timestamp u.client_timestamp

-- The country to write: an anonymous account keeps none.
abbrev pub new_country : SparkModeUpdate → Option Text
new_country u = elim u.mode [ anon ↦ none | enhanced ↦ u.country ]

abbrev pub write_country : SparkModeUpdate → Bool
write_country u = mode_eq u.mode anon || is_some (new_country u)

unfoldable pub set_mode_row : ℕ → SparkModeUpdate → SparkRow → SparkRow
set_mode_row now u r = record r {
  mode = some u.mode;
  mode_source = some (if is_none r.mode then signup else switch);
  mode_updated_at = some now;
  mode_last_timestamp = some u.client_timestamp;
  country = if write_country u then new_country u else r.country;
  country_updated_at =
      if write_country u then map_option (λ _. now) (new_country u) else r.country_updated_at;
  updated_at = now;
}

-- The one statement that checks and writes, and the answer where it touched no row.
unfoldable pub write_mode : Env → SparkModeUpdate → Db → Result LnurlRepositoryError (Unit {0}) × Db
write_mode env u db =
    if nat_eq (count (accepts u) db.spark_accounts) 0
    then (classify_refused_mode_write (get_spark_account_mode u.pubkey db) u, db)
    else (
      ok tt,
      record db { spark_accounts = update (accepts u) (set_mode_row env.now u) db.spark_accounts },
    )

unfoldable pub upsert_spark_mode :
    Env → SparkModeUpdate → Db → Result LnurlRepositoryError (Unit {0}) × Db
upsert_spark_mode env u db =
    let (made, db') = ensure_spark_account env u.pubkey db in
    elim made [ err e ↦ (err e, db') | ok _ ↦ write_mode env u db' ]

abbrev pub is_enhanced : Text → SparkRow → Bool
is_enhanced pubkey r = pubkey_is pubkey r && has_mode enhanced r.mode

unfoldable pub refresh_spark_country_evidence : Env → Text → Text → Db → Db
refresh_spark_country_evidence env pubkey country db = record db {
  spark_accounts =
      update (is_enhanced pubkey)
        (λ r. record r {
          country = some country;
          country_updated_at = some env.now;
          updated_at = env.now;
        })
        db.spark_accounts;
}

abbrev pub is_unset : Text → SparkRow → Bool
is_unset pubkey r = pubkey_is pubkey r && is_none r.mode

unfoldable pub set_spark_mode_enhanced_if_unset : Env → Text → Db → Db
set_spark_mode_enhanced_if_unset env pubkey db = record db {
  spark_accounts =
      update (is_unset pubkey)
        (λ r. record r {
          mode = some enhanced;
          mode_source = some migration;
          mode_updated_at = some env.now;
          updated_at = env.now;
        })
        db.spark_accounts;
}
