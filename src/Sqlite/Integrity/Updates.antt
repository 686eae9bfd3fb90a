-- ===== src/Sqlite/Integrity/Updates.antt =====
-- Integrity and the updates that leave the keys alone, and pruning (src/sqlite/repository.rs).
use mathlib.Core.Path.{subst}
use blink_lnurl_server.Prelude.{
  ℕ, ◌≡◌, refl, sym, ◌∙◌, ap, Bool, true, nat_eq, Text, ◌==◌, Bool-cases, inl, inr, Result, ok, err,
}
use blink_lnurl_server.Repository.{
  AccountProvider, spark, blink, SparkModeUpdate, WalletKind, LnurlRepositoryError,
}
use blink_lnurl_server.Sqlite.Query.{exists, count, update}
use blink_lnurl_server.Sqlite.Query.Laws.{exists-update}
use blink_lnurl_server.Sqlite.Query.Keys.{
  Every-mono, Every-update, Distinct-update, Distinct-delete,
}
use blink_lnurl_server.Sqlite.Tables.{SparkRow, BlinkRow, Db, Env, spark_is, blink_is}
use blink_lnurl_server.Sqlite.Claims.{expired_before, delete_expired_signed_messages}
use blink_lnurl_server.Sqlite.Transfer.{has_account}
use blink_lnurl_server.Sqlite.Registration.{ensure_spark_account}
use blink_lnurl_server.Sqlite.Mode.{
  accepts, set_mode_row, write_mode, upsert_spark_mode, refresh_spark_country_evidence,
  set_spark_mode_enhanced_if_unset,
}
use blink_lnurl_server.Sqlite.Blink.{update_blink_default_wallet}
use blink_lnurl_server.Sqlite.Integrity.{Integrity, Backed}
use blink_lnurl_server.Sqlite.Integrity.Parts.{Backed-mono}
use blink_lnurl_server.Sqlite.Integrity.Moves.{ensure_spark_account-Integrity}

-- An UPDATE of Spark rows that keeps account id and pubkey.
spark_update-Integrity :
    (q : SparkRow → Bool) (f : SparkRow → SparkRow) (db : Db)
    → ((r : SparkRow) → (f r).account_id ≡ r.account_id)
    → ((r : SparkRow) → (f r).pubkey ≡ r.pubkey)
    → Integrity db
    → Integrity (record db { spark_accounts = update q f db.spark_accounts })
spark_update-Integrity q f db k p v = record {
  accounts = v.accounts;
  names = v.names;
  sparks =
      Distinct-update _ q f db.spark_accounts (λ r x. ap (λ i. x.account_id == i) (k r))
        (λ r x. ap (λ i. i == r.account_id) (k x)) v.sparks;
  pubkeys =
      Distinct-update _ q f db.spark_accounts (λ r x. ap (λ i. x.pubkey == i) (p r))
        (λ r x. ap (λ i. i == r.pubkey) (p x)) v.pubkeys;
  blinks = v.blinks;
  blink_ids = v.blink_ids;
  claims = v.claims;
  names_owned = v.names_owned;
  sparks_owned =
      Every-update _ q f db.spark_accounts
        (λ r hit h. subst (λ i. exists (has_account spark i) db.accounts ≡ true) (sym (k r)) h)
        v.sparks_owned;
  blinks_owned = v.blinks_owned;
  backed =
      Backed-mono db.spark_accounts (update q f db.spark_accounts) db.blink_accounts db.accounts
        (λ x h. exists-update (spark_is x) q f db.spark_accounts (λ r. ap (λ i. i == x) (k r)) ∙ h)
        v.backed;
}

pub write_mode-Integrity :
    (env : Env) (u : SparkModeUpdate) (db : Db) → Integrity db → Integrity (write_mode env u db).1
unfolding write_mode set_mode_row
write_mode-Integrity env u db v =
    elim (Bool-cases (nat_eq (count (accepts u) db.spark_accounts) 0)) [
      | inl z ↦ rw z v
      | inr w ↦
          rw w (
            spark_update-Integrity (accepts u) (set_mode_row env.now u) db (λ r. refl) (λ r. refl)
              v)
    ]

pub upsert_spark_mode-Integrity :
    (env : Env) (u : SparkModeUpdate) (db : Db)
    → Integrity db
    → Integrity (upsert_spark_mode env u db).1
unfolding upsert_spark_mode
upsert_spark_mode-Integrity env u db v =
    after (ensure_spark_account env u.pubkey db) (ensure_spark_account-Integrity env u.pubkey db v)
  where
    after :
        (m : Result LnurlRepositoryError (Unit {0}) × Db)
        → Integrity m.1
        → (let answer : Result LnurlRepositoryError (Unit {0}) × Db = elim m.0 [
          | err e ↦ (err e, m.1)
          | ok _ ↦ write_mode env u m.1
        ] in
            Integrity answer.1)
    after (ok x, made) w = write_mode-Integrity env u made w
    after (err e, made) w = w

pub refresh-Integrity :
    (env : Env) (pk country : Text) (db : Db)
    → Integrity db
    → Integrity (refresh_spark_country_evidence env pk country db)
unfolding refresh_spark_country_evidence
refresh-Integrity env pk country db v = spark_update-Integrity _ _ db (λ r. refl) (λ r. refl) v

pub enhance-Integrity :
    (env : Env) (pk : Text) (db : Db)
    → Integrity db
    → Integrity (set_spark_mode_enhanced_if_unset env pk db)
unfolding set_spark_mode_enhanced_if_unset
enhance-Integrity env pk db v = spark_update-Integrity _ _ db (λ r. refl) (λ r. refl) v

pub prune-Integrity :
    (now : ℕ) (db : Db) → Integrity db → Integrity (delete_expired_signed_messages now db).1
unfolding delete_expired_signed_messages
prune-Integrity now db v = record {
  accounts = v.accounts;
  names = v.names;
  sparks = v.sparks;
  pubkeys = v.pubkeys;
  blinks = v.blinks;
  blink_ids = v.blink_ids;
  claims = Distinct-delete _ (expired_before now) db.used_signed_messages v.claims;
  names_owned = v.names_owned;
  sparks_owned = v.sparks_owned;
  blinks_owned = v.blinks_owned;
  backed = v.backed;
}

-- The wallet of Blink rows.
pub wallet-Integrity :
    (env : Env) (id : Text) (wallet : WalletKind) (db : Db)
    → Integrity db
    → Integrity (update_blink_default_wallet env id wallet db).1
unfolding update_blink_default_wallet
wallet-Integrity env id wallet db v = record {
  accounts = v.accounts;
  names = v.names;
  sparks = v.sparks;
  pubkeys = v.pubkeys;
  blinks = Distinct-update _ _ _ db.blink_accounts (λ r x. refl) (λ r x. refl) v.blinks;
  blink_ids = Distinct-update _ _ _ db.blink_accounts (λ r x. refl) (λ r x. refl) v.blink_ids;
  claims = v.claims;
  names_owned = v.names_owned;
  sparks_owned = v.sparks_owned;
  blinks_owned = Every-update _ _ _ db.blink_accounts (λ r hit h. h) v.blinks_owned;
  backed = Every-mono _ _ db.accounts (λ a. same _ a.provider a.account_id) v.backed;
}
  where
    same :
        (q : BlinkRow → Bool) (p : AccountProvider) (x : Text)
        → Backed db.spark_accounts db.blink_accounts p x
        → Backed db.spark_accounts
            (update q
              (λ r. record r { default_wallet = wallet; updated_at = env.now })
              db.blink_accounts)
            p
            x
    same q spark x h = h
    same q blink x h = exists-update (blink_is x) q _ db.blink_accounts (λ r. refl) ∙ h
