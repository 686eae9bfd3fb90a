-- ===== src/Sqlite/Integrity/Moves.antt =====
-- Integrity and the statements of first contact and transfers (src/sqlite/repository.rs).
use mathlib.Core.Path.{subst}
use blink_lnurl_server.Prelude.{
  ℕ, ◌≡◌, refl, sym, ◌∙◌, Bool, true, false, Option, none, some, List, ◌∷◌, arith, Text, eq_refl,
  Bool-cases, inl, inr, ok, is_some,
}
use blink_lnurl_server.Repository.{spark, blink, IdentifierTransfer, BlinkToSparkIdentifierTransfer}
use blink_lnurl_server.Sqlite.Query.{find, exists, delete, update}
use blink_lnurl_server.Sqlite.Query.Laws.{exists-eq-find}
use blink_lnurl_server.Sqlite.Query.Keys.{Every-mono, Every-update, Distinct-update}
use blink_lnurl_server.Sqlite.Tables.{
  AccountRow, IdentifierRow, SparkRow, Db, Env, account_is, spark_is, pubkey_is, new_spark_row,
  other_username, insert_account, insert_spark,
}
use blink_lnurl_server.Sqlite.Registration.{ensure_tx, ensure_spark_account}
use blink_lnurl_server.Sqlite.Transfer.{
  has_account, make_destination, destination_of, move_identifier, moved, transfer_body,
  blink_transfer_body,
}
use blink_lnurl_server.Sqlite.Transfer.Laws.{transfer_body-ok, blink_transfer_body-ok}
use blink_lnurl_server.Sqlite.Integrity.{Integrity}
use blink_lnurl_server.Sqlite.Integrity.Parts.{Backed-mono}
use blink_lnurl_server.Sqlite.Integrity.Calls.{claim_statement-Integrity, fewer_names-Integrity}

abbrev new_account : Text → ℕ → AccountRow
new_account id now = record {
  account_id = id;
  provider = spark;
  created_at = now;
  updated_at = now;
}

abbrev with_account : Text → Text → ℕ → Db → Db
with_account id pk now db = record db {
  accounts = new_account id now ∷ db.accounts;
  spark_accounts = new_spark_row id pk now ∷ db.spark_accounts;
}

-- A new row more does not lose a row.
pub exists-cons :
    {A : Type 0} (p : A → Bool) (r : A) (rows : List A)
    → exists p rows ≡ true
    → exists p (r ∷ rows) ≡ true
unfolding exists
exists-cons p r rows h = ground arith

pub exists-head :
    {A : Type 0} (p : A → Bool) (r : A) (rows : List A) → p r ≡ true → exists p (r ∷ rows) ≡ true
unfolding exists
exists-head p r rows h = ground arith

with_account-Integrity :
    (id pk : Text) (now : ℕ) (db : Db)
    → exists (account_is id) db.accounts ≡ false
    → exists (spark_is id) db.spark_accounts ≡ false
    → exists (pubkey_is pk) db.spark_accounts ≡ false
    → Integrity db
    → Integrity (with_account id pk now db)
with_account-Integrity id pk now db a s p v =
    let new = new_account id now in
    let row = new_spark_row id pk now in
    record {
      accounts = (a, v.accounts);
      names = v.names;
      sparks = (s, v.sparks);
      pubkeys = (p, v.pubkeys);
      blinks = v.blinks;
      blink_ids = v.blink_ids;
      claims = v.claims;
      names_owned =
          Every-mono _ _ db.account_identifiers
            (λ r. exists-cons (account_is r.account_id) new db.accounts) v.names_owned;
      sparks_owned = (
        exists-head (has_account spark id) new db.accounts (ground (arith, eq_refl id)),
        Every-mono _ _ db.spark_accounts
            (λ r. exists-cons (has_account spark r.account_id) new db.accounts) v.sparks_owned,
      );
      blinks_owned =
          Every-mono _ _ db.blink_accounts
            (λ r. exists-cons (has_account blink r.account_id) new db.accounts) v.blinks_owned;
      backed = (
        exists-head (spark_is id) row db.spark_accounts (eq_refl id),
        Backed-mono db.spark_accounts (row ∷ db.spark_accounts) db.blink_accounts db.accounts
            (λ x. exists-cons (spark_is x) row db.spark_accounts) v.backed,
      );
    }

pub ensure_tx-Integrity :
    (env : Env) (pk : Text) (db : Db) → Integrity db → Integrity (ensure_tx env pk db).1
unfolding ensure_tx
ensure_tx-Integrity env pk db v =
    elim (Bool-cases (exists (account_is (env.account_id spark)) db.accounts)) [
      | inl a ↦ rw a v
      | inr a ↦ rw a elim (Bool-cases (exists (pubkey_is pk) db.spark_accounts)) [
        | inl p ↦ rw p v
        | inr p ↦
            rw p elim (Bool-cases (exists (spark_is (env.account_id spark)) db.spark_accounts)) [
              | inl s ↦ rw s v
              | inr s ↦ rw s (with_account-Integrity (env.account_id spark) pk env.now db a s p v)
            ]
      ]
    ]

pub ensure_spark_account-Integrity :
    (env : Env) (pk : Text) (db : Db) → Integrity db → Integrity (ensure_spark_account env pk db).1
unfolding ensure_spark_account
ensure_spark_account-Integrity env pk db v =
    elim (Bool-cases (is_some (find (pubkey_is pk) db.spark_accounts))) [
      | inl known ↦ rw known v
      | inr unknown ↦ rw unknown (ensure_tx-Integrity env pk db v)
    ]

make_destination-made :
    (env : Env) (pk id : Text) (db made : Db)
    → make_destination env pk db ≡ ok (id, made)
    → (env.account_id spark ≡ id)
      × (with_account (env.account_id spark) pk env.now db ≡ made)
      × (exists (account_is (env.account_id spark)) db.accounts ≡ false)
      × (exists (spark_is (env.account_id spark)) db.spark_accounts ≡ false)
      × (exists (pubkey_is pk) db.spark_accounts ≡ false)
unfolding make_destination insert_account insert_spark
make_destination-made env pk id db made h =
    (ground arith, ground arith, ground arith, ground arith, ground arith)

-- The destination of a transfer is a Spark account of the database that the move starts from.
make_destination-Integrity :
    (env : Env) (pk id : Text) (db made : Db)
    → make_destination env pk db ≡ ok (id, made)
    → Integrity db
    → Integrity made × (exists (account_is id) made.accounts ≡ true)
unfolding exists
make_destination-Integrity env pk id db made h v =
    let (i, e, a, s, p) = make_destination-made env pk id db made h in
    rw (sym e) (
      with_account-Integrity (env.account_id spark) pk env.now db a s p v,
      rw (sym i) (ground (arith, eq_refl (env.account_id spark))),
    )

pub destination_of-Integrity :
    (env : Env) (pk id : Text) (o : Option SparkRow) (db made : Db)
    → destination_of env pk o db ≡ ok (id, made)
    → Integrity db
    → Integrity made × (exists (account_is id) made.accounts ≡ true)
unfolding destination_of
destination_of-Integrity env pk id none db made h v =
    make_destination-Integrity env pk id db made h v
destination_of-Integrity env pk id (some s) db made h v =
    elim (Bool-cases (is_some (find (account_is s.account_id) db.accounts))) [
      | inl found ↦
          let i : s.account_id ≡ id = ground arith in
          let e : db ≡ made = ground arith in
          rw (sym e) (v, rw (sym i) (exists-eq-find (account_is s.account_id) db.accounts ∙ found))
      | inr gone ↦ make_destination-Integrity env pk id db made (ground arith) v
    ]

pub move_identifier-Integrity :
    (env : Env) (d i source dest desc : Text) (db db' : Db)
    → move_identifier env d i source dest desc db ≡ ok db'
    → exists (account_is dest) db.accounts ≡ true
    → Integrity db
    → Integrity db'
unfolding move_identifier
move_identifier-Integrity env d i source dest desc db db' h a v =
    let f = λ (r : IdentifierRow). record r {
      account_id = dest;
      description = desc;
      updated_at = env.now;
    } in
    let rows = update (moved d i source) f db.account_identifiers in
    let e : record db { account_identifiers = delete (other_username dest d i) rows } ≡ db' =
      ground arith in
    let w : Integrity (record db { account_identifiers = rows }) = record {
      accounts = v.accounts;
      names =
          Distinct-update _ (moved d i source) f db.account_identifiers (λ r x. refl) (λ r x. refl)
            v.names;
      sparks = v.sparks;
      pubkeys = v.pubkeys;
      blinks = v.blinks;
      blink_ids = v.blink_ids;
      claims = v.claims;
      names_owned =
          Every-update _ (moved d i source) f db.account_identifiers (λ r hit p. a) v.names_owned;
      sparks_owned = v.sparks_owned;
      blinks_owned = v.blinks_owned;
      backed = v.backed;
    } in
    subst Integrity e
      (fewer_names-Integrity (other_username dest d i) (record db { account_identifiers = rows }) w)

pub transfer_body-Integrity :
    (env : Env) (t : IdentifierTransfer) (db db' : Db)
    → transfer_body env t db ≡ ok db'
    → Integrity db
    → Integrity db'
transfer_body-Integrity env t db db' h v =
    let (claimed, id, made, c, _, _, k, w) = transfer_body-ok env t db db' h in
    let m =
      destination_of-Integrity env t.destination_spark_pubkey id _ claimed made k
        (claim_statement-Integrity env t.claim db claimed c v) in
    move_identifier-Integrity env t.domain t.identifier t.source_account_id id t.description made
      db' w m.1 m.0

pub blink_transfer_body-Integrity :
    (env : Env) (t : BlinkToSparkIdentifierTransfer) (db db' : Db)
    → blink_transfer_body env t db ≡ ok db'
    → Integrity db
    → Integrity db'
blink_transfer_body-Integrity env t db db' h v =
    let (id, made, _, _, k, w) = blink_transfer_body-ok env t db db' h in
    let m = destination_of-Integrity env t.destination_spark_pubkey id _ db made k v in
    move_identifier-Integrity env t.domain t.identifier t.source_account_id id t.description made
      db' w m.1 m.0
