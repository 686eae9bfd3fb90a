-- ===== src/Sqlite/Integrity/Creation.antt =====
-- Integrity and `create_blink_account` of src/sqlite/repository.rs.
use mathlib.Core.Path.{subst}
use blink_lnurl_server.Prelude.{
  ◌≡◌, true, false, List, [], ◌∷◌, arith, Text, eq_refl, Bool-cases, inl, inr, ok, >>=-eq-ok,
}
use blink_lnurl_server.Repository.{
  AccountProvider, spark, blink, NewAccountIdentifier, NewBlinkAccount,
}
use blink_lnurl_server.Sqlite.Query.{exists}
use blink_lnurl_server.Sqlite.Query.Keys.{Every-mono}
use blink_lnurl_server.Sqlite.Tables.{
  AccountRow, IdentifierRow, BlinkRow, Db, Env, account_is, blink_is, blink_id_is, named,
  insert_account,
}
use blink_lnurl_server.Sqlite.Transfer.{has_account}
use blink_lnurl_server.Sqlite.Blink.{
  insert_identifiers, insert_blink, create_checks, create_body, blink_account_id_of,
}
use blink_lnurl_server.Sqlite.Integrity.{Integrity, UniqueNames, NamesOwned, Backed}
use blink_lnurl_server.Sqlite.Integrity.Moves.{exists-cons, exists-head}

abbrev account_of : Env → NewBlinkAccount → AccountRow
account_of env new = record {
  account_id = blink_account_id_of env new;
  provider = blink;
  created_at = env.now;
  updated_at = env.now;
}

abbrev blink_row_of : Env → NewBlinkAccount → BlinkRow
blink_row_of env new = record {
  account_id = blink_account_id_of env new;
  blink_account_id = new.blink_account_id;
  btc_wallet_id = new.btc_wallet_id;
  usd_wallet_id = new.usd_wallet_id;
  default_wallet = new.default_wallet;
  created_at = env.now;
  updated_at = env.now;
}

insert_account-fresh :
    (env : Env) (r : AccountRow) (rows rows' : List AccountRow)
    → insert_account env r rows ≡ ok rows'
    → (exists (account_is r.account_id) rows ≡ false) × (r ∷ rows ≡ rows')
unfolding insert_account
insert_account-fresh env r rows rows' h = (ground arith, ground arith)

insert_blink-fresh :
    (env : Env) (r : BlinkRow) (rows rows' : List BlinkRow)
    → insert_blink env r rows ≡ ok rows'
    → (exists (blink_is r.account_id) rows ≡ false)
      × (exists (blink_id_is r.blink_account_id) rows ≡ false)
      × (r ∷ rows ≡ rows')
unfolding insert_blink
insert_blink-fresh env r rows rows' h = (ground arith, ground arith, ground arith)

insert_identifiers-keeps :
    (env : Env) (id : Text) (accounts : List AccountRow) (news : List NewAccountIdentifier)
    (rows rows' : List IdentifierRow)
    → insert_identifiers env id news rows ≡ ok rows'
    → exists (account_is id) accounts ≡ true
    → UniqueNames rows
    → NamesOwned accounts rows
    → UniqueNames rows' × NamesOwned accounts rows'
unfolding insert_identifiers
insert_identifiers-keeps env id accounts [] rows rows' h a u o =
    let e : rows ≡ rows' = ground arith in (subst UniqueNames e u, subst (NamesOwned accounts) e o)
insert_identifiers-keeps env id accounts (new ∷ rest) rows rows' h a u o =
    let row : IdentifierRow = record {
      account_id = id;
      domain = new.domain;
      identifier = new.identifier;
      identifier_kind = new.identifier_kind;
      description = new.description;
      created_at = env.now;
      updated_at = env.now;
    } in
    elim (Bool-cases (exists (named new.domain new.identifier) rows)) [
      | inl taken ↦ absurd (ground arith)
      | inr free ↦
          insert_identifiers-keeps env id accounts rest (row ∷ rows) rows' (ground arith) a
            (free, u) (a, o)
    ]

create_body-ok :
    (env : Env) (new : NewBlinkAccount) (db db' : Db)
    → create_body env new db ≡ ok db'
    → (names : List IdentifierRow) × (exists (account_is (blink_account_id_of env new)) db.accounts
        ≡ false)
      × (exists (blink_is (blink_account_id_of env new)) db.blink_accounts ≡ false)
      × (exists (blink_id_is new.blink_account_id) db.blink_accounts ≡ false)
      × (insert_identifiers env (blink_account_id_of env new) new.identifiers db.account_identifiers
          ≡ ok names)
      × (record db {
        accounts = account_of env new ∷ db.accounts;
        blink_accounts = blink_row_of env new ∷ db.blink_accounts;
        account_identifiers = names;
      }
          ≡ db')
unfolding create_body
create_body-ok env new db db' h =
    let (_, _, h1) = >>=-eq-ok (create_checks (blink_account_id_of env new) new db) _ h in
    let (accounts, a, h2) = >>=-eq-ok (insert_account env (account_of env new) db.accounts) _ h1 in
    let (blinks, b, h3) =
      >>=-eq-ok (insert_blink env (blink_row_of env new) db.blink_accounts) _ h2 in
    let (names, n, h4) =
      >>=-eq-ok
        (insert_identifiers env (blink_account_id_of env new) new.identifiers
          db.account_identifiers)
        _ h3 in
    let fa = insert_account-fresh env (account_of env new) db.accounts accounts a in
    let fb = insert_blink-fresh env (blink_row_of env new) db.blink_accounts blinks b in
    (names, fa.0, fb.0, fb.1, n, rw fa.1 (rw fb.2 (ground arith)))

pub create_body-Integrity :
    (env : Env) (new : NewBlinkAccount) (db db' : Db)
    → create_body env new db ≡ ok db'
    → Integrity db
    → Integrity db'
create_body-Integrity env new db db' h v =
    let id = blink_account_id_of env new in
    let a = account_of env new in
    let b = blink_row_of env new in
    let (names, fa, fb, fc, n, e) = create_body-ok env new db db' h in
    let nm =
      insert_identifiers-keeps env id (a ∷ db.accounts) new.identifiers db.account_identifiers names
        n (exists-head (account_is id) a db.accounts (eq_refl id)) v.names
        (Every-mono _ _ db.account_identifiers
          (λ r. exists-cons (account_is r.account_id) a db.accounts) v.names_owned) in
    subst Integrity e (record {
      accounts = (fa, v.accounts);
      names = nm.0;
      sparks = v.sparks;
      pubkeys = v.pubkeys;
      blinks = (fb, v.blinks);
      blink_ids = (fc, v.blink_ids);
      claims = v.claims;
      names_owned = nm.1;
      sparks_owned =
          Every-mono _ _ db.spark_accounts
            (λ r. exists-cons (has_account spark r.account_id) a db.accounts) v.sparks_owned;
      blinks_owned = (
        exists-head (has_account blink id) a db.accounts (ground (arith, eq_refl id)),
        Every-mono _ _ db.blink_accounts
            (λ r. exists-cons (has_account blink r.account_id) a db.accounts) v.blinks_owned,
      );
      backed = (
        exists-head (blink_is id) b db.blink_accounts (eq_refl id),
        Every-mono _ _ db.accounts (λ r. more r.provider r.account_id) v.backed,
      );
    })
  where
    more :
        (p : AccountProvider) (x : Text)
        → Backed db.spark_accounts db.blink_accounts p x
        → Backed db.spark_accounts (blink_row_of env new ∷ db.blink_accounts) p x
    more spark x h = h
    more blink x h = exists-cons (blink_is x) (blink_row_of env new) db.blink_accounts h
