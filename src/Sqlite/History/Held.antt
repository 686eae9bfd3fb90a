-- ===== src/Sqlite/History/Held.antt =====
-- The row of a name through the writes of src/sqlite/repository.rs.
use mathlib.Core.Path.{subst}
use blink_lnurl_server.Prelude.{
  ◌≡◌, refl, sym, Bool, true, false, not, ◌&&◌, ◌||◌, Option, none, some, List, [], ◌∷◌, arith,
  Text, ◌==◌, eq_iff, Bool-cases, inl, inr, ok,
}
use blink_lnurl_server.Repository.{
  spark, NewAccountIdentifier, NewSparkRegistration, IdentifierTransfer,
  BlinkToSparkIdentifierTransfer, StatementClaim,
}
use blink_lnurl_server.Sqlite.Query.{find, exists, delete, update}
use blink_lnurl_server.Sqlite.Query.Laws.{
  find-delete_first, find-update_first, exists-found, exists-of_found,
}
use blink_lnurl_server.Sqlite.Tables.{
  IdentifierRow, SparkRow, Db, Env, pubkey_is, named, other_username,
}
use blink_lnurl_server.Sqlite.Claims.Laws.{claim_statement-tables}
use blink_lnurl_server.Sqlite.Registration.{
  upsert_identifier, registered_account, registration_body, delete_of_owner, delete_owned,
  owned_name, unregister_body,
}
use blink_lnurl_server.Sqlite.Registration.Laws.{registration_body-ok, unregister_body-ok}
use blink_lnurl_server.Sqlite.Transfer.{
  make_destination, destination_of, move_identifier, moved, transfer_body, blink_transfer_body,
}
use blink_lnurl_server.Sqlite.Transfer.Laws.{
  transfer_body-ok, blink_transfer_body-ok, destination_of-rest,
}
use blink_lnurl_server.Sqlite.Blink.{insert_identifiers}
use blink_lnurl_server.Sqlite.Integrity.Calls.{registration_writes-parts}

-- The account of a Spark row is the one given.
abbrev pub is_account : Text → Option SparkRow → Bool
is_account id none = false
is_account id (some s) = s.account_id == id

registered_account-same :
    (env : Env) (reg : NewSparkRegistration) (a b : Db)
    → b.spark_accounts ≡ a.spark_accounts
    → registered_account env reg b ≡ registered_account env reg a
unfolding registered_account
registered_account-same env reg a b x = rw x refl

module _ (d n : Text) (i : IdentifierRow) where
  abbrev pub Held : List IdentifierRow → Type 0
  Held rows = find (named d n) rows ≡ some i

  upsert_identifier-Held :
      (env : Env) (id : Text) (new : NewAccountIdentifier) (rows rows' : List IdentifierRow)
      → upsert_identifier env id new rows ≡ ok rows'
      → (i.account_id == id) ≡ false
      → Held rows
      → Held rows'
  unfolding upsert_identifier find
  upsert_identifier-Held env id new rows rows' h o k =
      let mine = λ (r : IdentifierRow). named new.domain new.identifier r && r.account_id == id in
      elim (Bool-cases (exists mine rows)) [
        | inl old ↦
            let e : rows'
                ≡ update mine
                    (λ r. record r {
                      identifier_kind = new.identifier_kind;
                      description = new.description;
                      updated_at = env.now;
                    })
                    rows =
              ground arith in
            rw e (find-update_first (named d n) mine _ rows i (λ r. refl) k (ground arith))
        | inr fresh ↦
            let row : IdentifierRow = record {
              account_id = id;
              domain = new.domain;
              identifier = new.identifier;
              identifier_kind = new.identifier_kind;
              description = new.description;
              created_at = env.now;
              updated_at = env.now;
            } in
            let e : rows' ≡ row ∷ rows = ground arith in
            elim (Bool-cases (named d n row)) [
              | inl clash ↦
                  let a : new.domain ≡ d = (eq_iff _ _).0 (ground arith) in
                  let b : new.identifier ≡ n = (eq_iff _ _).0 (ground arith) in
                  let taken : exists
                        (λ r. named new.domain new.identifier r && not (r.account_id == id)) rows
                      ≡ true =
                    rw (a, b)
                      (exists-found (named d n) (λ r. not (r.account_id == id)) rows i k
                        (ground arith)) in
                  absurd (ground arith)
              | inr apart ↦ rw e (rw apart k)
            ]
      ]

  pub insert_identifiers-Held :
      (env : Env) (id : Text) (news : List NewAccountIdentifier) (rows rows' : List IdentifierRow)
      → insert_identifiers env id news rows ≡ ok rows'
      → Held rows
      → Held rows'
  unfolding insert_identifiers find
  insert_identifiers-Held env id [] rows rows' h k =
      let e : rows ≡ rows' = ground arith in subst Held e k
  insert_identifiers-Held env id (new ∷ rest) rows rows' h k =
      let row : IdentifierRow = record {
        account_id = id;
        domain = new.domain;
        identifier = new.identifier;
        identifier_kind = new.identifier_kind;
        description = new.description;
        created_at = env.now;
        updated_at = env.now;
      } in
      elim (Bool-cases (exists (named new.domain new.identifier) rows)) [
        | inl taken ↦ absurd (ground arith)
        | inr free ↦ elim (Bool-cases (named d n row)) [
          | inl clash ↦
              let a : new.domain ≡ d = (eq_iff _ _).0 (ground arith) in
              let b : new.identifier ≡ n = (eq_iff _ _).0 (ground arith) in
              absurd (cc (rw (a, b) at free, exists-of_found (named d n) rows i k))
          | inr apart ↦
              insert_identifiers-Held env id rest (row ∷ rows) rows' (ground arith) (rw apart k)
        ]
      ]

  pub registration_body-Held :
      (env : Env) (reg : NewSparkRegistration) (db db' : Db)
      → registration_body env reg db ≡ ok db'
      → (i.account_id == registered_account env reg db) ≡ false
      → Held db.account_identifiers
      → Held db'.account_identifiers
  registration_body-Held env reg db db' h o k =
      let (claimed, _, c, _, w) = registration_body-ok env reg db db' h in
      let id = registered_account env reg claimed in
      let (sparks, names, s, m, e) = registration_writes-parts env id reg claimed db' w in
      let same = claim_statement-tables env reg.claim db claimed c in
      let id_same : id ≡ registered_account env reg db =
        registered_account-same env reg db claimed same.1 in
      let gone = other_username id reg.identifier.domain reg.identifier.identifier in
      let mine : (i.account_id == id) ≡ false = rw id_same o in
      subst (λ (x : Db). Held x.account_identifiers) e
        (upsert_identifier-Held env id reg.identifier (delete gone claimed.account_identifiers)
          names m mine
          (find-delete_first (named d n) gone claimed.account_identifiers i (rw same.0 k)
            (ground arith)))

  delete_of_owner-Held :
      (o : Option SparkRow) (d' n' : Text) (db db' : Db)
      → delete_of_owner o d' n' db ≡ ok db'
      → is_account i.account_id o ≡ false
      → Held db.account_identifiers
      → Held db'.account_identifiers
  unfolding delete_of_owner delete_owned
  delete_of_owner-Held none d' n' db db' h o k = cc
  delete_of_owner-Held (some r) d' n' db db' h o k =
      let e : delete (owned_name r.account_id d' n') db.account_identifiers
          ≡ db'.account_identifiers =
        ground arith in
      rw (sym e) (
        find-delete_first (named d n) (owned_name r.account_id d' n') db.account_identifiers i k
          (ground (arith, eq_iff i.account_id r.account_id, eq_iff r.account_id i.account_id)))

  pub unregister_body-Held :
      (env : Env) (d' pk n' : Text) (claim : Option StatementClaim) (db db' : Db)
      → unregister_body env d' pk n' claim db ≡ ok db'
      → is_account i.account_id (find (pubkey_is pk) db.spark_accounts) ≡ false
      → Held db.account_identifiers
      → Held db'.account_identifiers
  unregister_body-Held env d' pk n' claim db db' h o k =
      let (claimed, c, w) = unregister_body-ok env d' pk n' claim db db' h in
      let same = claim_statement-tables env claim db claimed c in
      delete_of_owner-Held (find (pubkey_is pk) claimed.spark_accounts) d' n' claimed db' w
        (rw same.1 o) (rw same.0 k)

  move_identifier-Held :
      (env : Env) (d' n' source dest desc : Text) (db db' : Db)
      → move_identifier env d' n' source dest desc db ≡ ok db'
      → (i.account_id == source) ≡ false
      → (i.account_id == dest) ≡ false
      → Held db.account_identifiers
      → Held db'.account_identifiers
  unfolding move_identifier
  move_identifier-Held env d' n' source dest desc db db' h a b k =
      let f = λ (r : IdentifierRow). record r {
        account_id = dest;
        description = desc;
        updated_at = env.now;
      } in
      let e : delete (other_username dest d' n')
            (update (moved d' n' source) f db.account_identifiers)
          ≡ db'.account_identifiers =
        ground arith in
      rw (sym e) (
        find-delete_first (named d n) (other_username dest d' n')
          (update (moved d' n' source) f db.account_identifiers) i
          (find-update_first (named d n) (moved d' n' source) f db.account_identifiers i (λ r. refl)
            k (ground arith))
          (ground arith))

  destination_of-other :
      (env : Env) (pk id : Text) (o : Option SparkRow) (db made : Db)
      → destination_of env pk o db ≡ ok (id, made)
      → (is_account i.account_id o || env.account_id spark == i.account_id) ≡ false
      → (i.account_id == id) ≡ false
  unfolding destination_of make_destination
  destination_of-other env pk id none db made h o =
      ground (arith, eq_iff i.account_id id, eq_iff id i.account_id)
  destination_of-other env pk id (some s) db made h o =
      ground (arith, eq_iff i.account_id id, eq_iff id i.account_id)

  pub transfer_body-Held :
      (env : Env) (t : IdentifierTransfer) (db db' : Db)
      → transfer_body env t db ≡ ok db'
      → (i.account_id == t.source_account_id) ≡ false
      → (is_account i.account_id (find (pubkey_is t.destination_spark_pubkey) db.spark_accounts)
          || env.account_id spark == i.account_id)
        ≡ false
      → Held db.account_identifiers
      → Held db'.account_identifiers
  transfer_body-Held env t db db' h a b k =
      let (claimed, id, made, c, _, _, x, w) = transfer_body-ok env t db db' h in
      let same = claim_statement-tables env t.claim db claimed c in
      let rest = destination_of-rest env t.destination_spark_pubkey id _ claimed made x in
      move_identifier-Held env t.domain t.identifier t.source_account_id id t.description made db' w
        a (destination_of-other env t.destination_spark_pubkey id _ claimed made x (rw same.1 b))
        (rw rest.2 (rw same.0 k))

  pub blink_transfer_body-Held :
      (env : Env) (t : BlinkToSparkIdentifierTransfer) (db db' : Db)
      → blink_transfer_body env t db ≡ ok db'
      → (i.account_id == t.source_account_id) ≡ false
      → (is_account i.account_id (find (pubkey_is t.destination_spark_pubkey) db.spark_accounts)
          || env.account_id spark == i.account_id)
        ≡ false
      → Held db.account_identifiers
      → Held db'.account_identifiers
  blink_transfer_body-Held env t db db' h a b k =
      let (id, made, _, _, x, w) = blink_transfer_body-ok env t db db' h in
      let rest = destination_of-rest env t.destination_spark_pubkey id _ db made x in
      move_identifier-Held env t.domain t.identifier t.source_account_id id t.description made db' w
        a (destination_of-other env t.destination_spark_pubkey id _ db made x b) (rw rest.2 k)
