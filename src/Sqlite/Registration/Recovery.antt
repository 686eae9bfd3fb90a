-- ===== src/Sqlite/Registration/Recovery.antt =====
-- The username of a pubkey after a registration (`get_spark_username_by_pubkey`).
use mathlib.Core.Path.{subst}
use blink_lnurl_server.Prelude.{
  ◌≡◌, refl, sym, ◌∙◌, ap, Bool, true, false, ◌&&◌, Option, none, some, List, [], ◌∷◌, arith, Text,
  ◌==◌, eq_iff, eq_refl, Bool-cases, inl, inr, ok,
}
use blink_lnurl_server.Repository.{
  spark, username, phone, kind_eq, validate, AccountIdentifierKind, NewAccountIdentifier,
  NewSparkRegistration, SparkUsername,
}
use blink_lnurl_server.Sqlite.Query.{find, exists, delete, update}
use blink_lnurl_server.Sqlite.Query.Laws.{find-holds}
use blink_lnurl_server.Sqlite.Query.Keys.{Every, Every-update}
use blink_lnurl_server.Sqlite.Query.Keys.{one-row}
use blink_lnurl_server.Sqlite.Tables.{
  IdentifierRow, SparkRow, Db, Env, spark_is, pubkey_is, named, other_username, transact,
}
use blink_lnurl_server.Sqlite.Registration.{
  upsert_identifier, registered_account, registration_body, upsert_spark_registration,
}
use blink_lnurl_server.Sqlite.Registration.Laws.{registration_body-ok}
use blink_lnurl_server.Sqlite.Registration.Outcome.{upsert_spark-find, transact-ok}
use blink_lnurl_server.Sqlite.Transfer.{has_account}
use blink_lnurl_server.Sqlite.Integrity.{Integrity}
use blink_lnurl_server.Sqlite.Integrity.Rows.{upsert_account-made}
use blink_lnurl_server.Sqlite.Integrity.Calls.{
  registration_writes-parts, registration_body-Integrity,
}
use blink_lnurl_server.Sqlite.Recipient.{
  is_username_of, sooner, comes_before, first_of, get_spark_username_by_pubkey,
}

-- Every username of the account on the domain is `n`.
abbrev Only : Text → Text → Text → List IdentifierRow → Type 0
Only d id n = Every λ r. is_username_of d id r ≡ true → r.identifier ≡ n

deleted-Only :
    (d id n : Text) (rows : List IdentifierRow) → Only d id n (delete (other_username id d n) rows)
unfolding delete
deleted-Only d id n [] = tt
deleted-Only d id n (r ∷ rows) = elim (Bool-cases (other_username id d n r)) [
  | inl gone ↦ rw gone (deleted-Only d id n rows)
  | inr kept ↦ rw kept ((λ h. ground (arith, eq_iff r.identifier n)), deleted-Only d id n rows)
]

first_of-Only :
    (d id n : Text) (rows : List IdentifierRow) (i : IdentifierRow)
    → Only d id n rows
    → first_of (is_username_of d id) rows ≡ some i
    → i.identifier ≡ n
unfolding first_of
first_of-Only d id n [] i o h = cc
first_of-Only d id n (r ∷ rows) i o h = elim (Bool-cases (is_username_of d id r)) [
  | inl hit ↦
      let e : sooner r (first_of (is_username_of d id) rows) ≡ i = ground arith in
      ap (λ (x : IdentifierRow). x.identifier) (sym e)
      ∙ picked (first_of (is_username_of d id) rows) (o.0 hit)
          (λ s k. first_of-Only d id n rows s o.1 k)
  | inr miss ↦ first_of-Only d id n rows i o.1 (ground arith)
]
  where
    picked :
        (rest : Option IdentifierRow)
        → r.identifier ≡ n
        → ((s : IdentifierRow) → rest ≡ some s → s.identifier ≡ n)
        → (sooner r rest).identifier ≡ n
    picked none e k = e
    picked (some s) e k = elim (Bool-cases (comes_before s r)) [
      | inl before ↦ rw before (k s refl)
      | inr after ↦ rw after e
    ]

first_of-found :
    (p : IdentifierRow → Bool) (rows : List IdentifierRow)
    → exists p rows ≡ true
    → (i : IdentifierRow) × (first_of p rows ≡ some i)
unfolding first_of exists
first_of-found p [] h = cc
first_of-found p (r ∷ rows) h = elim (Bool-cases (p r)) [
  | inl hit ↦ (sooner r (first_of p rows), rw hit refl)
  | inr miss ↦ let (i, e) = first_of-found p rows (ground arith) in (i, rw miss e)
]

module _ (env : Env) (id : Text) (new : NewAccountIdentifier) where
  upsert_identifier-Only :
      (rows rows' : List IdentifierRow)
      → upsert_identifier env id new rows ≡ ok rows'
      → Only new.domain id new.identifier rows
      → Only new.domain id new.identifier rows'
  unfolding upsert_identifier
  upsert_identifier-Only rows rows' h o =
      let mine = λ (r : IdentifierRow). named new.domain new.identifier r && r.account_id == id in
      let f = λ (r : IdentifierRow). record r {
        identifier_kind = new.identifier_kind;
        description = new.description;
        updated_at = env.now;
      } in
      elim (Bool-cases (exists mine rows)) [
        | inl old ↦
            let e : rows' ≡ update mine f rows = ground arith in
            rw e (Every-update _ mine f rows (λ r hit k here. (eq_iff _ _).0 (ground arith)) o)
        | inr fresh ↦
            let row : IdentifierRow = record {
              account_id = id;
              domain = new.domain;
              identifier = new.identifier;
              identifier_kind = new.identifier_kind;
              description = new.description;
              created_at = env.now;
              updated_at = env.now;
            } in
            let e : rows' ≡ row ∷ rows = ground arith in rw e ((λ h. refl), o)
      ]

  renamed-exists :
      (rows : List IdentifierRow)
      → kind_eq new.identifier_kind username ≡ true
      → exists (λ r. named new.domain new.identifier r && r.account_id == id) rows ≡ true
      → exists (is_username_of new.domain id) (
          update
            (λ r. named new.domain new.identifier r && r.account_id == id)
            (λ r. record r {
              identifier_kind = new.identifier_kind;
              description = new.description;
              updated_at = env.now;
            })
            rows)
        ≡ true
  unfolding exists update
  renamed-exists [] k h = cc
  renamed-exists (r ∷ rows) k h =
      elim (Bool-cases (named new.domain new.identifier r && r.account_id == id)) [
        | inl hit ↦ rw hit (rw k (ground arith))
        | inr miss ↦ rw miss (ground (arith, renamed-exists rows))
      ]

  upsert_identifier-exists :
      (rows rows' : List IdentifierRow)
      → upsert_identifier env id new rows ≡ ok rows'
      → kind_eq new.identifier_kind username ≡ true
      → exists (is_username_of new.domain id) rows' ≡ true
  unfolding upsert_identifier exists
  upsert_identifier-exists rows rows' h k =
      let mine = λ (r : IdentifierRow). named new.domain new.identifier r && r.account_id == id in
      elim (Bool-cases (exists mine rows)) [
        | inl old ↦
            let e : rows'
                ≡ update mine
                    (λ r. record r {
                      identifier_kind = new.identifier_kind;
                      description = new.description;
                      updated_at = env.now;
                    })
                    rows =
              ground arith in
            rw e (renamed-exists rows k old)
        | inr fresh ↦
            let row : IdentifierRow = record {
              account_id = id;
              domain = new.domain;
              identifier = new.identifier;
              identifier_kind = new.identifier_kind;
              description = new.description;
              created_at = env.now;
              updated_at = env.now;
            } in
            let e : rows' ≡ row ∷ rows = ground arith in
            rw e (rw (eq_refl new.domain, exists) (ground (arith, eq_refl id, eq_refl new.domain)))
      ]

validated :
    (reg : NewSparkRegistration)
    → validate reg ≡ ok tt
    → kind_eq reg.identifier.identifier_kind username ≡ true
unfolding validate
validated reg h = after reg.identifier.identifier_kind (ground arith)
  where
    after : (k : AccountIdentifierKind) → kind_eq k phone ≡ false → kind_eq k username ≡ true
    after username n = refl
    after phone n = cc

recovered :
    (d pk n : Text) (db : Db) (s : SparkRow) (i : IdentifierRow)
    → find (pubkey_is pk) db.spark_accounts ≡ some s
    → exists (has_account spark s.account_id) db.accounts ≡ true
    → first_of (is_username_of d s.account_id) db.account_identifiers ≡ some i
    → i.identifier ≡ n
    → (u : SparkUsername) × (get_spark_username_by_pubkey d pk db ≡ some u) × (u.username ≡ n)
unfolding get_spark_username_by_pubkey
recovered d pk n db s i f a g e = (
  record { domain = d; pubkey = pk; username = i.identifier; description = i.description },
  rw (f, get_spark_username_by_pubkey) (rw a (rw g refl)),
  e,
)

-- After a registration that succeeds on tables with integrity, the username that the registered
-- pubkey has on the domain is the registered one.
pub registered-recovers :
    (env : Env) (reg : NewSparkRegistration) (db : Db)
    → Integrity db
    → (upsert_spark_registration env reg db).0 ≡ ok tt
    → (u : SparkUsername) × (get_spark_username_by_pubkey reg.identifier.domain reg.pubkey
          (upsert_spark_registration env reg db).1
        ≡ some u)
      × (u.username ≡ reg.identifier.identifier)
unfolding upsert_spark_registration
registered-recovers env reg db v h =
    let db' = (transact (registration_body env reg) db).1 in
    let new = reg.identifier in
    let b = transact-ok (registration_body env reg) db h in
    let v' = registration_body-Integrity env reg db db' b v in
    let (claimed, valid, _, _, w) = registration_body-ok env reg db db' b in
    let id = registered_account env reg claimed in
    let (sparks, names, s, m, e) = registration_writes-parts env id reg claimed db' w in
    let (row, fs, pk) = upsert_spark-find env id reg.pubkey claimed.spark_accounts sparks s in
    let gs : find (spark_is id) db'.spark_accounts ≡ some row =
      subst (λ (d : Db). find (spark_is id) d.spark_accounts ≡ some row) e fs in
    let own : row.account_id ≡ id =
      (eq_iff _ _).0 (find-holds (spark_is id) db'.spark_accounts row gs) in
    let kept = delete (other_username id new.domain new.identifier) claimed.account_identifiers in
    let only =
      upsert_identifier-Only env id new kept names m
        (deleted-Only new.domain id new.identifier claimed.account_identifiers) in
    let (i, g) =
      first_of-found (is_username_of new.domain id) names
        (upsert_identifier-exists env id new kept names m (validated reg valid)) in
    recovered new.domain reg.pubkey new.identifier db' row i
      (one-row (λ r. r.pubkey) (spark_is id) reg.pubkey db'.spark_accounts row v'.pubkeys gs pk)
      (rw own (
        subst (λ (d : Db). exists (has_account spark id) d.accounts ≡ true) e
          (upsert_account-made env.now id claimed.accounts)))
      (rw own (
        subst (λ (d : Db). first_of (is_username_of new.domain id) d.account_identifiers ≡ some i) e
          g))
      (first_of-Only new.domain id new.identifier names i only g)
