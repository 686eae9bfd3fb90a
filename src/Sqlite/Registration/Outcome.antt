-- ===== src/Sqlite/Registration/Outcome.antt =====
-- The look-up of a name after its registration (src/sqlite/repository.rs).
use mathlib.Core.Path.{subst}
use blink_lnurl_server.Prelude.{
  ℕ, ◌≡◌, refl, ◌∙◌, ap, Bool, true, false, not, ◌&&◌, none, some, List, [], ◌∷◌, arith, Text, ◌==◌,
  eq_iff, eq_refl, Bool-cases, inl, inr, Result, ok, err,
}
use blink_lnurl_server.Repository.{
  spark, NewAccountIdentifier, NewSparkRegistration, ResolvedRecipient, LnurlRepositoryError,
}
use blink_lnurl_server.Sqlite.Query.{find, exists, delete, update}
use blink_lnurl_server.Sqlite.Query.Laws.{exists-eq-find, find-holds, find-update}
use blink_lnurl_server.Sqlite.Tables.{
  AccountRow, IdentifierRow, SparkRow, Db, Env, account_is, spark_is, blink_is, named,
  new_spark_row, other_username, transact,
}
use blink_lnurl_server.Sqlite.Registration.{
  upsert_account, upsert_spark, upsert_identifier, registered_account, registration_body,
  upsert_spark_registration,
}
use blink_lnurl_server.Sqlite.Registration.Laws.{registration_body-ok}
use blink_lnurl_server.Sqlite.Integrity.{Integrity}
use blink_lnurl_server.Sqlite.Integrity.Parts.{upsert_spark-cases, updated, inserted}
use blink_lnurl_server.Sqlite.Integrity.Calls.{
  registration_writes-parts, registration_body-Integrity,
}
use blink_lnurl_server.Sqlite.Recipient.{
  map_resolved_recipient, is_consistent, resolve_recipient_by_identifier,
}
use blink_lnurl_server.Sqlite.Recipient.Resolution.{find-of_exists, blink-absent, resolve-joined}

-- The row of an account after the upsert is a Spark account.
upsert_account-find :
    (now : ℕ) (id : Text) (rows : List AccountRow)
    → (a : AccountRow) × (find (account_is id) (upsert_account now id spark rows) ≡ some a)
      × (a.provider ≡ spark)
unfolding upsert_account find
upsert_account-find now id rows = elim (Bool-cases (exists (account_is id) rows)) [
  | inl old ↦
      let (a, f) = find-of_exists (account_is id) rows old in
      (
        record a { provider = spark; updated_at = now },
        rw old (
            find-update (account_is id) (account_is id) _ rows (λ r. refl)
            ∙ rw f (rw (find-holds (account_is id) rows a f))),
        refl,
      )
  | inr new ↦ (
    record { account_id = id; provider = spark; created_at = now; updated_at = now },
    rw new (rw (eq_refl id)),
    refl,
  )
]

pub upsert_spark-find :
    (env : Env) (id pk : Text) (rows rows' : List SparkRow)
    → upsert_spark env id pk rows ≡ ok rows'
    → (s : SparkRow) × (find (spark_is id) rows' ≡ some s) × (s.pubkey ≡ pk)
unfolding find
upsert_spark-find env id pk rows rows' h = elim (upsert_spark-cases env id pk rows rows' h).0 [
  | updated old e ↦
      let (s, f) = find-of_exists (spark_is id) rows old in
      (
        record s { pubkey = pk; updated_at = env.now },
        rw e (
            find-update (spark_is id) (spark_is id) _ rows (λ r. refl)
            ∙ rw f (rw (find-holds (spark_is id) rows s f))),
        refl,
      )
  | inserted new e ↦ (new_spark_row id pk env.now, rw e (rw (eq_refl id)), refl)
]

-- Where no row of a name belongs to another account, the first row of the name is the account's.
find-mine :
    (p q : IdentifierRow → Bool) (rows : List IdentifierRow)
    → exists (λ r. p r && not (q r)) rows ≡ false
    → exists (λ r. p r && q r) rows ≡ true
    → (r : IdentifierRow) × (find p rows ≡ some r) × (q r ≡ true)
unfolding find exists
find-mine p q [] h k = absurd (cc k)
find-mine p q (x ∷ rows) h k = elim (Bool-cases (p x)) [
  | inl hit ↦ (x, ground arith, ground arith)
  | inr miss ↦
      let (r, f, m) = find-mine p q rows (ground arith) (ground arith) in (r, ground arith, m)
]

upsert_identifier-find :
    (env : Env) (id : Text) (new : NewAccountIdentifier) (rows rows' : List IdentifierRow)
    → upsert_identifier env id new rows ≡ ok rows'
    → (i : IdentifierRow) × (find (named new.domain new.identifier) rows' ≡ some i)
      × (i.account_id ≡ id)
      × (i.description ≡ new.description)
unfolding upsert_identifier find
upsert_identifier-find env id new rows rows' h =
    let mine = λ (r : IdentifierRow). named new.domain new.identifier r && r.account_id == id in
    let f = λ (r : IdentifierRow). record r {
      identifier_kind = new.identifier_kind;
      description = new.description;
      updated_at = env.now;
    } in
    elim (Bool-cases (exists mine rows)) [
      | inl old ↦
          let (i, g, m) =
            find-mine (named new.domain new.identifier) (λ r. r.account_id == id) rows
              (ground arith) old in
          let here : mine i ≡ true =
            ground (arith, find-holds (named new.domain new.identifier) rows i g) in
          let e : rows' ≡ update mine f rows = ground arith in
          (
            f i,
            rw e (
                find-update (named new.domain new.identifier) mine f rows (λ r. refl)
                ∙ rw g (rw here)),
            (eq_iff _ _).0 m,
            refl,
          )
      | inr fresh ↦
          let row : IdentifierRow = record {
            account_id = id;
            domain = new.domain;
            identifier = new.identifier;
            identifier_kind = new.identifier_kind;
            description = new.description;
            created_at = env.now;
            updated_at = env.now;
          } in
          let e : rows' ≡ row ∷ rows = ground arith in
          (row, rw e (rw (eq_refl new.domain) (rw (eq_refl new.identifier))), refl, refl)
    ]

pub recipient-spark :
    (i : IdentifierRow) (a : AccountRow) (s : SparkRow)
    → a.provider ≡ spark
    → (r : ResolvedRecipient) × (map_resolved_recipient i a (some s) none ≡ ok r)
      × (r.spark_pubkey ≡ some s.pubkey)
      × (r.description ≡ i.description)
unfolding map_resolved_recipient is_consistent
recipient-spark i a s e = (
  record {
    account_id = a.account_id;
    provider = a.provider;
    domain = i.domain;
    identifier = i.identifier;
    identifier_kind = i.identifier_kind;
    description = i.description;
    spark_pubkey = some s.pubkey;
    blink_account_id = none;
    btc_wallet_id = none;
    usd_wallet_id = none;
    default_wallet = none;
  },
  rw e refl,
  refl,
  refl,
)

pub transact-ok :
    (body : Db → Result LnurlRepositoryError Db) (db : Db)
    → (transact body db).0 ≡ ok tt
    → body db ≡ ok (transact body db).1
transact-ok body db h = after (body db) h
  where
    after :
        (m : Result LnurlRepositoryError Db)
        → (let answer : Result LnurlRepositoryError (Unit {0}) × Db = elim m [
          | ok db' ↦ (ok tt, db')
          | err e ↦ (err e, db)
        ] in
            answer.0 ≡ ok tt → m ≡ ok answer.1)
    after (ok db') k = refl
    after (err e) k = cc

-- After a registration that succeeds on tables with integrity, the look-up of the registered name
-- finds a recipient with the registered pubkey and description.
pub registered-resolves :
    (env : Env) (reg : NewSparkRegistration) (db : Db)
    → Integrity db
    → (upsert_spark_registration env reg db).0 ≡ ok tt
    → (r : ResolvedRecipient) × (resolve_recipient_by_identifier reg.identifier.domain
          reg.identifier.identifier
          (upsert_spark_registration env reg db).1
        ≡ ok (some r))
      × (r.spark_pubkey ≡ some reg.pubkey)
      × (r.description ≡ reg.identifier.description)
unfolding upsert_spark_registration
registered-resolves env reg db v h =
    let db' = (transact (registration_body env reg) db).1 in
    let b = transact-ok (registration_body env reg) db h in
    let v' = registration_body-Integrity env reg db db' b v in
    let (claimed, _, _, _, w) = registration_body-ok env reg db db' b in
    let id = registered_account env reg claimed in
    let (sparks, names, s, n, e) = registration_writes-parts env id reg claimed db' w in
    let (row, fs, pk) = upsert_spark-find env id reg.pubkey claimed.spark_accounts sparks s in
    let (i, fi, own, desc) =
      upsert_identifier-find env id reg.identifier
        (delete (other_username id reg.identifier.domain reg.identifier.identifier)
          claimed.account_identifiers)
        names n in
    let (a, fa, p) = upsert_account-find env.now id claimed.accounts in
    let same : a.account_id ≡ id =
      (eq_iff _ _).0
        (find-holds (account_is id) (upsert_account env.now id spark claimed.accounts) a fa) in
    let ga : find (account_is id) db'.accounts ≡ some a =
      subst (λ (d : Db). find (account_is id) d.accounts ≡ some a) e fa in
    let gs : find (spark_is id) db'.spark_accounts ≡ some row =
      subst (λ (d : Db). find (spark_is id) d.spark_accounts ≡ some row) e fs in
    let gi : find (named reg.identifier.domain reg.identifier.identifier) db'.account_identifiers
        ≡ some i =
      subst
        (λ (d : Db).
          find (named reg.identifier.domain reg.identifier.identifier) d.account_identifiers
          ≡ some i)
        e fi in
    let no_blink : find (blink_is id) db'.blink_accounts ≡ none = ground (
      arith,
      blink-absent id db' a v' ga (rw p refl),
      exists-eq-find (blink_is id) db'.blink_accounts,
    ) in
    let (r, q, k, d) = recipient-spark i a row p in
    (
      r,
      resolve-joined reg.identifier.domain reg.identifier.identifier db' i a r gi (rw own ga)
          (rw same (rw gs (rw no_blink q))),
      k ∙ ap some pk,
      d ∙ desc,
    )
