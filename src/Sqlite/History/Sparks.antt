-- ===== src/Sqlite/History/Sparks.antt =====
-- What a call does to the table of Spark accounts.
use mathlib.Core.Path.{subst}
use blink_lnurl_server.Prelude.{
  ℕ, ◌≡◌, refl, sym, ◌∙◌, ap, Bool, true, false, not, ◌&&◌, none, some, List, [], ◌∷◌, arith, Text,
  eq_iff, eq_refl, Bool-cases, Option-cases, inl, inr, ok,
}
use blink_lnurl_server.Repository.{
  spark, NewSparkRegistration, SparkModeUpdate, enhanced, migration,
}
use blink_lnurl_server.Sqlite.Query.{find, exists, update}
use blink_lnurl_server.Sqlite.Query.Laws.{found-exists}
use blink_lnurl_server.Sqlite.Tables.{SparkRow, Db, Env, spark_is, pubkey_is, new_spark_row}
use blink_lnurl_server.Sqlite.Claims.Laws.{claim_statement-tables}
use blink_lnurl_server.Sqlite.Registration.{
  registered_account, registration_writes, registration_body,
}
use blink_lnurl_server.Sqlite.Registration.Laws.{registration_body-ok}
use blink_lnurl_server.Sqlite.Mode.{accepts, set_mode_row, is_enhanced, is_unset}
use blink_lnurl_server.Sqlite.Query.Keys.{Every}
use blink_lnurl_server.Sqlite.Integrity.{UniqueSparks}
use blink_lnurl_server.Sqlite.Integrity.Parts.{upsert_spark-cases, updated, inserted}
use blink_lnurl_server.Sqlite.Integrity.Calls.{registration_writes-parts}

-- `natural` is what the last change asks before it tells where its account comes from.
pub data SparkChange (natural : Type 0) (rows rows' : List SparkRow) : Type 0 where
  unchanged : rows' ≡ rows → SparkChange natural rows rows'
  adds :
      (id pk : Text) (now : ℕ)
      → exists (pubkey_is pk) rows ≡ false
      → rows' ≡ new_spark_row id pk now ∷ rows
      → SparkChange natural rows rows'
  sets :
      (u : SparkModeUpdate) (now : ℕ)
      → rows' ≡ update (accepts u) (set_mode_row now u) rows
      → SparkChange natural rows rows'
  locates :
      (pk country : Text) (now : ℕ)
      → rows'
        ≡ update
            (is_enhanced pk)
            (λ r. record r {
              country = some country;
              country_updated_at = some now;
              updated_at = now;
            })
            rows
      → SparkChange natural rows rows'
  migrates :
      (pk : Text) (now : ℕ)
      → rows'
        ≡ update
            (is_unset pk)
            (λ r. record r {
              mode = some enhanced;
              mode_source = some migration;
              mode_updated_at = some now;
              updated_at = now;
            })
            rows
      → SparkChange natural rows rows'
  repubkeys :
      (id pk : Text) (now : ℕ)
      → rows' ≡ update (spark_is id) (λ r. record r { pubkey = pk; updated_at = now }) rows
      → (natural → Every (λ r. spark_is id r ≡ true → pubkey_is pk r ≡ true) rows)
      → SparkChange natural rows rows'

-- A registration that names no account, with a generated id that no Spark row has, on a table with
-- its key.
abbrev pub IsNewcomer : Env → NewSparkRegistration → List SparkRow → Type 0
IsNewcomer env reg rows =
    (reg.account_id ≡ none)
    × (exists (spark_is (env.account_id spark)) rows ≡ false)
    × UniqueSparks rows

absent-sparks :
    (id : Text) (p : SparkRow → Bool) (rows : List SparkRow)
    → exists (spark_is id) rows ≡ false
    → Every (λ r. spark_is id r ≡ true → p r ≡ true) rows
unfolding exists
absent-sparks id p [] h = tt
absent-sparks id p (r ∷ rows) h =
    (λ x. absurd (ground arith), absent-sparks id p rows (ground arith))

-- Under the key, the account of the row that a test finds has no row on which the test fails.
only-row :
    (p : SparkRow → Bool) (rows : List SparkRow) (r : SparkRow)
    → UniqueSparks rows
    → find p rows ≡ some r
    → Every (λ x. spark_is r.account_id x ≡ true → p x ≡ true) rows
unfolding find
only-row p [] r u f = tt
only-row p (x ∷ rows) r u f = elim (Bool-cases (p x)) [
  | inl hit ↦
      let e : x ≡ r = ground arith in
      (
        λ _. hit,
        subst (λ (y : SparkRow). Every (λ z. spark_is y.account_id z ≡ true → p z ≡ true) rows) e
            (absent-sparks x.account_id p rows u.0),
      )
  | inr miss ↦
      let later : find p rows ≡ some r = ground arith in
      (
        λ same.
            let e : x.account_id ≡ r.account_id = (eq_iff _ _).0 same in
            let there : exists (spark_is x.account_id) rows ≡ true =
              rw e (found-exists p (spark_is r.account_id) rows r later (eq_refl r.account_id)) in
            absurd (cc (there, u.0)),
        only-row p rows r u.1 later,
      )
]

registered-source :
    (env : Env) (reg : NewSparkRegistration) (db : Db)
    → reg.account_id ≡ none
    → exists (spark_is (env.account_id spark)) db.spark_accounts ≡ false
    → exists (spark_is (registered_account env reg db)) db.spark_accounts ≡ true
    → (r : SparkRow) × (find (pubkey_is reg.pubkey) db.spark_accounts ≡ some r)
      × (r.account_id ≡ registered_account env reg db)
unfolding registered_account
registered-source env reg db n fresh there =
    elim (Option-cases (find (pubkey_is reg.pubkey) db.spark_accounts)) [
      | inl unknown ↦ absurd (ground arith)
      | inr (r, f) ↦ (r, f, ground arith)
    ]

none_other :
    (p q : SparkRow → Bool) (rows : List SparkRow)
    → exists (λ r. p r && not (q r)) rows ≡ false
    → exists q rows ≡ false
    → exists p rows ≡ false
unfolding exists
none_other p q [] a b = refl
none_other p q (r ∷ rows) a b = ground (arith, none_other p q rows)

registration_writes-sparks :
    (env : Env) (reg : NewSparkRegistration) (db db' : Db)
    → registration_writes env (registered_account env reg db) reg db ≡ ok db'
    → SparkChange (IsNewcomer env reg db.spark_accounts) db.spark_accounts db'.spark_accounts
registration_writes-sparks env reg db db' w =
    let id = registered_account env reg db in
    let (sparks, names, s, _, e) = registration_writes-parts env id reg db db' w in
    let there : sparks ≡ db'.spark_accounts = ap (λ (d : Db). d.spark_accounts) e in
    let (change, free) = upsert_spark-cases env id reg.pubkey db.spark_accounts sparks s in
    elim change [
      | updated old u ↦ repubkeys id reg.pubkey env.now (sym there ∙ u) (λ (n, fresh, u).
          let (r, f, own) = registered-source env reg db n fresh old in
          subst
            (λ i.
              Every (λ x. spark_is i x ≡ true → pubkey_is reg.pubkey x ≡ true) db.spark_accounts)
            own (only-row (pubkey_is reg.pubkey) db.spark_accounts r u f))
      | inserted new u ↦
          adds id reg.pubkey env.now
            (none_other (pubkey_is reg.pubkey) (spark_is id) db.spark_accounts free new)
            (sym there ∙ u)
    ]

pub registration_body-sparks :
    (env : Env) (reg : NewSparkRegistration) (db db' : Db)
    → registration_body env reg db ≡ ok db'
    → SparkChange (IsNewcomer env reg db.spark_accounts) db.spark_accounts db'.spark_accounts
registration_body-sparks env reg db db' h =
    let (claimed, _, c, _, w) = registration_body-ok env reg db db' h in
    subst (λ rows. SparkChange (IsNewcomer env reg rows) rows db'.spark_accounts)
      (claim_statement-tables env reg.claim db claimed c).1
      (registration_writes-sparks env reg claimed db' w)
