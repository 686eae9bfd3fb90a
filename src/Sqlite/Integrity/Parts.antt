-- ===== src/Sqlite/Integrity/Parts.antt =====
-- Integrity and the upserts of Spark rows and identifiers (src/sqlite/repository.rs).
use mathlib.Core.Path.{subst}
use blink_lnurl_server.Prelude.{
  ℕ, ◌≡◌, refl, sym, ◌∙◌, true, false, not, ◌&&◌, List, [], ◌∷◌, arith, Text, ◌==◌, eq_iff, eq_refl,
  Bool-cases, inl, inr, ok,
}
use blink_lnurl_server.Repository.{AccountProvider, spark, blink, NewAccountIdentifier}
use blink_lnurl_server.Sqlite.Query.{exists, update}
use blink_lnurl_server.Sqlite.Query.Laws.{exists-update}
use blink_lnurl_server.Sqlite.Query.Keys.{Every-mono, Every-update, Distinct-update, exists-none}
use blink_lnurl_server.Sqlite.Tables.{
  AccountRow, IdentifierRow, SparkRow, BlinkRow, Env, account_is, spark_is, pubkey_is, named,
  new_spark_row,
}
use blink_lnurl_server.Sqlite.Registration.{upsert_account, upsert_spark, upsert_identifier}
use blink_lnurl_server.Sqlite.Transfer.{has_account}
use blink_lnurl_server.Sqlite.Integrity.{
  UniqueNames, UniqueSparks, UniquePubkeys, NamesOwned, SparksOwned, AccountsBacked, Backed,
}
use blink_lnurl_server.Sqlite.Integrity.Rows.{exists-split}

-- `upsert_spark` and `upsert_identifier` where they succeed: the update or the insertion.
pub data UpsertedSpark (env : Env) (id pk : Text) (rows rows' : List SparkRow) : Type 0 where
  updated :
      exists (spark_is id) rows ≡ true
      → rows' ≡ update (spark_is id) (λ r. record r { pubkey = pk; updated_at = env.now }) rows
      → UpsertedSpark env id pk rows rows'
  inserted :
      exists (spark_is id) rows ≡ false
      → rows' ≡ new_spark_row id pk env.now ∷ rows
      → UpsertedSpark env id pk rows rows'

pub upsert_spark-cases :
    (env : Env) (id pk : Text) (rows rows' : List SparkRow)
    → upsert_spark env id pk rows ≡ ok rows'
    → UpsertedSpark env id pk rows rows'
      × (exists (λ r. pubkey_is pk r && not (spark_is id r)) rows ≡ false)
unfolding upsert_spark
upsert_spark-cases env id pk rows rows' h = elim (Bool-cases (exists (spark_is id) rows)) [
  | inl old ↦ (updated old (ground arith), ground arith)
  | inr new ↦ (inserted new (ground arith), ground arith)
]

-- A pubkey that no other account has, written to the rows of one account, is still on one row.
repubkey-Unique :
    (id pk : Text) (now : ℕ) (rows : List SparkRow)
    → UniqueSparks rows
    → UniquePubkeys rows
    → exists (λ r. pubkey_is pk r && not (spark_is id r)) rows ≡ false
    → UniquePubkeys (update (spark_is id) (λ r. record r { pubkey = pk; updated_at = now }) rows)
unfolding update exists
repubkey-Unique id pk now [] s u h = tt
repubkey-Unique id pk now (r ∷ rows) s u h = elim (Bool-cases (spark_is id r)) [
  | inl hit ↦
      let e : r.account_id ≡ id = (eq_iff _ _).0 hit in
      rw hit (
        alone rows (subst (λ i. exists (spark_is i) rows ≡ false) e s.0) (ground arith),
        repubkey-Unique id pk now rows s.1 u.1 (ground arith),
      )
  | inr miss ↦
      rw miss (other rows u.0 (ground arith), repubkey-Unique id pk now rows s.1 u.1 (ground arith))
]
  where
    alone :
        (l : List SparkRow)
        → exists (spark_is id) l ≡ false
        → exists (λ x. pubkey_is pk x && not (spark_is id x)) l ≡ false
        → exists
            (pubkey_is pk)
            (update (spark_is id) (λ x. record x { pubkey = pk; updated_at = now }) l)
          ≡ false
    alone [] a b = refl
    alone (x ∷ l) a b = ground (arith, alone l)

    other :
        (l : List SparkRow)
        → exists (pubkey_is r.pubkey) l ≡ false
        → (pubkey_is pk r) ≡ false
        → exists
            (pubkey_is r.pubkey)
            (update (spark_is id) (λ x. record x { pubkey = pk; updated_at = now }) l)
          ≡ false
    other [] a b = refl
    other (x ∷ l) a b = ground (arith, other l, eq_iff pk r.pubkey, eq_iff r.pubkey pk)

pub upsert_spark-keeps :
    (env : Env) (id pk : Text) (accounts : List AccountRow) (rows rows' : List SparkRow)
    → upsert_spark env id pk rows ≡ ok rows'
    → UniqueSparks rows
    → UniquePubkeys rows
    → SparksOwned accounts rows
    → exists (has_account spark id) accounts ≡ true
    → UniqueSparks rows'
      × UniquePubkeys rows'
      × SparksOwned accounts rows'
      × ((x : Text) → exists (spark_is x) rows ≡ true → exists (spark_is x) rows' ≡ true)
      × (exists (spark_is id) rows' ≡ true)
unfolding exists
upsert_spark-keeps env id pk accounts rows rows' h s u o a =
    elim (upsert_spark-cases env id pk rows rows' h).0 [
      | updated old e ↦ rw e (
        Distinct-update _ (spark_is id) _ rows (λ r x. refl) (λ r x. refl) s,
        repubkey-Unique id pk env.now rows s u (upsert_spark-cases env id pk rows rows' h).1,
        Every-update _ (spark_is id) _ rows (λ r hit p. p) o,
        λ x k. exists-update (spark_is x) (spark_is id) _ rows (λ r. refl) ∙ k,
        exists-update (spark_is id) (spark_is id) _ rows (λ r. refl) ∙ old,
      )
      | inserted new e ↦
          let free : exists (pubkey_is pk) rows ≡ false =
            exists-split (pubkey_is pk) (spark_is id) rows
              (upsert_spark-cases env id pk rows rows' h).1
              (exists-none (λ r. pubkey_is pk r && spark_is id r) (spark_is id) rows
                (λ r k. ground arith) new) in
          rw e ((new, s), (free, u), (a, o), λ x k. ground arith, ground (arith, eq_refl id))
    ]

pub upsert_identifier-keeps :
    (env : Env) (id : Text) (new : NewAccountIdentifier) (accounts : List AccountRow)
    (rows rows' : List IdentifierRow)
    → upsert_identifier env id new rows ≡ ok rows'
    → UniqueNames rows
    → NamesOwned accounts rows
    → exists (account_is id) accounts ≡ true
    → UniqueNames rows' × NamesOwned accounts rows'
unfolding upsert_identifier
upsert_identifier-keeps env id new accounts rows rows' h u o a =
    let mine = λ (r : IdentifierRow). named new.domain new.identifier r && r.account_id == id in
    elim (Bool-cases (exists mine rows)) [
      | inl old ↦
          let e : rows'
              ≡ update mine
                  (λ r. record r {
                    identifier_kind = new.identifier_kind;
                    description = new.description;
                    updated_at = env.now;
                  })
                  rows =
            ground arith in
          rw e (
            Distinct-update _ mine _ rows (λ r x. refl) (λ r x. refl) u,
            Every-update _ mine _ rows (λ r hit p. p) o,
          )
      | inr fresh ↦
          let e : rows'
              ≡ record {
                account_id = id;
                domain = new.domain;
                identifier = new.identifier;
                identifier_kind = new.identifier_kind;
                description = new.description;
                created_at = env.now;
                updated_at = env.now;
              }
                ∷ rows =
            ground arith in
          rw e (
            (
              exists-split (named new.domain new.identifier) (λ r. r.account_id == id) rows
                  (ground arith) fresh,
              u,
            ),
            (a, o),
          )
    ]

-- More Spark rows back no fewer accounts.
pub Backed-mono :
    (sparks sparks' : List SparkRow) (blinks : List BlinkRow) (accounts : List AccountRow)
    → ((x : Text) → exists (spark_is x) sparks ≡ true → exists (spark_is x) sparks' ≡ true)
    → AccountsBacked sparks blinks accounts
    → AccountsBacked sparks' blinks accounts
Backed-mono sparks sparks' blinks accounts k h =
    Every-mono _ _ accounts (λ a. more a.provider a.account_id) h
  where
    more : (p : AccountProvider) (x : Text) → Backed sparks blinks p x → Backed sparks' blinks p x
    more spark x b = k x b
    more blink x b = b

pub upsert_account-Backed :
    (now : ℕ) (id : Text) (sparks : List SparkRow) (blinks : List BlinkRow)
    (accounts : List AccountRow)
    → exists (spark_is id) sparks ≡ true
    → AccountsBacked sparks blinks accounts
    → AccountsBacked sparks blinks (upsert_account now id spark accounts)
unfolding upsert_account
upsert_account-Backed now id sparks blinks accounts x h =
    elim (Bool-cases (exists (account_is id) accounts)) [
      | inl old ↦ rw old (
          Every-update _ (account_is id) _ accounts
            (λ r hit p. subst (λ i. exists (spark_is i) sparks ≡ true) (sym ((eq_iff _ _).0 hit)) x)
            h)
      | inr new ↦ rw new (x, h)
    ]
