-- ===== src/Sqlite/Recipient/Resolution.antt =====
-- Looking an identifier up in tables with integrity (`resolve_recipient_by_identifier`).
use mathlib.Core.Path.{subst}
use blink_lnurl_server.Prelude.{
  ◌≡◌, refl, ◌∙◌, Bool, true, false, Option, none, some, List, [], ◌∷◌, arith, Text, eq_iff,
  Bool-cases, Option-cases, inl, inr, ok, is_some,
}
use blink_lnurl_server.Repository.{AccountProvider, spark, blink, provider_eq, ResolvedRecipient}
use blink_lnurl_server.Sqlite.Query.{find, exists}
use blink_lnurl_server.Sqlite.Query.Laws.{exists-eq-find, find-holds}
use blink_lnurl_server.Sqlite.Query.Keys.{Every, Every-exists}
use blink_lnurl_server.Sqlite.Tables.{
  AccountRow, IdentifierRow, SparkRow, BlinkRow, Db, account_is, spark_is, blink_is, named,
}
use blink_lnurl_server.Sqlite.Registration.{has_other_provider}
use blink_lnurl_server.Sqlite.Transfer.{has_account}
use blink_lnurl_server.Sqlite.Integrity.{Integrity, UniqueAccounts, Backed}
use blink_lnurl_server.Sqlite.Integrity.Rows.{provider-Every}
use blink_lnurl_server.Sqlite.Recipient.{
  pubkey_col, blink_id_col, btc_col, usd_col, wallet_col, is_consistent, map_resolved_recipient,
  join_recipient, resolve_recipient_by_identifier,
}

module _ {A : Type 0} where
  pub Every-find :
      (P : A → Type 0) (p : A → Bool) (rows : List A) (r : A)
      → Every P rows
      → find p rows ≡ some r
      → P r
  unfolding find
  Every-find P p [] r h x = absurd (cc x)
  Every-find P p (y ∷ rows) r h x = elim (Bool-cases (p y)) [
    | inl hit ↦ subst P (ground arith) h.0
    | inr miss ↦ Every-find P p rows r h.1 (ground arith)
  ]

  pub find-of_exists :
      (p : A → Bool) (rows : List A) → exists p rows ≡ true → (r : A) × (find p rows ≡ some r)
  find-of_exists p rows h = elim (Option-cases (find p rows)) [
    | inl n ↦ absurd (cc (h, exists-eq-find p rows, n))
    | inr (r, e) ↦ (r, e)
  ]

provider_eq_trans :
    (p q r : AccountProvider)
    → provider_eq p q ≡ true
    → provider_eq p r ≡ true
    → provider_eq q r ≡ true
provider_eq_trans spark spark r h k = k
provider_eq_trans spark blink r h k = cc
provider_eq_trans blink spark r h k = cc
provider_eq_trans blink blink r h k = k

provider_eq_refl : (p : AccountProvider) → provider_eq p p ≡ true
provider_eq_refl spark = refl
provider_eq_refl blink = refl

-- The first account of an id has the provider that any account of the id has.
provider-found :
    (p : AccountProvider) (id : Text) (rows : List AccountRow) (a : AccountRow)
    → UniqueAccounts rows
    → find (account_is id) rows ≡ some a
    → exists (has_account p id) rows ≡ true
    → provider_eq a.provider p ≡ true
provider-found p id rows a u f h =
    let same : has_other_provider a.provider (find (account_is id) rows) ≡ false =
      rw f (rw (provider_eq_refl a.provider)) in
    let (r, hit, k) =
      Every-exists _ (has_account p id) rows (provider-Every a.provider id rows u same) h in
    provider_eq_trans r.provider a.provider p (k (ground arith)) (ground arith)

-- No row of the other provider.
spark-absent :
    (id : Text) (db : Db) (a : AccountRow)
    → Integrity db
    → find (account_is id) db.accounts ≡ some a
    → provider_eq a.provider spark ≡ false
    → exists (spark_is id) db.spark_accounts ≡ false
spark-absent id db a v f n = elim (Bool-cases (exists (spark_is id) db.spark_accounts)) [
  | inl there ↦
      let (r, hit, k) = Every-exists _ (spark_is id) db.spark_accounts v.sparks_owned there in
      let e : r.account_id ≡ id = (eq_iff _ _).0 hit in
      absurd (
        cc (
          n,
          provider-found spark id db.accounts a v.accounts f
              (subst (λ i. exists (has_account spark i) db.accounts ≡ true) e k),
        ))
  | inr gone ↦ gone
]

pub blink-absent :
    (id : Text) (db : Db) (a : AccountRow)
    → Integrity db
    → find (account_is id) db.accounts ≡ some a
    → provider_eq a.provider blink ≡ false
    → exists (blink_is id) db.blink_accounts ≡ false
blink-absent id db a v f n = elim (Bool-cases (exists (blink_is id) db.blink_accounts)) [
  | inl there ↦
      let (r, hit, k) = Every-exists _ (blink_is id) db.blink_accounts v.blinks_owned there in
      let e : r.account_id ≡ id = (eq_iff _ _).0 hit in
      absurd (
        cc (
          n,
          provider-found blink id db.accounts a v.accounts f
              (subst (λ i. exists (has_account blink i) db.accounts ≡ true) e k),
        ))
  | inr gone ↦ gone
]

consistent :
    (p : AccountProvider) (id : Text) (db : Db)
    → Backed db.spark_accounts db.blink_accounts p id
    → (provider_eq p spark ≡ false → exists (spark_is id) db.spark_accounts ≡ false)
    → (provider_eq p blink ≡ false → exists (blink_is id) db.blink_accounts ≡ false)
    → is_consistent p (find (spark_is id) db.spark_accounts) (find (blink_is id) db.blink_accounts)
      ≡ true
unfolding is_consistent
consistent spark id db b s k = ground (
  arith,
  k refl,
  exists-eq-find (spark_is id) db.spark_accounts,
  exists-eq-find (blink_is id) db.blink_accounts,
)
consistent blink id db b s k = ground (
  arith,
  s refl,
  exists-eq-find (spark_is id) db.spark_accounts,
  exists-eq-find (blink_is id) db.blink_accounts,
)

-- The columns that the provider of a recipient has, and no others.
abbrev pub HasColumns : AccountProvider → ResolvedRecipient → Type 0
HasColumns spark r = (is_some r.spark_pubkey ≡ true) × (is_some r.blink_account_id ≡ false)
HasColumns blink r = (is_some r.spark_pubkey ≡ false) × (is_some r.blink_account_id ≡ true)

map_resolved_recipient-ok :
    (i : IdentifierRow) (a : AccountRow) (s : Option SparkRow) (b : Option BlinkRow)
    → is_consistent a.provider s b ≡ true
    → (r : ResolvedRecipient) × (map_resolved_recipient i a s b ≡ ok r)
      × (r.domain ≡ i.domain)
      × (r.identifier ≡ i.identifier)
      × HasColumns r.provider r
unfolding map_resolved_recipient is_consistent
map_resolved_recipient-ok i a s b h = (_, rw h, refl, refl, columns a.provider s b h)
  where
    columns :
        (p : AccountProvider) (x : Option SparkRow) (y : Option BlinkRow)
        → is_consistent p x y ≡ true
        → HasColumns p (record {
          account_id = a.account_id;
          provider = p;
          domain = i.domain;
          identifier = i.identifier;
          identifier_kind = i.identifier_kind;
          description = i.description;
          spark_pubkey = pubkey_col x;
          blink_account_id = blink_id_col y;
          btc_wallet_id = btc_col y;
          usd_wallet_id = usd_col y;
          default_wallet = wallet_col y;
        })
    columns spark none y k = cc
    columns spark (some x) none k = (refl, refl)
    columns spark (some x) (some y) k = cc
    columns blink none none k = cc
    columns blink none (some y) k = (refl, refl)
    columns blink (some x) y k = cc

pub resolve-joined :
    (domain identifier : Text) (db : Db) (i : IdentifierRow) (a : AccountRow)
    (r : ResolvedRecipient)
    → find (named domain identifier) db.account_identifiers ≡ some i
    → find (account_is i.account_id) db.accounts ≡ some a
    → map_resolved_recipient i a
        (find (spark_is a.account_id) db.spark_accounts)
        (find (blink_is a.account_id) db.blink_accounts)
      ≡ ok r
    → resolve_recipient_by_identifier domain identifier db ≡ ok (some r)
unfolding resolve_recipient_by_identifier join_recipient
resolve-joined d n db i a r f g e = rw f (rw (g, join_recipient) (rw e refl))

resolve-unknown :
    (domain identifier : Text) (db : Db)
    → find (named domain identifier) db.account_identifiers ≡ none
    → resolve_recipient_by_identifier domain identifier db ≡ ok none
unfolding resolve_recipient_by_identifier join_recipient
resolve-unknown d n db f = rw f refl

-- In tables with integrity a look-up never fails: a name that is registered resolves to a recipient
-- of that domain and identifier who has the columns of his provider and not those of the other one,
-- and a name that is not resolves to no recipient.
pub resolve-Integrity :
    (domain identifier : Text) (db : Db)
    → Integrity db
    → (exists (named domain identifier) db.account_identifiers ≡ true
        → (r : ResolvedRecipient) × (resolve_recipient_by_identifier domain identifier db
            ≡ ok (some r))
          × (r.domain ≡ domain)
          × (r.identifier ≡ identifier)
          × HasColumns r.provider r)
      × (exists (named domain identifier) db.account_identifiers ≡ false
          → resolve_recipient_by_identifier domain identifier db ≡ ok none)
resolve-Integrity d n db v = (
  λ there.
      let (i, f) = find-of_exists (named d n) db.account_identifiers there in
      let (a, g) =
        find-of_exists (account_is i.account_id) db.accounts
          (Every-find _ (named d n) db.account_identifiers i v.names_owned f) in
      let same : a.account_id ≡ i.account_id = (eq_iff _ _).0 (find-holds _ db.accounts a g) in
      let g2 : find (account_is a.account_id) db.accounts ≡ some a = rw same g in
      let here = find-holds (named d n) db.account_identifiers i f in
      let (r, e, p, q, c) =
        map_resolved_recipient-ok i a (find (spark_is a.account_id) db.spark_accounts)
          (find (blink_is a.account_id) db.blink_accounts)
          (consistent a.provider a.account_id db (Every-find _ _ db.accounts a v.backed g)
            (spark-absent a.account_id db a v g2) (blink-absent a.account_id db a v g2)) in
      (
        r,
        resolve-joined d n db i a r f g e,
        p ∙ (eq_iff _ _).0 (ground arith),
        q ∙ (eq_iff _ _).0 (ground arith),
        c,
      ),
  λ gone. elim (Option-cases (find (named d n) db.account_identifiers)) [
    | inl unknown ↦ resolve-unknown d n db unknown
    | inr (i, f) ↦ absurd (cc (gone, f, exists-eq-find (named d n) db.account_identifiers))
  ],
)
