-- ===== src/Sqlite/Integrity/Rows.antt =====
-- Integrity and the upsert of an account (src/sqlite/repository.rs).
use mathlib.Core.Path.{subst}
use blink_lnurl_server.Prelude.{
  ℕ, ◌≡◌, refl, ◌∙◌, Bool, true, false, not, ◌&&◌, List, [], ◌∷◌, arith, Text, eq_iff, eq_refl,
  Bool-cases, inl, inr,
}
use blink_lnurl_server.Repository.{AccountProvider, spark, blink, provider_eq}
use blink_lnurl_server.Sqlite.Query.{find, exists, update}
use blink_lnurl_server.Sqlite.Query.Laws.{exists-update}
use blink_lnurl_server.Sqlite.Query.Keys.{Every, Distinct-update}
use blink_lnurl_server.Sqlite.Tables.{AccountRow, account_is}
use blink_lnurl_server.Sqlite.Registration.{upsert_account, has_other_provider}
use blink_lnurl_server.Sqlite.Transfer.{has_account}
use blink_lnurl_server.Sqlite.Integrity.{UniqueAccounts}

-- The update of a test that the touched rows keep.
pub exists-update_grows :
    {A : Type 0} (P : A → Type 0) (p q : A → Bool) (f : A → A) (rows : List A)
    → ((r : A) → P r → q r ≡ true → p r ≡ true → p (f r) ≡ true)
    → Every P rows
    → exists p rows ≡ true
    → exists p (update q f rows) ≡ true
unfolding exists update
exists-update_grows P p q f [] k h x = cc
exists-update_grows P p q f (r ∷ rows) k h x =
    ground (arith, k r h.0, exists-update_grows P p q f rows k h.1)

pub exists-split :
    {A : Type 0} (p q : A → Bool) (rows : List A)
    → exists (λ r. p r && not (q r)) rows ≡ false
    → exists (λ r. p r && q r) rows ≡ false
    → exists p rows ≡ false
unfolding exists
exists-split p q [] h k = refl
exists-split p q (r ∷ rows) h k = ground (arith, exists-split p q rows)

-- An account id that is not in the table is on no row.
absent-Every :
    (id : Text) (P : AccountRow → Type 0) (rows : List AccountRow)
    → exists (account_is id) rows ≡ false
    → Every (λ r. account_is id r ≡ true → P r) rows
unfolding exists
absent-Every id P [] h = tt
absent-Every id P (r ∷ rows) h = (λ x. absurd (ground arith), absent-Every id P rows (ground arith))

-- Where the first account of an id has no other provider, under the key none has.
pub provider-Every :
    (p : AccountProvider) (id : Text) (rows : List AccountRow)
    → UniqueAccounts rows
    → has_other_provider p (find (account_is id) rows) ≡ false
    → Every (λ r. account_is id r ≡ true → provider_eq r.provider p ≡ true) rows
unfolding find
provider-Every p id [] u h = tt
provider-Every p id (r ∷ rows) u h = elim (Bool-cases (account_is id r)) [
  | inl here ↦
      let e : r.account_id ≡ id = (eq_iff _ _).0 here in
      (
        λ _. ground (arith),
        absent-Every id (λ x. provider_eq x.provider p ≡ true) rows
            (subst (λ i. exists (account_is i) rows ≡ false) e u.0),
      )
  | inr other ↦ (λ x. absurd (cc (x, other)), provider-Every p id rows u.1 (ground arith))
]

-- Making or updating the Spark account of an id.
module _ (now : ℕ) (id : Text) (rows : List AccountRow) where
  pub upsert_account-Unique :
      UniqueAccounts rows → UniqueAccounts (upsert_account now id spark rows)
  unfolding upsert_account
  upsert_account-Unique u = elim (Bool-cases (exists (account_is id) rows)) [
    | inl old ↦ rw old (Distinct-update _ (account_is id) _ rows (λ r x. refl) (λ r x. refl) u)
    | inr new ↦ rw new (new, u)
  ]

  pub upsert_account-grows :
      (x : Text)
      → exists (account_is x) rows ≡ true
      → exists (account_is x) (upsert_account now id spark rows) ≡ true
  unfolding upsert_account exists
  upsert_account-grows x h = elim (Bool-cases (exists (account_is id) rows)) [
    | inl old ↦ rw old (exists-update (account_is x) (account_is id) _ rows (λ r. refl) ∙ h)
    | inr new ↦ rw new (ground arith)
  ]

  pub upsert_account-has :
      (p : AccountProvider) (x : Text)
      → Every (λ r. account_is id r ≡ true → provider_eq r.provider spark ≡ true) rows
      → exists (has_account p x) rows ≡ true
      → exists (has_account p x) (upsert_account now id spark rows) ≡ true
  unfolding upsert_account exists
  upsert_account-has p x e h = elim (Bool-cases (exists (account_is id) rows)) [
    | inl old ↦ rw old (
        exists-update_grows (λ r. account_is id r ≡ true → provider_eq r.provider spark ≡ true)
          (has_account p x) (account_is id) _ rows
          (λ r k hit z. keeps p r.provider (k hit) (ground arith) (ground arith)) e h)
    | inr new ↦ rw new (ground arith)
  ]
    where
      keeps :
          {b : Bool} (p q : AccountProvider)
          → provider_eq q spark ≡ true
          → provider_eq q p ≡ true
          → b ≡ true
          → (b && provider_eq spark p) ≡ true
      keeps spark q s t z = ground arith
      keeps blink spark s t z = cc
      keeps blink blink s t z = cc

  pub upsert_account-made : exists (has_account spark id) (upsert_account now id spark rows) ≡ true
  unfolding upsert_account exists update
  upsert_account-made = elim (Bool-cases (exists (account_is id) rows)) [
    | inl old ↦ rw old (made rows old)
    | inr new ↦ rw new (ground (arith, eq_refl id))
  ]
    where
      made :
          (l : List AccountRow)
          → exists (account_is id) l ≡ true
          → exists
              (has_account spark id)
              (update (account_is id) (λ r. record r { provider = spark; updated_at = now }) l)
            ≡ true
      made [] h = cc
      made (r ∷ l) h = ground (arith, made l)
