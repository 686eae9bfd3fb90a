-- ===== src/Payments/Laws.antt =====
-- Laws of the upsert.
use blink_lnurl_server.Prelude.{
  ◌≡◌, refl, ◌∙◌, Bool-cases, inl, inr, Bool, true, false, Option, none, some, List, [], ◌∷◌, arith,
}
use blink_lnurl_server.Sqlite.Query.{find, exists, update}
use blink_lnurl_server.Sqlite.Query.Laws.{find-update, exists-of_found}
use blink_lnurl_server.Sqlite.Query.Keys.{Every, Every-update}
use blink_lnurl_server.Payments.{upsert, coalesce}

pub coalesce_self {ℓ} : {A : Type ℓ} (a : Option A) → coalesce a a ≡ a
coalesce_self none = refl
coalesce_self (some a) = refl

module _ {A : Type 0} where
  pub exists-update_mono :
      (p q : A → Bool) (f : A → A) (rows : List A)
      → ((r : A) → q r ≡ true → p r ≡ true → p (f r) ≡ true)
      → exists p rows ≡ true
      → exists p (update q f rows) ≡ true
  unfolding exists update
  exists-update_mono p q f [] k h = cc
  exists-update_mono p q f (r ∷ rows) k h = ground (arith, k r, exists-update_mono p q f rows k)

  pub Every-upsert :
      (P : A → Type 0) (q : A → Bool) (f : A → A) (new : A) (rows : List A)
      → ((r : A) → q r ≡ true → P r → P (f r))
      → P new
      → Every P rows
      → Every P (upsert q f new rows)
  unfolding upsert
  Every-upsert P q f new rows k n h = elim (Bool-cases (exists q rows)) [
    | inl there ↦ rw there (Every-update P q f rows k h)
    | inr fresh ↦ rw fresh (n, h)
  ]

  pub exists-upsert_mono :
      (p q : A → Bool) (f : A → A) (new : A) (rows : List A)
      → ((r : A) → q r ≡ true → p r ≡ true → p (f r) ≡ true)
      → exists p rows ≡ true
      → exists p (upsert q f new rows) ≡ true
  unfolding upsert exists
  exists-upsert_mono p q f new rows k h = elim (Bool-cases (exists q rows)) [
    | inl there ↦ rw there (exists-update_mono p q f rows k h)
    | inr fresh ↦ ground (arith, h)
  ]

  exists-update_hit :
      (p q : A → Bool) (f : A → A) (rows : List A)
      → ((r : A) → q r ≡ true → p (f r) ≡ true)
      → exists q rows ≡ true
      → exists p (update q f rows) ≡ true
  unfolding exists update
  exists-update_hit p q f [] k h = cc
  exists-update_hit p q f (r ∷ rows) k h = ground (arith, k r, exists-update_hit p q f rows k)

  -- What holds of the row that an upsert leaves.
  pub exists-upsert_hit :
      (p q : A → Bool) (f : A → A) (new : A) (rows : List A)
      → ((r : A) → q r ≡ true → p (f r) ≡ true)
      → p new ≡ true
      → exists p (upsert q f new rows) ≡ true
  unfolding upsert exists
  exists-upsert_hit p q f new rows k n = elim (Bool-cases (exists q rows)) [
    | inl there ↦ rw there (exists-update_hit p q f rows k there)
    | inr fresh ↦ rw fresh (rw n refl)
  ]

  -- The row of the key after the upsert.
  pub find-upsert :
      (q : A → Bool) (f : A → A) (new : A) (rows : List A) (r : A)
      → ((x : A) → q (f x) ≡ q x)
      → find q rows ≡ some r
      → q r ≡ true
      → find q (upsert q f new rows) ≡ some (f r)
  unfolding upsert
  find-upsert q f new rows r k h m =
      rw (exists-of_found q rows r h) (find-update q q f rows k ∙ rw h (rw m refl))

  pub find-update_other :
      (p q : A → Bool) (f : A → A) (rows : List A)
      → ((x : A) → p (f x) ≡ p x)
      → ((x : A) → p x ≡ true → q x ≡ false)
      → find p (update q f rows) ≡ find p rows
  unfolding find update
  find-update_other p q f [] k apart = refl
  find-update_other p q f (x ∷ rows) k apart =
      ground (arith, k x, apart x, find-update_other p q f rows k apart)

  -- A row of another key.
  pub find-upsert_other :
      (p q : A → Bool) (f : A → A) (new : A) (rows : List A)
      → ((x : A) → p (f x) ≡ p x)
      → ((x : A) → p x ≡ true → q x ≡ false)
      → p new ≡ false
      → find p (upsert q f new rows) ≡ find p rows
  unfolding upsert find
  find-upsert_other p q f new rows k apart n = elim (Bool-cases (exists q rows)) [
    | inl there ↦ rw there (find-update_other p q f rows k apart)
    | inr fresh ↦ rw fresh (rw n refl)
  ]
