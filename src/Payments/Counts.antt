-- ===== src/Payments/Counts.antt =====
-- Counting the rows of a queue, and the rows that ORDER BY and LIMIT select.
use blink_lnurl_server.Prelude.{
  ℕ, ◌≤◌, ◌<◌, ◌≡◌, refl, ◌∙◌, Bool, true, false, ◌&&◌, ◌||◌, List, [], ◌∷◌, arith, length, retain,
}
use blink_lnurl_server.Sqlite.Query.{exists, count, update, delete}
use blink_lnurl_server.Payments.{insert_by, sort_by}

module _ {A : Type 0} where
  pub count-le-length : (p : A → Bool) (rows : List A) → count p rows ≤ length rows
  unfolding count
  count-le-length p [] = omega arith
  count-le-length p (r ∷ rows) = ground (arith, count-le-length p rows)

  pub count-delete-le : (p q : A → Bool) (rows : List A) → count p (delete q rows) ≤ count p rows
  unfolding count delete
  count-delete-le p q [] = omega arith
  count-delete-le p q (r ∷ rows) = ground (arith, count-delete-le p q rows)

  -- An UPDATE whose rows then fail the test.
  pub count-update-le :
      (p q : A → Bool) (f : A → A) (rows : List A)
      → ((r : A) → q r ≡ true → p (f r) ≡ false)
      → count p (update q f rows) ≤ count p rows
  unfolding count update
  count-update-le p q f [] k = omega arith
  count-update-le p q f (r ∷ rows) k = ground (arith, k r, count-update-le p q f rows k)

  pub count-update-lt :
      (p q : A → Bool) (f : A → A) (rows : List A)
      → ((r : A) → q r ≡ true → p (f r) ≡ false)
      → exists (λ r. p r && q r) rows ≡ true
      → count p (update q f rows) < count p rows
  unfolding count update exists
  count-update-lt p q f [] k h = absurd (cc h)
  count-update-lt p q f (r ∷ rows) k h =
      ground (arith, k r, count-update-le p q f rows k, count-update-lt p q f rows k)

  pub exists-retain :
      (p q : A → Bool) (rows : List A)
      → exists p (retain q rows) ≡ true
      → exists (λ r. q r && p r) rows ≡ true
  unfolding exists retain
  exists-retain p q [] h = h
  exists-retain p q (r ∷ rows) h = ground (arith, exists-retain p q rows)

  exists-insert_by :
      (p : A → Bool) (key : A → ℕ) (x : A) (ys : List A)
      → exists p (insert_by key x ys) ≡ (p x || exists p ys)
  unfolding exists insert_by
  exists-insert_by p key x [] = refl
  exists-insert_by p key x (y ∷ ys) = ground (arith, exists-insert_by p key x ys)

  -- Sorting keeps the rows.
  pub exists-sort_by :
      (p : A → Bool) (key : A → ℕ) (xs : List A) → exists p (sort_by key xs) ≡ exists p xs
  unfolding exists sort_by
  exists-sort_by p key [] = refl
  exists-sort_by p key (x ∷ xs) =
      exists-insert_by p key x (sort_by key xs) ∙ rw (exists-sort_by p key xs) refl
