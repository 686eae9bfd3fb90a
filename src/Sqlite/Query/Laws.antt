-- ===== src/Sqlite/Query/Laws.antt =====
-- Laws of the queries.
use blink_lnurl_server.Prelude.{
  ◌≡◌, refl, ◌∙◌, ◌&&◌, Bool-cases, inl, inr, Bool, true, false, Option, none, some, List, [], ◌∷◌,
  arith, if◌then◌else◌, is_some,
}
use blink_lnurl_server.Sqlite.Query.{find, exists, count, delete, update}

module _ {A : Type 0} where
  -- The row as an UPDATE leaves it.
  abbrev pub changed : (A → Bool) → (A → A) → Option A → Option A
  changed q f none = none
  changed q f (some r) = some (if q r then f r else r)

  pub find-holds : (p : A → Bool) (rows : List A) (r : A) → find p rows ≡ some r → p r ≡ true
  unfolding find
  find-holds p [] r h = cc
  find-holds p (x ∷ rows) r h = ground (arith, find-holds p rows r)

  pub exists-eq-find : (p : A → Bool) (rows : List A) → exists p rows ≡ is_some (find p rows)
  unfolding find exists
  exists-eq-find p [] = refl
  exists-eq-find p (x ∷ rows) = ground (arith, exists-eq-find p rows)

  pub find-update :
      (p q : A → Bool) (f : A → A) (rows : List A)
      → ((r : A) → p (f r) ≡ p r)
      → find p (update q f rows) ≡ changed q f (find p rows)
  unfolding find update
  find-update p q f [] k = refl
  find-update p q f (x ∷ rows) k = ground (arith, k x, find-update p q f rows k)

  pub exists-update :
      (p q : A → Bool) (f : A → A) (rows : List A)
      → ((r : A) → p (f r) ≡ p r)
      → exists p (update q f rows) ≡ exists p rows
  unfolding exists update
  exists-update p q f [] k = refl
  exists-update p q f (x ∷ rows) k = ground (arith, k x, exists-update p q f rows k)

  pub find-delete_keep :
      (p q : A → Bool) (rows : List A)
      → ((r : A) → p r ≡ true → q r ≡ false)
      → find p (delete q rows) ≡ find p rows
  unfolding find delete
  find-delete_keep p q [] k = refl
  find-delete_keep p q (x ∷ rows) k = ground (arith, k x, find-delete_keep p q rows k)

  pub exists-delete_keep :
      (p q : A → Bool) (rows : List A)
      → ((r : A) → p r ≡ true → q r ≡ false)
      → exists p (delete q rows) ≡ exists p rows
  unfolding exists delete
  exists-delete_keep p q [] k = refl
  exists-delete_keep p q (x ∷ rows) k = ground (arith, k x, exists-delete_keep p q rows k)

  pub exists-delete_none :
      (p q : A → Bool) (rows : List A) → exists p rows ≡ false → exists p (delete q rows) ≡ false
  unfolding exists delete
  exists-delete_none p q [] h = refl
  exists-delete_none p q (x ∷ rows) h = ground (arith, exists-delete_none p q rows)

  pub exists-delete_self :
      (p q : A → Bool) (rows : List A)
      → ((r : A) → p r ≡ true → q r ≡ true)
      → exists p (delete q rows) ≡ false
  unfolding exists delete
  exists-delete_self p q [] k = refl
  exists-delete_self p q (x ∷ rows) k = ground (arith, k x, exists-delete_self p q rows k)

  pub count-eq-zero : (p : A → Bool) (rows : List A) → exists p rows ≡ false → count p rows ≡ 0
  unfolding exists count
  count-eq-zero p [] h = refl
  count-eq-zero p (x ∷ rows) h = ground (arith, count-eq-zero p rows)

  pub exists-of-count_zero :
      (p : A → Bool) (rows : List A) → count p rows ≡ 0 → exists p rows ≡ false
  unfolding exists count
  exists-of-count_zero p [] h = refl
  exists-of-count_zero p (x ∷ rows) h = ground (arith, exists-of-count_zero p rows)

  -- What a look-up finds is in the table.
  pub exists-found :
      (p q : A → Bool) (rows : List A) (r : A)
      → find p rows ≡ some r
      → q r ≡ true
      → exists (λ x. p x && q x) rows ≡ true
  unfolding find exists
  exists-found p q [] r h k = cc
  exists-found p q (x ∷ rows) r h k = ground (arith, exists-found p q rows r)

  pub exists-of_found :
      (p : A → Bool) (rows : List A) (r : A) → find p rows ≡ some r → exists p rows ≡ true
  unfolding find exists
  exists-of_found p [] r h = cc
  exists-of_found p (x ∷ rows) r h = ground (arith, exists-of_found p rows r)

  pub found-exists :
      (p q : A → Bool) (rows : List A) (r : A)
      → find p rows ≡ some r
      → q r ≡ true
      → exists q rows ≡ true
  unfolding find exists
  found-exists p q [] r h k = cc
  found-exists p q (x ∷ rows) r h k = elim (Bool-cases (p x)) [
    | inl hit ↦ let e : x ≡ r = ground arith in let l : q x ≡ true = rw e k in ground arith
    | inr miss ↦ ground (arith, found-exists p q rows r)
  ]

  -- A deletion that spares the first hit, and an update that leaves it alone.
  pub find-delete_first :
      (p q : A → Bool) (rows : List A) (r : A)
      → find p rows ≡ some r
      → q r ≡ false
      → find p (delete q rows) ≡ some r
  unfolding find delete
  find-delete_first p q [] r h k = cc
  find-delete_first p q (x ∷ rows) r h k = ground (arith, find-delete_first p q rows r)

  pub find-update_first :
      (p q : A → Bool) (f : A → A) (rows : List A) (r : A)
      → ((x : A) → p (f x) ≡ p x)
      → find p rows ≡ some r
      → q r ≡ false
      → find p (update q f rows) ≡ some r
  find-update_first p q f rows r k h m = find-update p q f rows k ∙ rw h (rw m refl)
