-- ===== src/Sqlite/Query/Keys.antt =====
-- Predicates on every row of a table, and keys that no two rows share.
use blink_lnurl_server.Prelude.{
  ◌≡◌, refl, ap, ◌∙◌, Bool, true, false, List, [], ◌∷◌, arith, Bool-cases, inl, inr,
}
use mathlib.Core.Path.{fun_ext}
use blink_lnurl_server.Prelude.{Text, ◌==◌, eq_iff, eq_refl, some}
use blink_lnurl_server.Sqlite.Query.{find, exists, delete, update}
use blink_lnurl_server.Sqlite.Query.Laws.{found-exists, exists-delete_none, exists-update}

module _ {A : Type 0} where
  abbrev pub Every : (A → Type 0) → List A → Type 0
  Every P [] = Unit {0}
  Every P (r ∷ rows) = P r × Every P rows

  pub Every-mono :
      (P Q : A → Type 0) (rows : List A) → ((r : A) → P r → Q r) → Every P rows → Every Q rows
  Every-mono P Q [] k h = tt
  Every-mono P Q (r ∷ rows) k h = (k r h.0, Every-mono P Q rows k h.1)

  pub Every-delete :
      (P : A → Type 0) (q : A → Bool) (rows : List A) → Every P rows → Every P (delete q rows)
  unfolding delete
  Every-delete P q [] h = tt
  Every-delete P q (r ∷ rows) h = elim (Bool-cases (q r)) [
    | inl gone ↦ rw gone (Every-delete P q rows h.1)
    | inr kept ↦ rw kept (h.0, Every-delete P q rows h.1)
  ]

  -- The rows that an UPDATE touches satisfy `P` after it, and the others as before.
  pub Every-update :
      (P : A → Type 0) (q : A → Bool) (f : A → A) (rows : List A)
      → ((r : A) → q r ≡ true → P r → P (f r))
      → Every P rows
      → Every P (update q f rows)
  unfolding update
  Every-update P q f [] k h = tt
  Every-update P q f (r ∷ rows) k h = elim (Bool-cases (q r)) [
    | inl hit ↦ rw hit (k r hit h.0, Every-update P q f rows k h.1)
    | inr miss ↦ rw miss (h.0, Every-update P q f rows k h.1)
  ]

  -- A row that a test finds satisfies `P`.
  pub Every-exists :
      (P : A → Type 0) (p : A → Bool) (rows : List A)
      → Every P rows
      → exists p rows ≡ true
      → (r : A) × (p r ≡ true) × P r
  unfolding exists
  Every-exists P p [] h x = absurd (cc x)
  Every-exists P p (r ∷ rows) h x = elim (Bool-cases (p r)) [
    | inl hit ↦ (r, hit, h.0)
    | inr miss ↦ Every-exists P p rows h.1 (ground arith)
  ]

  pub exists_mono :
      (p q : A → Bool) (rows : List A)
      → ((r : A) → p r ≡ true → q r ≡ true)
      → exists p rows ≡ true
      → exists q rows ≡ true
  unfolding exists
  exists_mono p q [] k x = cc
  exists_mono p q (r ∷ rows) k x = ground (arith, k r, exists_mono p q rows k)

  pub exists-none :
      (p q : A → Bool) (rows : List A)
      → ((r : A) → p r ≡ true → q r ≡ true)
      → exists q rows ≡ false
      → exists p rows ≡ false
  unfolding exists
  exists-none p q [] k x = refl
  exists-none p q (r ∷ rows) k x = ground (arith, k r, exists-none p q rows k)

  -- `same r` holds of the rows with the key of `r`.
  abbrev pub Distinct : (A → A → Bool) → List A → Type 0
  Distinct same [] = Unit {0}
  Distinct same (r ∷ rows) = (exists (same r) rows ≡ false) × Distinct same rows

  pub Distinct-delete :
      (same : A → A → Bool) (q : A → Bool) (rows : List A)
      → Distinct same rows
      → Distinct same (delete q rows)
  unfolding delete
  Distinct-delete same q [] h = tt
  Distinct-delete same q (r ∷ rows) h = elim (Bool-cases (q r)) [
    | inl gone ↦ rw gone (Distinct-delete same q rows h.1)
    | inr kept ↦ rw kept (exists-delete_none (same r) q rows h.0, Distinct-delete same q rows h.1)
  ]

  -- An UPDATE that leaves the key alone.
  pub Distinct-update :
      (same : A → A → Bool) (q : A → Bool) (f : A → A) (rows : List A)
      → ((r x : A) → same (f r) x ≡ same r x)
      → ((r x : A) → same r (f x) ≡ same r x)
      → Distinct same rows
      → Distinct same (update q f rows)
  unfolding update
  Distinct-update same q f [] k l h = tt
  Distinct-update same q f (r ∷ rows) k l h = elim (Bool-cases (q r)) [
    | inl hit ↦ rw hit (
      exists-update (same (f r)) q f rows (l (f r)) ∙ ap (λ p. exists p rows) (fun_ext (k r)) ∙ h.0,
      Distinct-update same q f rows k l h.1,
    )
    | inr miss ↦
        rw miss (exists-update (same r) q f rows (l r) ∙ h.0, Distinct-update same q f rows k l h.1)
  ]

  -- Under a unique key the first row of a key is the row that has it.
  pub one-row :
      (key : A → Text) (p : A → Bool) (k : Text) (rows : List A) (r : A)
      → Distinct (λ x y. key y == key x) rows
      → find p rows ≡ some r
      → key r ≡ k
      → find (λ x. key x == k) rows ≡ some r
  unfolding find
  one-row key p k [] r u f e = cc
  one-row key p k (x ∷ rows) r u f e = elim (Bool-cases (p x)) [
    | inl hit ↦
        let same : x ≡ r = ground arith in
        let here : (key x == k) ≡ true = rw same (rw e (eq_refl k)) in rw here (ap some same)
    | inr miss ↦
        let later : find p rows ≡ some r = ground arith in
        elim (Bool-cases (key x == k)) [
          | inl clash ↦
              let there : exists (λ y. key y == k) rows ≡ true =
                found-exists p (λ y. key y == k) rows r later (rw e (eq_refl k)) in
              let c : key x ≡ k = (eq_iff _ _).0 clash in absurd (cc (there, rw c at u.0))
          | inr apart ↦ rw apart (one-row key p k rows r u.1 later e)
        ]
  ]
