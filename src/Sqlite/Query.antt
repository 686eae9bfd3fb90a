-- ===== src/Sqlite/Query.antt =====
-- The SQL of src/sqlite/repository.rs over a table, which is a list of rows.
pub mod Laws
pub mod Keys
use blink_lnurl_server.Prelude.{
  ℕ, ◌+◌, Bool, true, false, ◌||◌, Option, none, some, List, [], ◌∷◌, if◌then◌else◌,
}

module _ {A : Type 0} where
  -- SELECT … WHERE, read by `fetch_optional`.
  unfoldable pub find : (A → Bool) → List A → Option A
  find p [] = none
  find p (r ∷ rows) = if p r then some r else find p rows

  -- SELECT EXISTS, or COUNT(*) > 0.
  unfoldable pub exists : (A → Bool) → List A → Bool
  exists p [] = false
  exists p (r ∷ rows) = p r || exists p rows

  unfoldable pub count : (A → Bool) → List A → ℕ
  count p [] = 0
  count p (r ∷ rows) = let n = count p rows in if p r then n + 1 else n

  -- DELETE … WHERE.
  unfoldable pub delete : (A → Bool) → List A → List A
  delete p [] = []
  delete p (r ∷ rows) = let rest = delete p rows in if p r then rest else r ∷ rest

  -- UPDATE … SET … WHERE.
  unfoldable pub update : (A → Bool) → (A → A) → List A → List A
  update p f [] = []
  update p f (r ∷ rows) = (if p r then f r else r) ∷ update p f rows
