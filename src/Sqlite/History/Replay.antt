-- ===== src/Sqlite/History/Replay.antt =====
-- The claims on one statement through the calls of src/sqlite/repository.rs.
use blink_lnurl_server.Prelude.{
  ℕ, ◌≤◌, ◌≡◌, refl, sym, ◌∙◌, inl, inr, Bool, true, false, ◌&&◌, Option, none, some, List, [], ◌∷◌,
  arith, ltb, ◌==◌, eq_iff, Bool-cases,
}
use blink_lnurl_server.Repository.{StatementClaim}
use blink_lnurl_server.Sqlite.Query.{exists, delete}
use blink_lnurl_server.Sqlite.Tables.{ClaimRow, Db}
use blink_lnurl_server.Sqlite.Claims.{hash_is, expired_before, delete_expired_signed_messages}
use blink_lnurl_server.Sqlite.History.{Call, prunes, step}
use blink_lnurl_server.Sqlite.History.Effect.{
  claim_of, carries, succeeded, Effect, same, claims, step-Effect,
}

-- The claim of the statement that a call carries expires at `e` or later, and the pruner does not
-- run after `e`.
abbrev pub ClaimLasts : List ℕ → ℕ → Option StatementClaim → Type 0
ClaimLasts h e none = Unit {0}
ClaimLasts h e (some c) = c.statement_hash ≡ h → e ≤ c.expires_at

abbrev pub Lasts : List ℕ → ℕ → Call → Type 0
Lasts h e (prunes now) = now ≤ e
Lasts h e c = ClaimLasts h e (claim_of c)

-- The rows of the statement in the table expire at `e` or later.
abbrev pub RowsLast : List ℕ → ℕ → List ClaimRow → Type 0
RowsLast h e [] = Unit {0}
RowsLast h e (r ∷ rows) = (r.statement_hash ≡ h → e ≤ r.expires_at) × RowsLast h e rows

delete-RowsLast :
    (h : List ℕ) (e now : ℕ) (rows : List ClaimRow)
    → RowsLast h e rows
    → RowsLast h e (delete (expired_before now) rows)
unfolding delete
delete-RowsLast h e now [] l = tt
delete-RowsLast h e now (r ∷ rows) l = elim (Bool-cases (ltb r.expires_at now)) [
  | inl dead ↦ rw dead (delete-RowsLast h e now rows l.1)
  | inr live ↦ rw live (l.0, delete-RowsLast h e now rows l.1)
]

prune-keeps :
    (h : List ℕ) (e now : ℕ) (rows : List ClaimRow)
    → now ≤ e
    → RowsLast h e rows
    → exists (hash_is h) rows ≡ true
    → exists (hash_is h) (delete (expired_before now) rows) ≡ true
unfolding delete exists
prune-keeps h e now [] n l x = cc
prune-keeps h e now (r ∷ rows) n l x =
    ground (arith, l.0, eq_iff r.statement_hash h, prune-keeps h e now rows n l.1)

Effect-keeps :
    (h : List ℕ) (claim : Option StatementClaim) (passed : Bool) (rows rows' : List ClaimRow)
    → Effect claim passed rows rows'
    → exists (hash_is h) rows ≡ true
    → (exists (hash_is h) rows' ≡ true) × ((carries h claim && passed) ≡ false)
unfolding exists
Effect-keeps h none passed rows rows' (same n u) x = (rw u x, refl)
Effect-keeps h (some c) passed rows rows' (same n u) x = (rw u x, ground arith)
Effect-keeps h claim passed rows rows' (claims c r e new hash expires u) x =
    elim (Bool-cases (c.statement_hash == h)) [
      | inl here ↦ let k : c.statement_hash ≡ h = (eq_iff _ _).0 here in absurd (cc (rw k at new))
      | inr other ↦ (rw (u, exists) (ground arith), rw e (rw other))
    ]

Effect-RowsLast :
    (h : List ℕ) (e : ℕ) (claim : Option StatementClaim) (passed : Bool)
    (rows rows' : List ClaimRow)
    → Effect claim passed rows rows'
    → ClaimLasts h e claim
    → RowsLast h e rows
    → RowsLast h e rows'
Effect-RowsLast h e claim passed rows rows' (same n u) k l = rw u l
Effect-RowsLast h e claim passed rows rows' (claims c r q new hash expires u) k l =
    rw u ((λ same_hash. rw expires ((rw q at k) (sym hash ∙ same_hash))), l)

Effect-claims :
    (h : List ℕ) (claim : Option StatementClaim) (passed : Bool) (rows rows' : List ClaimRow)
    → Effect claim passed rows rows'
    → (carries h claim && passed) ≡ true
    → exists (hash_is h) rows' ≡ true
unfolding exists
Effect-claims h none passed rows rows' (same n u) x = cc
Effect-claims h (some c) passed rows rows' (same n u) x = ground arith
Effect-claims h claim passed rows rows' (claims c r q new hash expires u) x =
    let k : carries h claim ≡ true = ground arith in
    let m : (c.statement_hash == h) ≡ true = rw q at k in rw (u, exists) (rw hash (rw m))

-- One call, a pruning or not.
pub record Kept (h : List ℕ) (e : ℕ) (c : Call) (db : Db) : Type 0 where
  pub rows_last : RowsLast h e (step c db).1.used_signed_messages
  pub kept :
      exists (hash_is h) db.used_signed_messages ≡ true
      → (exists (hash_is h) (step c db).1.used_signed_messages ≡ true)
        × ((carries h (claim_of c) && succeeded (step c db).0) ≡ false)
  pub claimed :
      (carries h (claim_of c) && succeeded (step c db).0) ≡ true
      → exists (hash_is h) (step c db).1.used_signed_messages ≡ true

Effect-Kept :
    (h : List ℕ) (e : ℕ) (c : Call) (db : Db)
    → ClaimLasts h e (claim_of c)
    → RowsLast h e db.used_signed_messages
    → Effect
        (claim_of c)
        (succeeded (step c db).0)
        db.used_signed_messages
        (step c db).1.used_signed_messages
    → Kept h e c db
Effect-Kept h e c db k l f = record {
  rows_last = Effect-RowsLast h e _ _ _ _ f k l;
  kept = Effect-keeps h _ _ _ _ f;
  claimed = Effect-claims h _ _ _ _ f;
}

pub step-Kept :
    (h : List ℕ) (e : ℕ) (c : Call) (db : Db)
    → Lasts h e c
    → RowsLast h e db.used_signed_messages
    → Kept h e c db
step-Kept h e (prunes now) db k l =
    unfold step delete_expired_signed_messages in
    record {
      rows_last = delete-RowsLast h e now db.used_signed_messages l;
      kept = λ x. (prune-keeps h e now db.used_signed_messages k l x, refl);
      claimed = λ x. cc;
    }
step-Kept h e c db k l = Effect-Kept h e c db k l (step-Effect c db (λ now q. cc))
