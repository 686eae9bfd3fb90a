-- ===== src/Signed/Once.antt =====
-- Signed requests and the pruner over time (src/routes/signed.rs).
use blink_lnurl_server.Prelude.{
  ℕ, ◌+◌, ◌≤◌, ◌<◌, ◌≡◌, refl, Bool, true, false, not, ◌&&◌, ◌||◌, Option, none, some, List, [],
  ◌∷◌, arith, leb, if◌then◌else◌, eq_iff, Result, ok, err, Bool-cases, inl, inr,
}
use blink_lnurl_server.Repository.{StatementClaim, LnurlRepositoryError}
use blink_lnurl_server.Sqlite.Query.{exists}
use blink_lnurl_server.Sqlite.Tables.{Db}
use blink_lnurl_server.Sqlite.Claims.{hash_is}
use blink_lnurl_server.Sqlite.History.{Call, prunes, step}
use blink_lnurl_server.Sqlite.History.Effect.{claim_of, carries, succeeded}
use blink_lnurl_server.Sqlite.History.Replay.{Lasts, RowsLast, Kept, step-Kept, ClaimLasts}
use blink_lnurl_server.Signed.{
  SignedError, Event, requests, ticks, answered, check_timestamp, claim_expires_at, serve, i64_max,
  prune_tick,
}
use blink_lnurl_server.Signed.Window.{pruned-refused}

abbrev pub concerns : List ℕ → Event → Bool
concerns h (requests now timestamp call) = carries h (claim_of call)
concerns h (ticks now) = false

-- How many events act on the statement with hash `h`.
unfoldable pub acted_on : List ℕ → ℕ → List Event → Db → ℕ
acted_on h validity [] db = 0
acted_on h validity (e ∷ events) db =
    let n = acted_on h validity events (serve validity e db).1 in
    if concerns h e && (serve validity e db).0 then n + 1 else n

-- A call of a request is not the pruner's.
abbrev pub is_prune : Call → Bool
is_prune (prunes now) = true
is_prune c = false

-- The claim of a request on the statement with hash `h`, signed at `t`.
abbrev pub SignedAt : List ℕ → ℕ → ℕ → ℕ → Option StatementClaim → Type 0
SignedAt h t validity timestamp none = Unit {0}
SignedAt h t validity timestamp (some c) =
    c.statement_hash ≡ h → (timestamp ≡ t) × (c.expires_at ≡ claim_expires_at validity timestamp)

-- The last round of the pruner was before the timestamp was checked, or before the claim expired.
abbrev pub IsUndisturbed : List ℕ → ℕ → ℕ → ℕ → ℕ → Option StatementClaim → Type 0
IsUndisturbed h t validity pruned checked claim =
    (not (carries h claim) || (leb pruned checked || leb pruned (claim_expires_at validity t)))
    ≡ true

-- `pruned` is the time of the last round of the pruner, whose clock never goes back. All times fit in
-- 63 bits, and every request on the statement was signed at `t`, carries the claim with the expiry
-- for it, and has no round of the pruner past that expiry between its check and its call.
abbrev pub Timely : List ℕ → ℕ → ℕ → ℕ → List Event → Type 0
Timely h t validity pruned [] = Unit {0}
Timely h t validity pruned (requests checked timestamp call ∷ events) =
    (checked ≤ i64_max)
    × (is_prune call ≡ false)
    × SignedAt h t validity timestamp (claim_of call)
    × IsUndisturbed h t validity pruned checked (claim_of call)
    × Timely h t validity pruned events
Timely h t validity pruned (ticks now ∷ events) =
    (pruned ≤ now) × (now ≤ i64_max) × Timely h t validity now events

module _ (h : List ℕ) (t validity : ℕ) where
  carried-at :
      (timestamp : ℕ) (claim : Option StatementClaim)
      → SignedAt h t validity timestamp claim
      → carries h claim ≡ true
      → timestamp ≡ t
  carried-at timestamp none s k = cc
  carried-at timestamp (some c) s k = (s ((eq_iff _ _).0 k)).0

  signed_lasts :
      (timestamp : ℕ) (claim : Option StatementClaim)
      → SignedAt h t validity timestamp claim
      → ClaimLasts h (claim_expires_at validity t) claim
  signed_lasts timestamp none s = tt
  signed_lasts timestamp (some c) s = λ e. let (a, b) = s e in rw (b, a) (omega arith)

  Lasts-of :
      (c : Call)
      → is_prune c ≡ false
      → ClaimLasts h (claim_expires_at validity t) (claim_of c)
      → Lasts h (claim_expires_at validity t) c
  Lasts-of (prunes now) p l = cc
  Lasts-of c p l = l

  -- A request before or after the expiry, in the terms of the call that it makes.
  record Served (e : Event) (db : Db) : Type 0 where
    rows_last :
        RowsLast h (claim_expires_at validity t) (serve validity e db).1.used_signed_messages
    kept :
        exists (hash_is h) db.used_signed_messages ≡ true
        → (exists (hash_is h) (serve validity e db).1.used_signed_messages ≡ true)
          × ((concerns h e && (serve validity e db).0) ≡ false)
    claimed :
        (concerns h e && (serve validity e db).0) ≡ true
        → exists (hash_is h) (serve validity e db).1.used_signed_messages ≡ true

  answered-same :
      (m : Result LnurlRepositoryError (Unit {0}) × Db)
      → ((answered m).0 ≡ succeeded m.0) × ((answered m).1 ≡ m.1)
  answered-same (ok _, db) = (refl, refl)
  answered-same (err _, db) = (refl, refl)

  request-Served :
      (now timestamp : ℕ) (c : Call) (db : Db)
      → is_prune c ≡ false
      → SignedAt h t validity timestamp (claim_of c)
      → RowsLast h (claim_expires_at validity t) db.used_signed_messages
      → Served (requests now timestamp c) db
  unfolding serve
  request-Served now timestamp c db p s l =
      let r = checked (check_timestamp validity now timestamp) in
      record { rows_last = r.0; kept = r.1; claimed = r.2 }
    where
      k : Kept h (claim_expires_at validity t) c db
      k =
          step-Kept h (claim_expires_at validity t) c db
            (Lasts-of c p (signed_lasts timestamp (claim_of c) s)) l

      a :
          ((answered (step c db)).0 ≡ succeeded (step c db).0)
          × ((answered (step c db)).1 ≡ (step c db).1)
      a = answered-same (step c db)

      checked :
          (r : Result SignedError (Unit {0}))
          → (let answer : Bool × Db = elim r [
            | err _ ↦ (false, db)
            | ok _ ↦ answered (step c db)
          ] in
              RowsLast h (claim_expires_at validity t) answer.1.used_signed_messages
              × (exists (hash_is h) db.used_signed_messages ≡ true
                  → (exists (hash_is h) answer.1.used_signed_messages ≡ true)
                    × ((carries h (claim_of c) && answer.0) ≡ false))
              × ((carries h (claim_of c) && answer.0) ≡ true
                  → exists (hash_is h) answer.1.used_signed_messages ≡ true))
      checked (ok _) = rw (a.0) (rw (a.1) (k.rows_last, k.kept, k.claimed))
      checked (err _) = (l, λ x. (x, ground arith), λ x. ground arith)

  tick-Served :
      (now : ℕ) (db : Db)
      → now ≤ claim_expires_at validity t
      → RowsLast h (claim_expires_at validity t) db.used_signed_messages
      → Served (ticks now) db
  unfolding serve step prune_tick
  tick-Served now db n l =
      let k = step-Kept h (claim_expires_at validity t) (prunes now) db n l in
      record { rows_last = k.rows_last; kept = λ x. ((k.kept x).0, refl); claimed = λ x. cc }

  late_check :
      (pruned checked : ℕ) (claim : Option StatementClaim)
      → claim_expires_at validity t < pruned
      → IsUndisturbed h t validity pruned checked claim
      → carries h claim ≡ true
      → claim_expires_at validity t < checked
  late_check pruned checked claim e u here = ground arith

  -- Once the pruner has run past the expiry of its claim a statement is refused.
  late :
      (pruned : ℕ) (events : List Event) (db : Db)
      → claim_expires_at validity t < pruned
      → Timely h t validity pruned events
      → acted_on h validity events db ≡ 0
  unfolding acted_on serve
  late pruned [] db e w = refl
  late pruned (requests checked timestamp c ∷ events) db e (b, p, s, u, w) =
      elim (Bool-cases (carries h (claim_of c))) [
        | inl here ↦
            let same = carried-at timestamp (claim_of c) s here in
            let refused =
              pruned-refused validity checked t b
                (late_check pruned checked (claim_of c) e u here) in
            rw same (rw (refused, serve) (rw here (late pruned events db e w)))
        | inr other ↦
            rw other (late pruned events (serve validity (requests checked timestamp c) db).1 e w)
      ]
  late pruned (ticks now ∷ events) db e (a, b, w) =
      late now events (serve validity (ticks now) db).1 (omega arith) w

  used :
      (pruned : ℕ) (events : List Event) (db : Db)
      → Timely h t validity pruned events
      → RowsLast h (claim_expires_at validity t) db.used_signed_messages
      → exists (hash_is h) db.used_signed_messages ≡ true
      → acted_on h validity events db ≡ 0
  unfolding acted_on
  used pruned [] db w l x = refl
  used pruned (requests checked timestamp c ∷ events) db (b, p, s, u, w) l x =
      let k = request-Served checked timestamp c db p s l in
      let f = k.kept x in
      rw f.1
        (used pruned events (serve validity (requests checked timestamp c) db).1 w k.rows_last f.0)
  used pruned (ticks now ∷ events) db (a, b, w) l x =
      elim (Bool-cases (leb now (claim_expires_at validity t))) [
        | inl early ↦
            let k = tick-Served now db (ground arith) l in
            used now events (serve validity (ticks now) db).1 w k.rows_last (k.kept x).0
        | inr past ↦ late now events (serve validity (ticks now) db).1 (ground arith) w
      ]

  -- However often a signed statement is presented, between whatever other requests and rounds of the
  -- pruner, and however long after its check the call of each request runs, it is acted on at most
  -- once, if no round of the pruner past the expiry of its claim comes between the check and the call
  -- of a request on it: the clock of the pruner never goes back, times fit in 63 bits, all requests on
  -- the statement have its timestamp `t` and carry a claim with the expiry for it, and the claims of
  -- the statement that the table starts with, if any, last as long.
  pub acted_on-le-one :
      (pruned : ℕ) (events : List Event) (db : Db)
      → Timely h t validity pruned events
      → RowsLast h (claim_expires_at validity t) db.used_signed_messages
      → acted_on h validity events db ≤ 1
  unfolding acted_on
  acted_on-le-one pruned [] db w l = omega arith
  acted_on-le-one pruned (requests checked timestamp c ∷ events) db (b, p, s, u, w) l =
      let e = requests checked timestamp c in
      let k = request-Served checked timestamp c db p s l in
      elim (Bool-cases (concerns h e && (serve validity e db).0)) [
        | inl here ↦ rw here (
            omega
              (arith, used pruned events (serve validity e db).1 w k.rows_last (k.claimed here)))
        | inr other ↦ rw other (acted_on-le-one pruned events (serve validity e db).1 w k.rows_last)
      ]
  acted_on-le-one pruned (ticks now ∷ events) db (a, b, w) l =
      elim (Bool-cases (leb now (claim_expires_at validity t))) [
        | inl early ↦
            acted_on-le-one now events (serve validity (ticks now) db).1 w
              (tick-Served now db (ground arith) l).rows_last
        | inr past ↦
            omega (arith, late now events (serve validity (ticks now) db).1 (ground arith) w)
      ]
