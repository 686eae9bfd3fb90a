-- ===== src/Account/Laws.antt =====
-- How a handler goes on after each of its steps (src/routes/account.rs).
use mathlib.Core.Path.{subst}
use blink_lnurl_server.Prelude.{
  ℕ, ◌≡◌, refl, sym, Bool, true, ◌⊎◌, inl, inr, Option, some, List, [], ◌∷◌, Text, Result, ok, err,
  Bool-cases, Yields, map_err,
}
use blink_lnurl_server.Signed.{Candidate, SignedError, verify_candidates}
use blink_lnurl_server.Account.{
  Server, ApiError, Handler, Outside, ◌>>=◌, continue, lift, verifies, signed_error,
}

-- One of the candidates, over which the signature verifies.
unfoldable pub IsVerified : (Text → Bool) → Candidate → List Candidate → Type 0
IsVerified verify c [] = ⊥
IsVerified verify c (d ∷ rest) = ((c ≡ d) × (verify d.message ≡ true)) ⊎ IsVerified verify c rest

-- An early return, or the rest of the handler.
pub lift-cases :
    {A B : Type 0} (G : Result ApiError B × Server → Type 0) (r : Result ApiError A)
    (next : A → Handler B) (s : Server)
    → ((e : ApiError) → G (err e, s))
    → ((a : A) → r ≡ ok a → G (next a s))
    → G ((lift r >>= next) s)
lift-cases G (err e) next s refuse go = refuse e
lift-cases G (ok a) next s refuse go = go a refl

Yields-map :
    {E A : Type 0} {P Q : A → Type 0} (f : (a : A) → P a → Q a) (r : Result E A)
    → Yields P r
    → Yields Q r
Yields-map f (err e) h = tt
Yields-map f (ok a) h = f a h

verify_candidates-IsVerified :
    (verify : Text → Bool) (candidates : List Candidate) (domain : Option Text) (counts : List ℕ)
    → Yields
        (λ c. IsVerified verify c candidates)
        (verify_candidates verify candidates domain counts).0
unfolding verify_candidates IsVerified
verify_candidates-IsVerified verify [] domain counts = tt
verify_candidates-IsVerified verify (d ∷ rest) domain counts =
    elim (Bool-cases (verify d.message)) [
      | inl passes ↦ rw passes (inl (refl, refl))
      | inr fails ↦
          let later = verify_candidates-IsVerified verify rest domain counts in
          rw fails (Yields-map (λ c. inr) (verify_candidates verify rest domain counts).0 later)
    ]

after_verify :
    {B : Type 0} (G : Result ApiError B × Server → Type 0) (P : Candidate → Type 0)
    (r : Result SignedError Candidate) (counts : List ℕ) (next : Candidate → Handler B) (s : Server)
    → Yields P r
    → ((e : ApiError) → G (err e, record s { counts = counts }))
    → ((c : Candidate) → P c → G (next c (record s { counts = counts })))
    → G (continue (map_err signed_error r, record s { counts = counts }) next)
after_verify G P (err e) counts next s h refuse go = refuse (signed_error e)
after_verify G P (ok c) counts next s h refuse go = go c h

-- A refusal, or the rest of the handler with a candidate over which the signature verifies.
pub verifies-cases :
    {B : Type 0} (G : Result ApiError B × Server → Type 0) (o : Outside) (pubkey : Text)
    (signature : List ℕ) (candidates : List Candidate) (domain : Text)
    (next : Candidate → Handler B) (s : Server)
    → ((e : ApiError) (counts : List ℕ) → G (err e, record s { counts = counts }))
    → ((c : Candidate) (counts : List ℕ)
        → IsVerified (o.verify_message pubkey signature) c candidates
        → G (next c (record s { counts = counts })))
    → G ((verifies o pubkey signature candidates domain >>= next) s)
verifies-cases G o pubkey signature candidates domain next s refuse go =
    let verify = o.verify_message pubkey signature in
    let p = verify_candidates verify candidates (some domain) s.counts in
    after_verify G (λ c. IsVerified verify c candidates) p.0 p.1 next s
      (verify_candidates-IsVerified verify candidates (some domain) s.counts) (λ e. refuse e p.1)
      (λ c. go c p.1)

-- A step that succeeds is passed over.
pub lift-ok :
    {A B : Type 0} (G : Result ApiError B × Server → Type 0) {r : Result ApiError A} {a : A}
    (next : A → Handler B) (s : Server)
    → r ≡ ok a
    → G (next a s)
    → G ((lift r >>= next) s)
lift-ok G next s e g = subst (λ r. G ((lift r >>= next) s)) (sym e) g

-- The candidate that `verify_candidates` returns is the one to go on with.
pub verifies-ok :
    {B : Type 0} (G : Result ApiError B × Server → Type 0) (o : Outside) (pubkey : Text)
    (signature : List ℕ) (candidates : List Candidate) (domain : Text) {c : Candidate}
    (next : Candidate → Handler B) (s : Server)
    → (verify_candidates (o.verify_message pubkey signature) candidates (some domain) s.counts).0
      ≡ ok c
    → ((counts : List ℕ) → G (next c (record s { counts = counts })))
    → G ((verifies o pubkey signature candidates domain >>= next) s)
verifies-ok G o pubkey signature candidates domain next s e g =
    let p =
      verify_candidates (o.verify_message pubkey signature) candidates (some domain) s.counts in
    subst (λ r. G (continue (map_err signed_error r, record s { counts = p.1 }) next)) (sym e)
      (g p.1)
