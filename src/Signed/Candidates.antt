-- ===== src/Signed/Candidates.antt =====
-- Which candidate message a signature is taken for, and what is counted.
use blink_lnurl_server.Prelude.{
  ℕ, zero, suc, ◌+◌, ◌%◌, ◌^◌, ◌<◌, ◌≡◌, refl, Bool, true, false, ◌&&◌, Option, none, some, List,
  [], ◌∷◌, length, arith, nat_eq, if◌then◌else◌, Text, Result, ok, err, Bool-cases, inl, inr,
}
use blink_lnurl_server.Sqlite.Query.{find}
use blink_lnurl_server.Signed.{
  Candidate, MessageFormat, breez_v2, blink_v1, legacy, SignedError, invalid_signature,
  invalid_signature_for_domain, legacy_index, add_at, count_legacy, record_legacy_verify,
  verify_candidates,
}

abbrev pub count_at : ℕ → List ℕ → ℕ
count_at i [] = 0
count_at zero (n ∷ counts) = n
count_at (suc i) (n ∷ counts) = count_at i counts

abbrev pub is_legacy : MessageFormat → Bool
is_legacy legacy = true
is_legacy breez_v2 = false
is_legacy blink_v1 = false

abbrev pub is_index : ℕ → Option ℕ → Bool
is_index i none = false
is_index i (some k) = nat_eq k i

-- The candidate is legacy, and the `i`-th counter is that of its route.
abbrev pub is_counted : ℕ → Option Candidate → Bool
is_counted i none = false
is_counted i (some c) = is_legacy c.format && is_index i (legacy_index c.route)

-- The first candidate that verifies, or a refusal with the domain of the request, if it has one.
abbrev pub found_or_refused : Option Text → Option Candidate → Result SignedError Candidate
found_or_refused domain (some c) = ok c
found_or_refused none none = err invalid_signature
found_or_refused (some domain) none = err (invalid_signature_for_domain domain)

counted_at :
    (k i : ℕ) (counts : List ℕ)
    → i < length counts
    → count_at i (add_at k counts)
      ≡ (if nat_eq k i then (count_at i counts + 1) % 2 ^ 64 else count_at i counts)
unfolding add_at
counted_at k i [] h = omega arith
counted_at zero zero (n ∷ counts) h = refl
counted_at zero (suc i) (n ∷ counts) h = ground arith
counted_at (suc k) zero (n ∷ counts) h = ground arith
counted_at (suc k) (suc i) (n ∷ counts) h = ground (arith, counted_at k i counts (omega arith))

module _ (verify : Text → Bool) where
  counted_verify :
      (c : Candidate) (i : ℕ) (counts : List ℕ)
      → i < length counts
      → count_at i (count_legacy c counts)
        ≡ (if is_counted i (some c) then (count_at i counts + 1) % 2 ^ 64 else count_at i counts)
  unfolding record_legacy_verify
  counted_verify c i counts h = by_format c.format (legacy_index c.route)
    where
      by_format :
          (f : MessageFormat) (m : Option ℕ)
          → count_at i (elim f as (λ x. List ℕ) [
            | legacy ↦ elim m as (λ x. List ℕ) [ none ↦ counts | some k ↦ add_at k counts ]
            | breez_v2 ↦ counts
            | blink_v1 ↦ counts
          ])
            ≡ (if is_legacy f && is_index i m
                then (count_at i counts + 1) % 2 ^ 64
                else count_at i counts)
      by_format legacy none = refl
      by_format legacy (some k) = counted_at k i counts h
      by_format breez_v2 m = refl
      by_format blink_v1 m = refl

  -- A signature is taken for the first candidate that it verifies for, and is refused, with the domain
  -- of the request if it has one, where it verifies for none; only a legacy candidate is counted, by
  -- one in the counter of its route, which wraps around at 64 bits, and no other counter changes.
  pub verify_candidates-find :
      (candidates : List Candidate) (domain : Option Text) (counts : List ℕ) (i : ℕ)
      → i < length counts
      → (let found = find (λ c. verify c.message) candidates in
          let out = verify_candidates verify candidates domain counts in
          (out.0 ≡ found_or_refused domain found)
          × (count_at i out.1 ≡ (
              if is_counted i found then (count_at i counts + 1) % 2 ^ 64 else count_at i counts)))
  unfolding verify_candidates find
  verify_candidates-find [] none counts i h = (refl, refl)
  verify_candidates-find [] (some domain) counts i h = (refl, refl)
  verify_candidates-find (c ∷ rest) domain counts i h = elim (Bool-cases (verify c.message)) [
    | inl passes ↦ rw passes (refl, counted_verify c i counts h)
    | inr fails ↦ rw fails (verify_candidates-find rest domain counts i h)
  ]
