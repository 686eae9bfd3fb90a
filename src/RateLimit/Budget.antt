-- ===== src/RateLimit/Budget.antt =====
-- The global budget of src/rate_limit.rs, and the buckets of addresses.
use blink_lnurl_server.Prelude.{
  ℕ, zero, suc, sym, ◌+◌, ◌-◌, ◌≤◌, ◌<◌, min, ◌≡◌, refl, ap, ◌∙◌, ◌↔◌, List, [], ◌∷◌, ◌++◌, map,
  arith, length, take, drop, if◌then◌else◌,
}
use blink_lnurl_server.RateLimit.{IpAddr, v4, v6, bucket, GlobalBudget, u32_max, spend_in, spend}

-- A run of spends at the given times, and how many were granted.
pub granted : List ℕ → GlobalBudget → ℕ
granted [] b = 0
granted (now ∷ rest) b =
    let (b', passed) = spend now b in let n = granted rest b' in if passed then n + 1 else n

abbrev pub AllBefore : ℕ → ℕ → List ℕ → Type 0
AllBefore start window [] = Unit {0}
AllBefore start window (now ∷ rest) = (now - start < window) × AllBefore start window rest

-- Of a run of spends within the running window as many are granted as there are, up to what is left
-- of the budget. Budget and count fit in `u32`, the budget below its largest value.
pub granted-eq-min :
    (times : List ℕ) (b : GlobalBudget)
    → b.state.count ≤ u32_max
    → b.max_spend < u32_max
    → AllBefore b.state.started_at b.window times
    → granted times b ≡ min (length times) (b.max_spend - b.state.count)
unfolding granted spend spend_in
granted-eq-min [] b c m a = omega arith
granted-eq-min (now ∷ rest) b c m a = ground (arith, granted-eq-min rest (spend now b).0)

take-take-append : (n : ℕ) (xs ys : List ℕ) → n ≤ length xs → take n (take n xs ++ ys) ≡ take n xs
take-take-append zero xs ys h = refl
take-take-append (suc n) [] ys h = absurd (omega arith)
take-take-append (suc n) (x ∷ xs) ys h =
    ap (λ (t : List ℕ). x ∷ t) (take-take-append n xs ys (omega arith))

length-drop : (n : ℕ) (xs : List ℕ) → length (drop n xs) ≡ length xs - n
length-drop zero xs = omega arith
length-drop (suc n) [] = omega arith
length-drop (suc n) (x ∷ xs) = omega (arith, length-drop n xs)

zeroed-length :
    (xs ys : List ℕ) → length xs ≡ length ys → ◌≡◌ {A = List ℕ} (map (λ _. 0) xs) (map (λ _. 0) ys)
zeroed-length [] [] h = refl
zeroed-length [] (y ∷ ys) h = absurd (omega arith)
zeroed-length (x ∷ xs) [] h = absurd (omega arith)
zeroed-length (x ∷ xs) (y ∷ ys) h = ap (λ (t : List ℕ). 0 ∷ t) (zeroed-length xs ys (omega arith))

abbrev octets : IpAddr → List ℕ
octets (v4 a) = a
octets (v6 a) = a

-- Two IPv6 addresses, of 16 octets each, share a bucket exactly when their first 8 octets agree.
pub bucket_v6_iff :
    (a b : List ℕ)
    → length a ≡ 16
    → length b ≡ 16
    → (bucket (v6 a) ≡ bucket (v6 b)) ↔ (take 8 a ≡ take 8 b)
unfolding bucket
bucket_v6_iff a b p q = (
  λ e.
      sym (take-take-append 8 a _ (omega arith))
      ∙ ap (λ ip. take 8 (octets ip)) e
      ∙ take-take-append 8 b _ (omega arith),
  λ e. rw (e, zeroed-length (drop 8 a) (drop 8 b) (omega (arith, length-drop))),
)
