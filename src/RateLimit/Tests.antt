-- ===== src/RateLimit/Tests.antt =====
-- Examples of the theorems on the limiters.
use blink_lnurl_server.Prelude.{
  ℕ, ◌-◌, ◌≡◌, ◌↔◌, min, refl, true, false, some, List, [], ◌∷◌, arith, length, take, ◌==◌,
}
use blink_lnurl_server.RateLimit.{
  IpAddr, v4, v6, ip_eq, bucket, Window, get, size, PerIpRateLimiter, check, new_budget,
}
use blink_lnurl_server.RateLimit.Limit.{
  IsBounded, check-IsBounded, check-keeps_live, admitted, requested, admitted-eq-min,
}
use blink_lnurl_server.RateLimit.Budget.{granted, granted-eq-min, bucket_v6_iff}

abbrev home : IpAddr
home = v4 (10 ∷ 0 ∷ 0 ∷ 1 ∷ [])

abbrev away : IpAddr
away = v4 (10 ∷ 0 ∷ 0 ∷ 2 ∷ [])

-- Two of three requests of `home` are spent.
abbrev spent : Window
spent = record { started_at = 0; count = 2 }

abbrev limiter : PerIpRateLimiter
limiter = record {
  max_requests = 3;
  window = 60;
  max_tracked_ips = 1;
  allow_untrusted = true;
  counters = (home, spent) ∷ [];
  saturated = false;
}

admitted-eq-min_example :
    admitted home ((home, 5) ∷ (away, 6) ∷ (home, 7) ∷ []) limiter
    ≡ min (requested home ((home, 5) ∷ (away, 6) ∷ (home, 7) ∷ [])) (3 - 2)
unfolding get ip_eq ◌==◌
admitted-eq-min_example =
    admitted-eq-min home ((home, 5) ∷ (away, 6) ∷ (home, 7) ∷ []) limiter spent refl (omega arith)
      (omega arith) (omega arith, (omega arith, (omega arith, tt)))

check-IsBounded_example : IsBounded (check (some away) 5 limiter).0
unfolding size
check-IsBounded_example = check-IsBounded (some away) 5 limiter (omega arith)

check-keeps_live_example : get home (check (some away) 5 limiter).0.counters ≡ some spent
unfolding get ip_eq bucket ◌==◌
check-keeps_live_example = check-keeps_live away home 5 limiter spent (λ e. cc e) refl (omega arith)

granted-eq-min_example :
    granted (1 ∷ 2 ∷ 3 ∷ []) (new_budget 2 60 0) ≡ min (length {A = ℕ} (1 ∷ 2 ∷ 3 ∷ [])) (2 - 0)
unfolding new_budget
granted-eq-min_example =
    granted-eq-min (1 ∷ 2 ∷ 3 ∷ []) (new_budget 2 60 0) (omega arith) (omega arith)
      (omega arith, (omega arith, (omega arith, tt)))

abbrev host_in : ℕ → List ℕ
host_in n = 32 ∷ 1 ∷ 13 ∷ 184 ∷ 0 ∷ 0 ∷ 0 ∷ 0 ∷ 0 ∷ 0 ∷ 0 ∷ 0 ∷ 0 ∷ 0 ∷ 0 ∷ n ∷ []

bucket_v6_iff_example :
    (bucket (v6 (host_in 1)) ≡ bucket (v6 (host_in 2))) ↔ (take 8 (host_in 1) ≡ take 8 (host_in 2))
bucket_v6_iff_example = bucket_v6_iff (host_in 1) (host_in 2) (omega arith) (omega arith)
