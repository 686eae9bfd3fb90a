-- ===== src/RateLimit/Limit.antt =====
-- The per-address limiter of src/rate_limit.rs over single requests and runs of them.
use blink_lnurl_server.Prelude.{
  ◌&&◌, ℕ, ◌+◌, ◌-◌, ◌≤◌, ◌<◌, min, ◌≡◌, ◌≢◌, Option, none, some, List, [], ◌∷◌, arith, leb,
  if◌then◌else◌, Bool-cases, inl, inr,
}
use blink_lnurl_server.RateLimit.{
  IpAddr, ip_eq, bucket, Window, Counters, or_new, get, retain_live, size, PerIpRateLimiter,
  u32_max, spend_in, count_request, check_bucket, check,
}
use blink_lnurl_server.RateLimit.Table.{
  ip_eq_iff, get-insert, size-insert, get-retain_live, get-retain_live-none, size-retain_live,
}

abbrev pub IsBounded : PerIpRateLimiter → Type 0
IsBounded l = size l.counters ≤ l.max_tracked_ips

-- The entry that `count_request` writes over a table.
abbrev spent : PerIpRateLimiter → IpAddr → ℕ → Counters → Window
spent l k now m = spend_in l.window now (or_new now (get k m))

check_bucket-IsBounded :
    (k : IpAddr) (now : ℕ) (l : PerIpRateLimiter) → IsBounded l → IsBounded (check_bucket k now l).0
unfolding check_bucket count_request
check_bucket-IsBounded k now l h =
    let kept = retain_live l.window now l.counters in
    ground (
      arith,
      size-insert k (spent l k now l.counters) l.counters,
      size-insert k (spent l k now kept) kept,
      get-retain_live-none l.window now k l.counters,
      size-retain_live l.window now l.counters,
    )

-- If the table is no larger than `max_tracked_ips` before a request, it is so after it.
pub check-IsBounded :
    (ip : Option IpAddr) (now : ℕ) (l : PerIpRateLimiter)
    → IsBounded l
    → IsBounded (check ip now l).0
unfolding check
check-IsBounded none now l h = h
check-IsBounded (some ip) now l h = check_bucket-IsBounded (bucket ip) now l h

check_bucket-keeps_live :
    (k j : IpAddr) (now : ℕ) (l : PerIpRateLimiter) (w : Window)
    → k ≢ j
    → get j l.counters ≡ some w
    → now - w.started_at < l.window
    → get j (check_bucket k now l).0.counters ≡ some w
unfolding check_bucket count_request
check_bucket-keeps_live k j now l w ne h live =
    let kept = retain_live l.window now l.counters in
    ground (
      arith,
      ip_eq_iff k j,
      get-insert k j (spent l k now l.counters) l.counters,
      get-insert k j (spent l k now kept) kept,
      get-retain_live l.window now j w l.counters h live,
    )

-- A request of one bucket leaves the running window of another bucket in the table as it was.
pub check-keeps_live :
    (ip : IpAddr) (j : IpAddr) (now : ℕ) (l : PerIpRateLimiter) (w : Window)
    → bucket ip ≢ j
    → get j l.counters ≡ some w
    → now - w.started_at < l.window
    → get j (check (some ip) now l).0.counters ≡ some w
unfolding check
check-keeps_live ip j now l w ne h live = check_bucket-keeps_live (bucket ip) j now l w ne h live

-- A request of a bucket whose window is running is counted in it, and passes within the budget.
check_bucket-running :
    (k : IpAddr) (now : ℕ) (l : PerIpRateLimiter) (w : Window)
    → get k l.counters ≡ some w
    → now - w.started_at < l.window
    → (get k (check_bucket k now l).0.counters
        ≡ some (record { started_at = w.started_at; count = min (w.count + 1) u32_max }))
      × ((check_bucket k now l).1 ≡ leb (min (w.count + 1) u32_max) l.max_requests)
unfolding check_bucket count_request spend_in
check_bucket-running k now l w h live = ground (
  arith,
  ip_eq_iff k k,
  get-insert k k (record { started_at = w.started_at; count = min (w.count + 1) u32_max })
      l.counters,
)

check_bucket-config :
    (k : IpAddr) (now : ℕ) (l : PerIpRateLimiter)
    → ((check_bucket k now l).0.max_requests ≡ l.max_requests)
      × ((check_bucket k now l).0.window ≡ l.window)
unfolding check_bucket count_request
check_bucket-config k now l = ground arith

-- A run of requests, each with its time, and how many of those of a bucket were let through.
pub admitted : IpAddr → List (IpAddr × ℕ) → PerIpRateLimiter → ℕ
admitted k [] l = 0
admitted k ((ip, now) ∷ rest) l =
    let (l', passed) = check (some ip) now l in
    let n = admitted k rest l' in if ip_eq (bucket ip) k && passed then n + 1 else n

-- How many requests of a bucket there are.
pub requested : IpAddr → List (IpAddr × ℕ) → ℕ
requested k [] = 0
requested k ((ip, now) ∷ rest) =
    let n = requested k rest in if ip_eq (bucket ip) k then n + 1 else n

-- Every request falls into the window that starts at `start`.
abbrev pub AllWithin : ℕ → ℕ → List (IpAddr × ℕ) → Type 0
AllWithin start window [] = Unit {0}
AllWithin start window ((ip, now) ∷ rest) = (now - start < window) × AllWithin start window rest

-- A bucket has a window in the table, and every request of a run falls into that window: then as
-- many requests of the bucket pass as there are, up to what is left of its budget, whatever other
-- addresses send between them. Budget and count fit in `u32`, the budget below its largest value.
pub admitted-eq-min :
    (k : IpAddr) (reqs : List (IpAddr × ℕ)) (l : PerIpRateLimiter) (w : Window)
    → get k l.counters ≡ some w
    → w.count ≤ u32_max
    → l.max_requests < u32_max
    → AllWithin w.started_at l.window reqs
    → admitted k reqs l ≡ min (requested k reqs) (l.max_requests - w.count)
unfolding admitted requested check
admitted-eq-min k [] l w h c m a = omega arith
admitted-eq-min k ((ip, now) ∷ rest) l w h c m a = elim (Bool-cases (ip_eq (bucket ip) k)) [
  | inl same ↦
      let e : bucket ip ≡ k = (ip_eq_iff (bucket ip) k).0 same in
      rw same (
        rw e (
          ground (
            arith,
            check_bucket-config k now l,
            check_bucket-running k now l w h a.0,
            admitted-eq-min k rest (check_bucket k now l).0
                (record { started_at = w.started_at; count = min (w.count + 1) u32_max }),
          )))
  | inr other ↦ rw other (
      ground (
        arith,
        ip_eq_iff (bucket ip) k,
        check_bucket-config (bucket ip) now l,
        check_bucket-keeps_live (bucket ip) k now l w,
        admitted-eq-min k rest (check_bucket (bucket ip) now l).0 w,
      ))
]
