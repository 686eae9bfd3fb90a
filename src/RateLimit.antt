-- ===== src/RateLimit.antt =====
-- src/rate_limit.rs: the per-IP limiter and the global budget. An `Instant` and a `Duration` are
-- numbers of one unit; `duration_since` saturates at zero, as `-` does here. Time is an argument.
pub mod Table
pub mod Budget
pub mod Limit
mod Tests
use blink_lnurl_server.Prelude.{
  is_some, ℕ, ◌+◌, ◌-◌, ◌^◌, min, Bool, true, false, not, ◌&&◌, Option, none, some, List, [], ◌∷◌,
  ◌++◌, map, take, drop, retain, ltb, leb, if◌then◌else◌, ◌==◌,
}

-- The octets of an address, 4 or 16 of them.
pub data IpAddr : Type 0 where
  v4 : List ℕ → IpAddr
  v6 : List ℕ → IpAddr

unfoldable pub ip_eq : IpAddr → IpAddr → Bool
unfolding ◌==◌
ip_eq (v4 a) (v4 b) = a == b
ip_eq (v6 a) (v6 b) = a == b
ip_eq _ _ = false

unfoldable pub bucket : IpAddr → IpAddr
bucket (v4 octets) = v4 octets
bucket (v6 octets) = v6 (take 8 octets ++ map (λ o. 0) (drop 8 octets))

abbrev pub u32_max : ℕ
u32_max = 2 ^ 32 - 1

pub record Window : Type 0 where
  pub started_at : ℕ
  pub count : ℕ

-- The `HashMap` as an association list.
abbrev pub Counters : Type 0
Counters = List (IpAddr × Window)

unfoldable pub get : IpAddr → Counters → Option Window
get k [] = none
get k ((j, w) ∷ m) = if ip_eq j k then some w else get k m

unfoldable pub insert : IpAddr → Window → Counters → Counters
insert k w [] = (k, w) ∷ []
insert k w ((j, v) ∷ m) = if ip_eq j k then (j, w) ∷ m else (j, v) ∷ insert k w m

unfoldable pub size : Counters → ℕ
size [] = 0
size (e ∷ m) = size m + 1

pub record PerIpRateLimiter : Type 0 where
  pub max_requests : ℕ
  pub window : ℕ
  pub max_tracked_ips : ℕ
  pub allow_untrusted : Bool
  pub counters : Counters
  pub saturated : Bool

unfoldable pub new : ℕ → ℕ → ℕ → Bool → PerIpRateLimiter
new max_requests window max_tracked_ips allow_untrusted = record {
  max_requests = max_requests;
  window = window;
  max_tracked_ips = max_tracked_ips;
  allow_untrusted = allow_untrusted;
  counters = [];
  saturated = false;
}

-- A window whose time is up starts again; then the request is counted, saturating in `u32`.
unfoldable pub roll : ℕ → ℕ → Window → Window
roll window now w =
    if leb window (now - w.started_at) then record { started_at = now; count = 0 } else w

unfoldable pub spend_in : ℕ → ℕ → Window → Window
unfolding roll
spend_in window now w =
    let r = roll window now w in
    record { started_at = r.started_at; count = min (r.count + 1) u32_max }

abbrev pub or_new : ℕ → Option Window → Window
or_new now none = record { started_at = now; count = 0 }
or_new now (some w) = w

-- The tail of `check`: the entry of `ip` is made if it is missing, and spent from.
unfoldable pub count_request : IpAddr → ℕ → PerIpRateLimiter → PerIpRateLimiter × Bool
count_request ip now l =
    let w = spend_in l.window now (or_new now (get ip l.counters)) in
    (record l { counters = insert ip w l.counters }, leb w.count l.max_requests)

-- The windows that are still running: only the others may be dropped.
unfoldable pub retain_live : ℕ → ℕ → Counters → Counters
unfolding retain
retain_live window now m = retain (λ e. ltb (now - e.1.started_at) window) m

-- `check` for the bucket of a known address.
unfoldable pub check_bucket : IpAddr → ℕ → PerIpRateLimiter → PerIpRateLimiter × Bool
check_bucket ip now l =
    let is_new = not (is_some (get ip l.counters)) in
    if is_new && leb l.max_tracked_ips (size l.counters)
    then (let kept = retain_live l.window now l.counters in
        if leb l.max_tracked_ips (size kept)
        then (record l { counters = kept; saturated = true }, false)
        else count_request ip now (record l { counters = kept; saturated = false }))
    else count_request ip now (record l { saturated = if is_new then false else l.saturated })

unfoldable pub check : Option IpAddr → ℕ → PerIpRateLimiter → PerIpRateLimiter × Bool
unfolding check_bucket count_request retain_live spend_in get insert size bucket ip_eq
check none now l = (l, l.allow_untrusted)
check (some ip) now l = check_bucket (bucket ip) now l

pub record GlobalBudget : Type 0 where
  pub max_spend : ℕ
  pub window : ℕ
  pub state : Window

unfoldable pub new_budget : ℕ → ℕ → ℕ → GlobalBudget
new_budget max_spend window now = record {
  max_spend = max_spend;
  window = window;
  state = record { started_at = now; count = 0 };
}

unfoldable pub spend : ℕ → GlobalBudget → GlobalBudget × Bool
spend now b =
    let w = spend_in b.window now b.state in (record b { state = w }, leb w.count b.max_spend)
