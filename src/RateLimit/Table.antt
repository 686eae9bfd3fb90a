-- ===== src/RateLimit/Table.antt =====
-- Laws of the counter table of src/rate_limit.rs.
use blink_lnurl_server.Prelude.{
  is_some, ℕ, ◌+◌, ◌-◌, ◌≤◌, ◌<◌, ◌≡◌, refl, ◌↔◌, true, none, some, [], ◌∷◌, arith, if◌then◌else◌,
  eq_iff,
}
use blink_lnurl_server.RateLimit.{
  IpAddr, v4, v6, ip_eq, Window, Counters, get, insert, retain_live, size,
}

pub ip_eq_iff : (a b : IpAddr) → (ip_eq a b ≡ true) ↔ (a ≡ b)
unfolding ip_eq
ip_eq_iff (v4 a) (v4 b) = ground (arith, eq_iff a b)
ip_eq_iff (v4 a) (v6 b) = ground arith
ip_eq_iff (v6 a) (v4 b) = ground arith
ip_eq_iff (v6 a) (v6 b) = ground (arith, eq_iff a b)

pub get-insert :
    (k j : IpAddr) (w : Window) (m : Counters)
    → get j (insert k w m) ≡ (if ip_eq k j then some w else get j m)
unfolding get insert
get-insert k j w [] = ground arith
get-insert k j w ((i, v) ∷ m) =
    ground (arith, ip_eq_iff k j, ip_eq_iff i k, ip_eq_iff i j, get-insert k j w m)

pub size-insert :
    (k : IpAddr) (w : Window) (m : Counters)
    → size (insert k w m) ≡ (if is_some (get k m) then size m else size m + 1)
unfolding get insert size
size-insert k w [] = ground arith
size-insert k w ((i, v) ∷ m) = ground (arith, size-insert k w m)

-- A running window survives the clean-up.
pub get-retain_live :
    (window now : ℕ) (k : IpAddr) (w : Window) (m : Counters)
    → get k m ≡ some w
    → now - w.started_at < window
    → get k (retain_live window now m) ≡ some w
unfolding get retain_live
get-retain_live window now k w [] h live = ground arith
get-retain_live window now k w ((i, v) ∷ m) h live =
    ground (arith, get-retain_live window now k w m)

pub get-retain_live-none :
    (window now : ℕ) (k : IpAddr) (m : Counters)
    → get k m ≡ none
    → get k (retain_live window now m) ≡ none
unfolding get retain_live
get-retain_live-none window now k [] h = refl
get-retain_live-none window now k ((i, v) ∷ m) h =
    ground (arith, get-retain_live-none window now k m)

pub size-retain_live : (window now : ℕ) (m : Counters) → size (retain_live window now m) ≤ size m
unfolding retain_live size
size-retain_live window now [] = omega arith
size-retain_live window now ((i, v) ∷ m) = ground (arith, size-retain_live window now m)
