-- ===== src/Signed/Window.antt =====
-- The accept window and the expiry of claims.
use blink_lnurl_server.Prelude.{ℕ, ◌+◌, ◌≤◌, ◌<◌, ◌≡◌, ◌↔◌, arith, ok, err}
use blink_lnurl_server.Signed.{invalid_timestamp, check_timestamp, claim_expires_at, i64_max}

-- A timestamp is accepted exactly where the clock and the timestamp are no further apart than the
-- validity, on either side, and otherwise refused as invalid.
pub check_timestamp_iff :
    (validity now timestamp : ℕ)
    → ((check_timestamp validity now timestamp ≡ ok tt)
        ↔ ((timestamp ≤ now + validity) × (now ≤ timestamp + validity)))
      × ((now + validity < timestamp
            → check_timestamp validity now timestamp ≡ err invalid_timestamp)
          × (timestamp + validity < now
              → check_timestamp validity now timestamp ≡ err invalid_timestamp))
unfolding check_timestamp
check_timestamp_iff validity now timestamp = (
  (λ h. (ground arith, ground arith), λ (h, k). ground arith),
  (λ h. ground arith, λ h. ground arith),
)

-- The claim on a statement is not prunable at any time at which the statement is accepted: once the
-- clock, which fits in 63 bits, is past the expiry of the claim, the timestamp of the statement is
-- refused.
pub pruned-refused :
    (validity now timestamp : ℕ)
    → now ≤ i64_max
    → claim_expires_at validity timestamp < now
    → check_timestamp validity now timestamp ≡ err invalid_timestamp
unfolding check_timestamp claim_expires_at
pruned-refused validity now timestamp b h = ground arith
