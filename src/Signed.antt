-- ===== src/Signed.antt =====
-- src/routes/signed.rs: the accept window of signed requests, the candidate messages, the claims on
-- statements, and the counts of legacy verifications.
pub mod Window
pub mod Once
pub mod Candidates
mod Tests
use Prim.Native.Nat.{zero, suc, ◌%◌, ◌^◌}
use blink_lnurl_server.Prelude.{
  ℕ, ◌+◌, ◌-◌, Bool, true, false, Option, none, some, List, [], ◌∷◌, ◌++◌, ltb, leb, if◌then◌else◌,
  Text, text, Result, ok, err,
}
use blink_lnurl_server.Repository.{StatementClaim, LnurlRepositoryError}
use blink_lnurl_server.Sqlite.Tables.{Db}
use blink_lnurl_server.Sqlite.Claims.{delete_expired_signed_messages}
use blink_lnurl_server.Sqlite.History.{Call, step}

pub data SignedRoute : Type 0 where
  available register unregister transfer recover metadata mode zap_receipt invoice_paid
        invoices_paid :
      SignedRoute

unfoldable pub route_str : SignedRoute → Text
route_str available = text "available"
route_str register = text "register"
route_str unregister = text "unregister"
route_str transfer = text "transfer"
route_str recover = text "recover"
route_str metadata = text "metadata"
route_str mode = text "mode"
route_str zap_receipt = text "zap_receipt"
route_str invoice_paid = text "invoice_paid"
route_str invoices_paid = text "invoices_paid"

-- The routes that accept a legacy message, in report order.
abbrev pub legacy_routes : List SignedRoute
legacy_routes =
    register ∷ recover ∷ metadata ∷ mode ∷ zap_receipt ∷ invoice_paid ∷ invoices_paid ∷ []

unfoldable pub legacy_index : SignedRoute → Option ℕ
legacy_index available = none
legacy_index unregister = none
legacy_index transfer = none
legacy_index register = some 0
legacy_index recover = some 1
legacy_index metadata = some 2
legacy_index mode = some 3
legacy_index zap_receipt = some 4
legacy_index invoice_paid = some 5
legacy_index invoices_paid = some 6

pub data MessageFormat : Type 0 where
  breez_v2 blink_v1 legacy : MessageFormat

pub record Candidate : Type 0 where
  pub message : Text
  pub route : SignedRoute
  pub format : MessageFormat

pub data SignedError : Type 0 where
  invalid_timestamp invalid_signature : SignedError
  invalid_signature_for_domain : Text → SignedError

abbrev abs_diff : ℕ → ℕ → ℕ
abs_diff a b = (a - b) + (b - a)

abbrev pub u64_max : ℕ
u64_max = 18446744073709551615

abbrev pub i64_max : ℕ
i64_max = 9223372036854775807

-- `validity` is `VALIDITY_SECS` of the crate `lnurl-models`.
module _ (validity : ℕ) where
  unfoldable pub check_timestamp : ℕ → ℕ → Result SignedError (Unit {0})
  check_timestamp now timestamp =
      if ltb validity (abs_diff timestamp now) then err invalid_timestamp else ok tt

  -- The saturating sum in 64 bits, cut off at the largest signed number.
  unfoldable pub claim_expires_at : ℕ → ℕ
  claim_expires_at timestamp =
      let sum = if leb (timestamp + validity) u64_max then timestamp + validity else u64_max in
      if leb sum i64_max then sum else i64_max

  -- `sha256` is the hash of the crate `bitcoin`, and `utf8` the bytes of a string.
  unfoldable pub statement_claim :
      (List ℕ → List ℕ) → (Text → List ℕ) → Text → Text → Candidate → ℕ → StatementClaim
  statement_claim sha256 utf8 pubkey domain candidate timestamp = record {
    statement_hash = sha256 (utf8 pubkey ++ 0 ∷ utf8 domain ++ 0 ∷ utf8 candidate.message);
    route = route_str candidate.route;
    expires_at = claim_expires_at timestamp;
  }

-- The counters of `LEGACY_VERIFIES`, which wrap around at 64 bits.
unfoldable pub add_at : ℕ → List ℕ → List ℕ
add_at i [] = []
add_at zero (n ∷ counts) = (n + 1) % 2 ^ 64 ∷ counts
add_at (suc i) (n ∷ counts) = n ∷ add_at i counts

unfoldable pub record_legacy_verify : SignedRoute → List ℕ → List ℕ
record_legacy_verify route counts = elim (legacy_index route) [
  | none ↦ counts
  | some i ↦ add_at i counts
]

abbrev pub count_legacy : Candidate → List ℕ → List ℕ
count_legacy c counts = elim c.format [
  | legacy ↦ record_legacy_verify c.route counts
  | breez_v2 ↦ counts
  | blink_v1 ↦ counts
]

abbrev pub no_candidate : Option Text → SignedError
no_candidate none = invalid_signature
no_candidate (some domain) = invalid_signature_for_domain domain

-- `verify` is the Spark client, at the pubkey and the signature of the request.
unfoldable pub verify_candidates :
    (Text → Bool) → List Candidate → Option Text → List ℕ → Result SignedError Candidate × List ℕ
verify_candidates verify [] domain counts = (err (no_candidate domain), counts)
verify_candidates verify (c ∷ rest) domain counts =
    let later = verify_candidates verify rest domain counts in
    if verify c.message then (ok c, count_legacy c counts) else later

-- A round of the pruner.
unfoldable pub prune_tick : ℕ → Db → Db
prune_tick now db = (delete_expired_signed_messages now db).1

-- The abstract service: what reaches the repository, in the order in which the database runs it. A
-- signed request stands where its call runs, with the time at which its timestamp was checked before,
-- so that any other events may come between the check and the call; a tick is a round of the pruner.
pub data Event : Type 0 where
  requests : ℕ → ℕ → Call → Event
  ticks : ℕ → Event

abbrev pub answered : Result LnurlRepositoryError (Unit {0}) × Db → Bool × Db
answered (ok _, db) = (true, db)
answered (err _, db) = (false, db)

-- Whether the event was acted on, and the database after it.
unfoldable pub serve : ℕ → Event → Db → Bool × Db
serve validity (requests checked timestamp call) db =
    elim (check_timestamp validity checked timestamp) [
      | err _ ↦ (false, db)
      | ok _ ↦ answered (step call db)
    ]
serve validity (ticks now) db = (false, prune_tick now db)
