-- ===== src/Account.antt =====
-- src/routes/account.rs: the management routes of Spark accounts. Here are their state, the answers,
-- and the helpers that the handlers share; the handlers are in `Account/Handlers.antt`.
-- A handler is a function of the server's state with an early return. What it takes from other
-- crates and from the configuration are the fields of `Outside`; a public key is the text that
-- `to_string` gives of it.
pub mod Handlers
pub mod Laws
pub mod Serves
pub mod Moves
pub mod Accepts
pub mod Recover
pub mod Spec
pub mod Refines
pub mod Recovers
mod Tests
use Prim.Native.Nat.{zero, suc, ◌%◌, ◌/◌}
use blink_lnurl_server.Prelude.{
  ℕ, ◌+◌, Bool, not, ◌||◌, Option, none, some, List, [], ◌∷◌, ◌++◌, length, is_empty, take, any,
  ltb, if◌then◌else◌, Text, text, ◌==◌, trim, Result, ok, err, map_err, ok_or,
}
use blink_lnurl_server.Identifier.{Services, canonical_spark_username}
use blink_lnurl_server.RateLimit.{IpAddr}
use blink_lnurl_server.Repository.{
  LnurlRepositoryError, name_taken, identifier_conflict, source_not_owner, statement_already_used,
  stale_mode_timestamp, AccountMode, enhanced, anon, StatementClaim,
}
use blink_lnurl_server.Sqlite.Tables.{Db}
use blink_lnurl_server.Sqlite.Mode.{get_spark_account_mode}
use blink_lnurl_server.Signed.{
  Candidate, SignedError, invalid_timestamp, invalid_signature, invalid_signature_for_domain,
  check_timestamp, verify_candidates, statement_claim,
}

-- A refresh of the country that a handler left to a task of its own.
pub record Refresh : Type 0 where
  pub pubkey : Text
  pub request_ip : Option IpAddr

-- The part of `State` that these handlers reach, with `LEGACY_VERIFIES` as `counts`.
pub record Server : Type 0 where
  pub counts : List ℕ
  pub domains : List Text
  pub db : Db
  pub spawned : List Refresh

pub record ApiError : Type 0 where
  pub status : ℕ
  pub body : Text

abbrev pub Handler : Type 0 → Type 0
Handler A = Server → Result ApiError A × Server

abbrev pub continue :
    {A B : Type 0} → Result ApiError A × Server → (A → Handler B) → Result ApiError B × Server
continue (err e, s) next = (err e, s)
continue (ok a, s) next = next a s

infixl 5 ◌>>◌ ◌>>=◌
abbrev pub ◌>>=◌ : {A B : Type 0} → Handler A → (A → Handler B) → Handler B
(m >>= next) s = continue (m s) next

abbrev pub ◌>>◌ : {A B : Type 0} → Handler A → Handler B → Handler B
m >> next = m >>= λ a. next

-- `?` on a result.
abbrev pub lift : {A : Type 0} → Result ApiError A → Handler A
lift r s = (r, s)

abbrev pub reads : {A : Type 0} → (Server → A) → Handler A
reads f s = (ok (f s), s)

-- A call that writes to the database.
abbrev pub writes :
    (Db → Result LnurlRepositoryError (Unit {0}) × Db)
    → (LnurlRepositoryError → ApiError)
    → Handler (Unit {0})
writes call as_error s = let (r, db) = call s.db in (map_err as_error r, record s { db = db })

abbrev bad_request : Text → ApiError
bad_request body = record { status = 400; body = body }

abbrev not_found : Text → ApiError
not_found body = record { status = 404; body = body }

abbrev conflict : Text → ApiError
conflict body = record { status = 409; body = body }

abbrev pub same_pubkey : ApiError
same_pubkey = bad_request (text "transfer source and target are the same pubkey")

abbrev pub enhanced_mode_required : ApiError
enhanced_mode_required = conflict (text "enhanced_mode_required")

abbrev pub transfer_requires_v2 : ApiError
transfer_requires_v2 =
    bad_request (text "transfer requires a timestamped breez-lnurl:v2 authorization")

abbrev pub transfer_expired : ApiError
transfer_expired = bad_request (text "transfer authorization is expired or not yet valid")

abbrev statement_used : ApiError
statement_used = conflict (text "signature has already been used")

abbrev pub user_not_found : ApiError
user_not_found = not_found (text "user not found")

abbrev pub storage_error : LnurlRepositoryError → ApiError
storage_error e = record { status = 500; body = text "internal server error" }

unfoldable pub spark_transfer_error : LnurlRepositoryError → ApiError
spark_transfer_error source_not_owner = not_found (text "source pubkey does not own this username")
spark_transfer_error name_taken = conflict (text "name already taken")
spark_transfer_error identifier_conflict = conflict (text "name already taken")
spark_transfer_error stale_mode_timestamp = conflict (text "mode_request_not_newer")
spark_transfer_error statement_already_used = statement_used
spark_transfer_error e = record { status = 500; body = text "internal server error" }

unfoldable pub spark_unregister_error : LnurlRepositoryError → ApiError
spark_unregister_error source_not_owner = not_found []
spark_unregister_error statement_already_used = statement_used
spark_unregister_error e = storage_error e

unfoldable pub spark_registration_error : LnurlRepositoryError → ApiError
spark_registration_error name_taken = conflict (text "name already taken")
spark_registration_error identifier_conflict = conflict (text "name already taken")
spark_registration_error statement_already_used = statement_used
spark_registration_error e = storage_error e

abbrev pub signed_error : SignedError → ApiError
signed_error invalid_timestamp = bad_request (text "invalid timestamp")
signed_error invalid_signature = bad_request (text "invalid signature")
signed_error (invalid_signature_for_domain domain) =
    bad_request (text "invalid signature for domain '" ++ domain ++ text "'")

-- The decimal digits of a number of 64 bits, of which there are at most twenty.
unfoldable pub digits : ℕ → ℕ → Text → Text
digits zero n rest = rest
digits (suc more) n rest =
    let shown = (b'0' + n % 10) ∷ rest in
    let all_shown = digits more (n / 10) shown in if ltb n 10 then shown else all_shown

abbrev pub decimal : ℕ → Text
decimal n = digits 20 n []

unfoldable pub legacy_timestamped : Text → ℕ → Text
unfolding digits
legacy_timestamped message timestamp = message ++ text "-" ++ decimal timestamp

unfoldable pub default_description : Text → Text → Text
default_description username domain = text "Pay to " ++ username ++ text "@" ++ domain

unfoldable pub validate_description : Text → Result ApiError (Unit {0})
validate_description description =
    if ltb 255 (length (take 256 description))
    then err (bad_request (text "description too long"))
    else ok tt

unfoldable pub stored_account_mode : Text → Db → Option AccountMode
stored_account_mode pubkey db = elim (get_spark_account_mode pubkey db) [
  | none ↦ none
  | some r ↦ r.mode
]

-- The crates `hex`, `bitcoin`, `spark_client` and `lnurl-models`, the text services, and the
-- configuration: whether Spark is among the providers, and whether countries are looked up.
pub record Outside : Type 0 where
  pub services : Services
  pub hex_decode : Text → Option (List ℕ)
  pub from_slice : List ℕ → Option Text
  pub from_der : List ℕ → Option (List ℕ)
  -- The pubkey, the signature and the message.
  pub verify_message : Text → List ℕ → Text → Bool
  pub sha256 : List ℕ → List ℕ
  pub utf8 : Text → List ℕ
  pub validity : ℕ
  pub register_message : Text → Text → Text → ℕ → Text
  pub unregister_message : Text → Text → ℕ → Text
  pub recover_message : Text → Text → ℕ → Text
  pub transfer_from : Text → Text → Text → Text → ℕ → Text
  pub transfer_to : Text → Text → Text → Text → Text → ℕ → Text
  pub spark_enabled : Bool
  pub resolver_enabled : Bool

module _ (o : Outside) where
  unfoldable pub require_spark_provider_enabled : Result ApiError (Unit {0})
  require_spark_provider_enabled =
      if o.spark_enabled
      then ok tt
      else err (record { status = 503; body = text "Spark provider disabled" })

  unfoldable pub canonical_spark_username_for_route : Text → Result ApiError Text
  canonical_spark_username_for_route username =
      map_err (λ e. bad_request (text "invalid username"))
        (canonical_spark_username o.services username)

  unfoldable pub sanitize_domain : Text → List Text → Result ApiError Text
  sanitize_domain host domains =
      let domain = o.services.to_lowercase (trim host) in
      if is_empty domains || any (λ d. d == domain) domains then ok domain else err (not_found [])

  unfoldable pub parse_pubkey : Text → Result ApiError Text
  parse_pubkey pubkey = elim (o.hex_decode pubkey) [
    | none ↦ err (bad_request (text "invalid pubkey"))
    | some bytes ↦ ok_or (o.from_slice bytes) (bad_request (text "invalid pubkey"))
  ]

  abbrev parse_signature : Text → Result ApiError (List ℕ)
  parse_signature signature = elim (o.hex_decode signature) [
    | none ↦ err (signed_error invalid_signature)
    | some bytes ↦ ok_or (o.from_der bytes) (signed_error invalid_signature)
  ]

  unfoldable pub parse_signed_request : Text → Text → Result ApiError (Text × List ℕ)
  unfolding parse_pubkey
  parse_signed_request pubkey signature = elim (parse_pubkey pubkey) [
    | err e ↦ err e
    | ok key ↦ elim (parse_signature signature) [ err e ↦ err e | ok s ↦ ok (key, s) ]
  ]

  -- The timestamp against the clock, with the answer where it is refused.
  abbrev pub timely : (SignedError → ApiError) → ℕ → ℕ → Result ApiError (Unit {0})
  timely as_error now timestamp = map_err as_error (check_timestamp o.validity now timestamp)

  -- `verify_candidates` on the counts of the server.
  abbrev pub verifies : Text → List ℕ → List Candidate → Text → Handler Candidate
  verifies pubkey signature candidates domain s =
      let (r, counts) =
        verify_candidates (o.verify_message pubkey signature) candidates (some domain) s.counts in
      (map_err signed_error r, record s { counts = counts })

  abbrev pub claim_for : Text → Text → Candidate → ℕ → StatementClaim
  claim_for = statement_claim o.validity o.sha256 o.utf8

  -- The task is only recorded here.
  unfoldable pub spawn_country_evidence_refresh :
      Text → Option AccountMode → Option IpAddr → Handler (Unit {0})
  spawn_country_evidence_refresh pubkey none request_ip s = (ok tt, s)
  spawn_country_evidence_refresh pubkey (some anon) request_ip s = (ok tt, s)
  spawn_country_evidence_refresh pubkey (some enhanced) request_ip s =
      if not o.resolver_enabled then (ok tt, s) else (
        ok tt,
        record s { spawned = record { pubkey = pubkey; request_ip = request_ip } ∷ s.spawned },
      )
