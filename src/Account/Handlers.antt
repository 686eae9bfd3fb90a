-- ===== src/Account/Handlers.antt =====
-- The handlers `register`, `transfer` and `unregister` of src/routes/account.rs. `now` is the clock
-- where the timestamp is checked, and an `Env` is what a call to the repository reads.
use blink_lnurl_server.Prelude.{
  ℕ, Bool, false, Option, none, some, List, [], ◌∷◌, ◌++◌, if◌then◌else◌, Text, text, ◌==◌, Result,
  ok, err, ok_or, refuse_if,
}
use blink_lnurl_server.RateLimit.{IpAddr}
use blink_lnurl_server.Repository.{
  username, NewSparkRegistration, StatementClaim, ResolvedRecipient, source_not_owner, has_mode,
  anon,
}
use blink_lnurl_server.Sqlite.Tables.{Db, Env}
use blink_lnurl_server.Sqlite.Registration.{upsert_spark_registration, delete_spark_registration}
use blink_lnurl_server.Sqlite.Transfer.{transfer_identifier}
use blink_lnurl_server.Sqlite.Mode.{set_spark_mode_enhanced_if_unset}
use blink_lnurl_server.Sqlite.Recipient.{
  get_account_by_spark_pubkey, resolve_recipient_by_identifier,
}
use blink_lnurl_server.Signed.{
  Candidate, register, unregister, transfer, breez_v2, blink_v1, legacy,
}
use blink_lnurl_server.Account.{
  ApiError, Handler, Outside, ◌>>=◌, ◌>>◌, lift, reads, writes, same_pubkey, enhanced_mode_required,
  transfer_requires_v2, transfer_expired, spark_transfer_error, spark_unregister_error,
  spark_registration_error, signed_error, legacy_timestamped, default_description,
  validate_description, stored_account_mode, require_spark_provider_enabled,
  canonical_spark_username_for_route, sanitize_domain, parse_signed_request, timely, verifies,
  claim_for, spawn_country_evidence_refresh,
}

-- The responses of `register` and of `transfer` have the same fields.
pub record Registered : Type 0 where
  pub lnurl : Text
  pub lightning_address : Text

abbrev pub registered : Text → Text → Registered
registered domain name = record {
  lnurl = text "lnurlp://" ++ domain ++ text "/lnurlp/" ++ name;
  lightning_address = name ++ text "@" ++ domain;
}

pub record RegisterRequest : Type 0 where
  pub username : Text
  pub signature : Text
  pub timestamp : ℕ
  pub description : Text

pub record UnregisterRequest : Type 0 where
  pub username : Text
  pub signature : Text
  pub timestamp : ℕ

pub record TransferRequest : Type 0 where
  pub username : Text
  pub description : Text
  pub from_pubkey : Text
  pub from_signature : Text
  pub to_signature : Text
  pub timestamp : Option ℕ

-- The description to store: the legacy message does not cover the one of the request.
unfoldable pub stored_description : Candidate → Text → Text → Text → Text
unfolding default_description
stored_description authorization name domain description = elim authorization.format [
  | legacy ↦ default_description name domain
  | breez_v2 ↦ description
  | blink_v1 ↦ description
]

unfoldable pub is_spark_owner : Text → Option Text → Bool
is_spark_owner pubkey none = false
is_spark_owner pubkey (some owner) = owner == pubkey

module _ (o : Outside) where
  unfoldable pub register_candidates : Text → Text → Text → ℕ → List Candidate
  unfolding legacy_timestamped
  register_candidates domain name description timestamp =
      record {
        message = o.register_message domain name description timestamp;
        route = register;
        format = breez_v2;
      }
      ∷ record { message = legacy_timestamped name timestamp; route = register; format = legacy }
      ∷ []

  unfoldable pub unregister_candidates : Text → Text → ℕ → List Candidate
  unregister_candidates domain name timestamp =
      record {
        message = o.unregister_message domain name timestamp;
        route = unregister;
        format = breez_v2;
      }
      ∷ []

  unfoldable pub transfer_candidates :
      Text → Text → Text → Text → Text → ℕ → List Candidate × List Candidate
  transfer_candidates domain name from to description timestamp = (
    record {
      message = o.transfer_from domain name from to timestamp;
      route = transfer;
      format = breez_v2;
    }
        ∷ [],
    record {
      message = o.transfer_to domain name from to description timestamp;
      route = transfer;
      format = breez_v2;
    }
        ∷ [],
  )

  unfoldable pub registration : Text → Text → Text → Text → ℕ → Candidate → NewSparkRegistration
  unfolding stored_description
  registration domain name pubkey description timestamp authorization = record {
    account_id = none;
    pubkey = pubkey;
    identifier = record {
      domain = domain;
      identifier = name;
      identifier_kind = username;
      description = stored_description authorization name domain description;
    };
    claim = some (claim_for o pubkey domain authorization timestamp);
  }

  unfoldable pub register_route :
      Env → ℕ → Text → Text → Option IpAddr → RegisterRequest → Handler Registered
  unfolding registration register_candidates validate_description stored_account_mode
      require_spark_provider_enabled canonical_spark_username_for_route sanitize_domain
      parse_signed_request spawn_country_evidence_refresh
  register_route env now host path request_ip payload = do
    lift (require_spark_provider_enabled o)
    name ← lift (canonical_spark_username_for_route o payload.username)
    lift (validate_description payload.description)
    domains ← reads (λ s. s.domains)
    domain ← lift (sanitize_domain o host domains)
    (pubkey, signature) ← lift (parse_signed_request o path payload.signature)
    lift (timely o signed_error now payload.timestamp)
    authorization ←
        verifies o pubkey signature
          (register_candidates domain name payload.description payload.timestamp) domain
    stored_mode ← reads (λ s. stored_account_mode pubkey s.db)
    lift (refuse_if (has_mode anon stored_mode) enhanced_mode_required)
    writes
        (upsert_spark_registration env
          (registration domain name pubkey payload.description payload.timestamp authorization))
        spark_registration_error
    spawn_country_evidence_refresh o pubkey stored_mode request_ip
    lift (ok (registered domain name))

  unfoldable pub unregister_route : Env → ℕ → Text → Text → UnregisterRequest → Handler (Unit {0})
  unfolding unregister_candidates require_spark_provider_enabled canonical_spark_username_for_route
      sanitize_domain parse_signed_request
  unregister_route env now host path payload = do
    lift (require_spark_provider_enabled o)
    name ← lift (canonical_spark_username_for_route o payload.username)
    domains ← reads (λ s. s.domains)
    domain ← lift (sanitize_domain o host domains)
    (pubkey, signature) ← lift (parse_signed_request o path payload.signature)
    lift (timely o signed_error now payload.timestamp)
    authorization ←
        verifies o pubkey signature (unregister_candidates domain name payload.timestamp) domain
    account ← reads (λ s. get_account_by_spark_pubkey pubkey s.db)
    writes
        (delete_spark_registration env domain pubkey name
          (some (claim_for o pubkey domain authorization payload.timestamp)))
        spark_unregister_error
    lift (ok tt)

  -- The current owner of the name, by the repository.
  unfoldable pub source_recipient : Text → Text → Text → Db → Result ApiError ResolvedRecipient
  unfolding is_spark_owner
  source_recipient domain name from_pubkey db =
      elim (resolve_recipient_by_identifier domain name db) [
        | err e ↦ err (spark_transfer_error e)
        | ok none ↦ err (spark_transfer_error source_not_owner)
        | ok (some r) ↦
            if is_spark_owner from_pubkey r.spark_pubkey
            then ok r
            else err (spark_transfer_error source_not_owner)
      ]

  -- From the test of the two pubkeys on; `later` is what the second call to the repository reads.
  unfoldable pub hand_over :
      Env → Env → Text → Text → Text → Text → Text → StatementClaim → Handler Registered
  unfolding source_recipient stored_account_mode
  hand_over env later domain name from to description claim = do
    lift (refuse_if (from == to) same_pubkey)
    stored_mode ← reads (λ s. stored_account_mode to s.db)
    lift (refuse_if (has_mode anon stored_mode) enhanced_mode_required)
    db ← reads (λ s. s.db)
    source ← lift (source_recipient domain name from db)
    writes
        (transfer_identifier env (record {
          domain = domain;
          identifier = name;
          source_account_id = source.account_id;
          destination_spark_pubkey = to;
          description = description;
          claim = some claim;
        }))
        spark_transfer_error
    writes (λ db. (ok tt, set_spark_mode_enhanced_if_unset later to db)) spark_transfer_error
    lift (ok (registered domain name))

  unfoldable pub transfer_route : Env → Env → ℕ → Text → Text → TransferRequest → Handler Registered
  unfolding transfer_candidates hand_over validate_description require_spark_provider_enabled
      canonical_spark_username_for_route sanitize_domain parse_signed_request
  transfer_route env later now host path payload = do
    lift (require_spark_provider_enabled o)
    name ← lift (canonical_spark_username_for_route o payload.username)
    lift (validate_description payload.description)
    domains ← reads (λ s. s.domains)
    domain ← lift (sanitize_domain o host domains)
    (from, from_signature) ←
        lift (parse_signed_request o payload.from_pubkey payload.from_signature)
    (to, to_signature) ← lift (parse_signed_request o path payload.to_signature)
    timestamp ← lift (ok_or payload.timestamp transfer_requires_v2)
    lift (timely o (λ e. transfer_expired) now timestamp)
    let candidates = transfer_candidates domain name from to payload.description timestamp
    authorization ← verifies o from from_signature candidates.0 domain
    accepted ← verifies o to to_signature candidates.1 domain
    hand_over env later domain name from to payload.description
        (claim_for o from domain authorization timestamp)
