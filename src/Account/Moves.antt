-- ===== src/Account/Moves.antt =====
-- `unregister` and `transfer` of src/routes/account.rs against the abstract service of signed
-- requests.
use blink_lnurl_server.Prelude.{
  ℕ, ◌≡◌, refl, false, ◌⊎◌, inl, inr, some, List, [], ◌∷◌, Text, ◌==◌, Result, ok, ok_or, refuse_if,
}
use blink_lnurl_server.Repository.{ResolvedRecipient, IdentifierTransfer, anon, has_mode}
use blink_lnurl_server.Sqlite.Tables.{Env}
use blink_lnurl_server.Sqlite.History.{unregisters, transfers, enhances, step, run}
use blink_lnurl_server.Signed.{Candidate, check_timestamp}
use blink_lnurl_server.Account.{
  Server, ApiError, Outside, stored_account_mode, require_spark_provider_enabled,
  validate_description, canonical_spark_username_for_route, sanitize_domain, parse_signed_request,
  claim_for, signed_error, timely, enhanced_mode_required, same_pubkey, transfer_requires_v2,
  transfer_expired, spark_unregister_error, spark_transfer_error,
}
use blink_lnurl_server.Account.Handlers.{
  UnregisterRequest, TransferRequest, Registered, unregister_candidates, transfer_candidates,
  source_recipient, hand_over, unregister_route, transfer_route,
}
use blink_lnurl_server.Account.Laws.{IsVerified, lift-cases, verifies-cases}
use blink_lnurl_server.Account.Serves.{
  Refuses, Asked, IsAsked, Serves, writes-Serves, map_err-ok, refused_not,
}

unfoldable pub UnregisterSteps :
    Outside
    → Env
    → ℕ
    → Text
    → Text
    → UnregisterRequest
    → Server
    → Result ApiError (Unit {0}) × Server
    → Type 0
UnregisterSteps o env now host path payload s out =
    Refuses s.db out
    ⊎ ((a : Asked) × (c : Candidate) × IsAsked o s.domains payload.username host path
          payload.signature a
        × IsVerified (o.verify_message a.pubkey a.signature) c
            (unregister_candidates o a.domain a.name payload.timestamp)
        × (check_timestamp o.validity now payload.timestamp ≡ ok tt)
        × Serves o.validity now payload.timestamp
            (unregisters env a.domain a.pubkey a.name
              (some (claim_for o a.pubkey a.domain c payload.timestamp)))
            [] s.db out)

-- A removal is refused with the database as it was, or it is the service of one request: of the
-- name, domain and pubkey that the request is read as, with the claim of a candidate of the new form
-- over which the signature verifies.
pub unregister-Steps :
    (o : Outside) (env : Env) (now : ℕ) (host path : Text) (payload : UnregisterRequest)
    (s : Server)
    → UnregisterSteps o env now host path payload s (unregister_route o env now host path payload s)
unfolding unregister_route UnregisterSteps step run
unregister-Steps o env now host path payload s =
    let G = UnregisterSteps o env now host path payload s in
    lift-cases G (require_spark_provider_enabled o) _ s (λ e. inl refl)
      (λ enabled on.
        lift-cases G (canonical_spark_username_for_route o payload.username) _ s (λ e. inl refl)
          (λ name is_name.
            lift-cases G (sanitize_domain o host s.domains) _ s (λ e. inl refl)
              (λ domain is_domain.
                lift-cases G (parse_signed_request o path payload.signature) _ s (λ e. inl refl)
                  (λ key is_key.
                    lift-cases G (timely o signed_error now payload.timestamp) _ s (λ e. inl refl)
                      (λ u in_time.
                        verifies-cases G o key.0 key.1
                          (unregister_candidates o domain name payload.timestamp) domain _ s
                          (λ e counts. inl refl)
                          (λ c counts verified. inr (
                            record {
                              name = name;
                              domain = domain;
                              pubkey = key.0;
                              signature = key.1;
                            },
                            c,
                            (is_name, is_domain, is_key),
                            verified,
                            map_err-ok signed_error _ in_time,
                            writes-Serves o.validity now payload.timestamp
                                (unregisters env domain key.0 name
                                  (some (claim_for o key.0 domain c payload.timestamp)))
                                [] spark_unregister_error _ (record s { counts = counts })
                                (map_err-ok signed_error _ in_time) (λ s'. refl),
                          )))))))

-- Who hands which name to whom.
pub record Handover : Type 0 where
  pub name : Text
  pub domain : Text
  pub from : Text
  pub from_signature : List ℕ
  pub to : Text
  pub to_signature : List ℕ
  pub timestamp : ℕ

-- What the fields of the request are read as, and both signatures over the text for their side.
abbrev pub IsHandover :
    Outside → Text → Text → TransferRequest → Server → Handover → Candidate → Type 0
IsHandover o host path payload s h c =
    (canonical_spark_username_for_route o payload.username ≡ ok h.name)
    × (sanitize_domain o host s.domains ≡ ok h.domain)
    × (parse_signed_request o payload.from_pubkey payload.from_signature
        ≡ ok (h.from, h.from_signature))
    × (parse_signed_request o path payload.to_signature ≡ ok (h.to, h.to_signature))
    × (ok_or payload.timestamp transfer_requires_v2 ≡ ok h.timestamp)
    × IsVerified (o.verify_message h.from h.from_signature) c
        (transfer_candidates o h.domain h.name h.from h.to payload.description h.timestamp).0
    × ((d : Candidate) × IsVerified (o.verify_message h.to h.to_signature) d
          (transfer_candidates o h.domain h.name h.from h.to payload.description h.timestamp).1)

abbrev pub handed : Outside → Handover → Text → Candidate → ResolvedRecipient → IdentifierTransfer
handed o h description c source = record {
  domain = h.domain;
  identifier = h.name;
  source_account_id = source.account_id;
  destination_spark_pubkey = h.to;
  description = description;
  claim = some (claim_for o h.from h.domain c h.timestamp);
}

-- The service of a transfer: the two owners differ, the new one is not anonymous, and the old one
-- has the name.
abbrev pub HandedOver :
    Outside
    → Env
    → Env
    → ℕ
    → Text
    → Server
    → Result ApiError Registered × Server
    → Handover
    → Candidate
    → Type 0
HandedOver o env later now description s out h c =
    (source : ResolvedRecipient) × ((h.from == h.to) ≡ false)
    × (has_mode anon (stored_account_mode h.to s.db) ≡ false)
    × (source_recipient o h.domain h.name h.from s.db ≡ ok source)
    × (check_timestamp o.validity now h.timestamp ≡ ok tt)
    × Serves o.validity now h.timestamp (transfers env (handed o h description c source))
        (enhances later h.to ∷ []) s.db out

hand_over-Serves :
    (o : Outside) (env later : Env) (now : ℕ) (description : Text) (h : Handover) (c : Candidate)
    (s : Server)
    → check_timestamp o.validity now h.timestamp ≡ ok tt
    → (let out =
          hand_over o env later h.domain h.name h.from h.to description
            (claim_for o h.from h.domain c h.timestamp)
            s in
        Refuses s.db out ⊎ HandedOver o env later now description s out h c)
unfolding hand_over step run
hand_over-Serves o env later now description h c s in_time =
    let G : Result ApiError Registered × Server → Type 0 =
      λ out. Refuses s.db out ⊎ HandedOver o env later now description s out h c in
    lift-cases G (refuse_if (h.from == h.to) same_pubkey) _ s (λ e. inl refl)
      (λ u apart.
        let mode = stored_account_mode h.to s.db in
        lift-cases G (refuse_if (has_mode anon mode) enhanced_mode_required) _ s (λ e. inl refl)
          (λ v named.
            lift-cases G (source_recipient o h.domain h.name h.from s.db) _ s (λ e. inl refl)
              (λ source is_source. inr (
                source,
                refused_not _ _ apart,
                refused_not _ _ named,
                is_source,
                in_time,
                writes-Serves o.validity now h.timestamp
                    (transfers env (handed o h description c source)) (enhances later h.to ∷ [])
                    spark_transfer_error _ s in_time (λ s'. refl),
              ))))

unfoldable pub TransferSteps :
    Outside
    → Env
    → Env
    → ℕ
    → Text
    → Text
    → TransferRequest
    → Server
    → Result ApiError Registered × Server
    → Type 0
TransferSteps o env later now host path payload s out =
    Refuses s.db out
    ⊎ ((h : Handover) × (c : Candidate) × IsHandover o host path payload s h c
        × HandedOver o env later now payload.description s out h c)

-- A transfer is refused with the database as it was, or it is the service of one request, after
-- which a success sets the mode of the new owner if it has none: both owners have signed the text for
-- their side, they differ, the old one has the name, the new one is not anonymous, and the claim is
-- that of the old owner's text.
pub transfer-Steps :
    (o : Outside) (env later : Env) (now : ℕ) (host path : Text) (payload : TransferRequest)
    (s : Server)
    → TransferSteps o env later now host path payload s
        (transfer_route o env later now host path payload s)
unfolding transfer_route TransferSteps step run
transfer-Steps o env later now host path payload s =
    let G = TransferSteps o env later now host path payload s in
    lift-cases G (require_spark_provider_enabled o) _ s (λ e. inl refl)
      (λ enabled on.
        lift-cases G (canonical_spark_username_for_route o payload.username) _ s (λ e. inl refl)
          (λ name is_name.
            lift-cases G (validate_description payload.description) _ s (λ e. inl refl)
              (λ short fits.
                lift-cases G (sanitize_domain o host s.domains) _ s (λ e. inl refl)
                  (λ domain is_domain.
                    lift-cases G (parse_signed_request o payload.from_pubkey payload.from_signature)
                      _ s (λ e. inl refl)
                      (λ from is_from.
                        lift-cases G (parse_signed_request o path payload.to_signature) _ s
                          (λ e. inl refl)
                          (λ to is_to.
                            lift-cases G (ok_or payload.timestamp transfer_requires_v2) _ s
                              (λ e. inl refl)
                              (λ timestamp is_at.
                                lift-cases G (timely o (λ e. transfer_expired) now timestamp) _ s
                                  (λ e. inl refl)
                                  (λ u in_time.
                                    let both =
                                      transfer_candidates o domain name from.0 to.0
                                        payload.description timestamp in
                                    verifies-cases G o from.0 from.1 both.0 domain _ s
                                      (λ e counts. inl refl)
                                      (λ c counts signed.
                                        verifies-cases G o to.0 to.1 both.1 domain _
                                          (record s { counts = counts }) (λ e counts'. inl refl)
                                          (λ d counts' accepted.
                                            let h : Handover = record {
                                              name = name;
                                              domain = domain;
                                              from = from.0;
                                              from_signature = from.1;
                                              to = to.0;
                                              to_signature = to.1;
                                              timestamp = timestamp;
                                            } in
                                            elim (hand_over-Serves o env later now
                                              payload.description h c
                                              (record s { counts = counts' })
                                              (map_err-ok _ _ in_time)) [
                                                | inl refused ↦ inl refused
                                                | inr over ↦ inr (
                                                  h,
                                                  c,
                                                  (
                                                    is_name,
                                                    is_domain,
                                                    is_from,
                                                    is_to,
                                                    is_at,
                                                    signed,
                                                    (d, accepted),
                                                  ),
                                                  over,
                                                )
                                              ]))))))))))
