-- ===== src/Account/Recover.antt =====
-- `recover` of src/routes/account.rs, with the message of src/signed_message.rs.
use blink_lnurl_server.Prelude.{
  ℕ, ◌≡◌, refl, false, ◌⊎◌, inl, inr, Option, none, some, List, [], ◌∷◌, ◌++◌, Text, text, Result,
  ok, err, refuse_if, is_none, Bool-cases, ◌&&◌, if◌then◌else◌,
}
use blink_lnurl_server.RateLimit.{IpAddr}
use blink_lnurl_server.Repository.{AccountMode, enhanced, anon, has_mode, SparkUsername}
use blink_lnurl_server.Repository.Names.{mode_as_str}
use blink_lnurl_server.Sqlite.Recipient.{get_account_by_spark_pubkey, get_spark_username_by_pubkey}
use blink_lnurl_server.Signed.{
  Candidate, check_timestamp, MessageFormat, recover, breez_v2, blink_v1, legacy,
}
use blink_lnurl_server.Account.{
  Server, ApiError, Handler, Outside, ◌>>=◌, ◌>>◌, lift, reads, user_not_found, stored_account_mode,
  legacy_timestamped, decimal, digits, sanitize_domain, parse_signed_request, timely, verifies,
  signed_error, spawn_country_evidence_refresh, Refresh,
}
use blink_lnurl_server.Account.Laws.{IsVerified, lift-cases, verifies-cases}
use blink_lnurl_server.Account.Serves.{refused_not, map_err-ok}

pub record RecoverRequest : Type 0 where
  pub signature : Text
  pub timestamp : ℕ

pub record RecoverResponse : Type 0 where
  pub lnurl : Option Text
  pub lightning_address : Option Text
  pub username : Option Text
  pub description : Option Text
  pub mode : Option Text

-- The message that the Blink app signs: its fields joined by LF.
unfoldable pub blink_recover : Text → Text → ℕ → Text
unfolding digits
blink_recover domain pubkey timestamp =
    text "blink-lnurl:v1"
    ++ 0xa ∷ text "recover"
    ++ 0xa ∷ domain
    ++ 0xa ∷ pubkey
    ++ 0xa ∷ decimal timestamp

-- The answer by the address, the mode, and the format of the message that was signed.
unfoldable pub recover_answer :
    Option SparkUsername → Option AccountMode → MessageFormat → Result ApiError RecoverResponse
unfolding mode_as_str
recover_answer (some user) mode format = ok (record {
  lnurl = some (text "lnurlp://" ++ user.domain ++ text "/lnurlp/" ++ user.username);
  lightning_address = some (user.username ++ text "@" ++ user.domain);
  username = some user.username;
  description = some user.description;
  mode = elim mode [ none ↦ none | some m ↦ some (mode_as_str m) ];
})
recover_answer none (some mode) breez_v2 = err user_not_found
recover_answer none (some mode) format = ok (record {
  lnurl = none;
  lightning_address = none;
  username = none;
  description = none;
  mode = some (mode_as_str mode);
})
recover_answer none none format = err user_not_found

module _ (o : Outside) where
  -- `path` is the segment of the route, from which the legacy message was made.
  unfoldable pub recover_candidates : Text → Text → Text → ℕ → List Candidate
  unfolding legacy_timestamped blink_recover
  recover_candidates domain pubkey path timestamp =
      record {
        message = o.recover_message domain pubkey timestamp;
        route = recover;
        format = breez_v2;
      }
      ∷ record {
        message = blink_recover domain pubkey timestamp;
        route = recover;
        format = blink_v1;
      }
      ∷ record { message = legacy_timestamped path timestamp; route = recover; format = legacy }
      ∷ []

  unfoldable pub recover_route :
      ℕ → Text → Text → Option IpAddr → RecoverRequest → Handler RecoverResponse
  unfolding recover_candidates recover_answer stored_account_mode sanitize_domain
      parse_signed_request spawn_country_evidence_refresh
  recover_route now host path request_ip payload = do
    domains ← reads (λ s. s.domains)
    domain ← lift (sanitize_domain o host domains)
    (pubkey, signature) ← lift (parse_signed_request o path payload.signature)
    lift (timely o signed_error now payload.timestamp)
    matched ←
        verifies o pubkey signature (recover_candidates domain pubkey path payload.timestamp) domain
    account ← reads (λ s. get_account_by_spark_pubkey pubkey s.db)
    lift (refuse_if (is_none account) user_not_found)
    mode ← reads (λ s. stored_account_mode pubkey s.db)
    spawn_country_evidence_refresh o pubkey mode request_ip
    user ← reads (λ s. get_spark_username_by_pubkey domain pubkey s.db)
    lift (recover_answer user mode matched.format)

-- The tasks that the server has after a request: one more where the account is enhanced and countries
-- are looked up.
abbrev pub spawned_after :
    Outside → Text → Option AccountMode → Option IpAddr → List Refresh → List Refresh
spawned_after o pubkey mode ip spawned =
    if has_mode enhanced mode && o.resolver_enabled
    then record { pubkey = pubkey; request_ip = ip } ∷ spawned
    else spawned

unfoldable pub RecoverSteps :
    Outside
    → ℕ
    → Text
    → Text
    → Option IpAddr
    → RecoverRequest
    → Server
    → Result ApiError RecoverResponse × Server
    → Type 0
RecoverSteps o now host path ip payload s out =
    (out.1.db ≡ s.db)
    × ((((e : ApiError) × (out.0 ≡ err e)) × (out.1.spawned ≡ s.spawned))
        ⊎ ((domain : Text) × (key : Text × List ℕ) × (c : Candidate) × (sanitize_domain o host
                s.domains
              ≡ ok domain)
            × (parse_signed_request o path payload.signature ≡ ok key)
            × (check_timestamp o.validity now payload.timestamp ≡ ok tt)
            × IsVerified (o.verify_message key.0 key.1) c
                (recover_candidates o domain key.0 path payload.timestamp)
            × (is_none (get_account_by_spark_pubkey key.0 s.db) ≡ false)
            × (out.0
                ≡ recover_answer (get_spark_username_by_pubkey domain key.0 s.db)
                    (stored_account_mode key.0 s.db) c.format)
            × (out.1.spawned
                ≡ spawned_after o key.0 (stored_account_mode key.0 s.db) ip s.spawned)))

spawn-spawned :
    {B : Type 0} (o : Outside) (pubkey : Text) (mode : Option AccountMode) (ip : Option IpAddr)
    (G : Result ApiError B × Server → Type 0) (next : Handler B) (s : Server)
    → G (next (record s { spawned = spawned_after o pubkey mode ip s.spawned }))
    → G ((spawn_country_evidence_refresh o pubkey mode ip >> next) s)
unfolding spawn_country_evidence_refresh
spawn-spawned o pubkey none ip G next s g = g
spawn-spawned o pubkey (some anon) ip G next s g = g
spawn-spawned o pubkey (some enhanced) ip G next s g = elim (Bool-cases o.resolver_enabled) [
  | inl on ↦ rw on (rw on at g)
  | inr off ↦ rw off (rw off at g)
]

pub recover-Steps :
    (o : Outside) (now : ℕ) (host path : Text) (request_ip : Option IpAddr)
    (payload : RecoverRequest) (s : Server)
    → RecoverSteps o now host path request_ip payload s
        (recover_route o now host path request_ip payload s)
unfolding recover_route RecoverSteps
recover-Steps o now host path ip payload s =
    let G = RecoverSteps o now host path ip payload s in
    lift-cases G (sanitize_domain o host s.domains) _ s (λ e. (refl, inl ((e, refl), refl)))
      (λ domain is_domain.
        lift-cases G (parse_signed_request o path payload.signature) _ s
          (λ e. (refl, inl ((e, refl), refl)))
          (λ key is_key.
            lift-cases G (timely o signed_error now payload.timestamp) _ s
              (λ e. (refl, inl ((e, refl), refl)))
              (λ u in_time.
                verifies-cases G o key.0 key.1
                  (recover_candidates o domain key.0 path payload.timestamp) domain _ s
                  (λ e counts. (refl, inl ((e, refl), refl)))
                  (λ c counts verified.
                    let s' = record s { counts = counts } in
                    let mode = stored_account_mode key.0 s.db in
                    lift-cases G
                      (refuse_if (is_none (get_account_by_spark_pubkey key.0 s.db)) user_not_found)
                      _ s' (λ e. (refl, inl ((e, refl), refl)))
                      (λ v known. spawn-spawned o key.0 mode ip G _ s' (
                        refl,
                        inr (
                          domain,
                          key,
                          c,
                          is_domain,
                          is_key,
                          map_err-ok signed_error _ in_time,
                          verified,
                          refused_not _ _ known,
                          refl,
                          refl,
                        ),
                      ))))))
