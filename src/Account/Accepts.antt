-- ===== src/Account/Accepts.antt =====
-- When `register` of src/routes/account.rs does not refuse a request by itself.
use blink_lnurl_server.Prelude.{
  ℕ, ◌≡◌, ◌≤◌, refl, arith, ap, true, false, ◌||◌, Option, none, some, List, [], ◌++◌, length, take,
  length-take-le, ltb, Bool-cases, inl, inr, if◌then◌else◌, Text, text, Result, ok, map_err,
  refuse_if,
}
use blink_lnurl_server.RateLimit.{IpAddr}
use blink_lnurl_server.Repository.{anon, has_mode, SparkAccountMode, NewSparkRegistration}
use blink_lnurl_server.Sqlite.Tables.{Db, Env}
use blink_lnurl_server.Sqlite.Mode.{get_spark_account_mode}
use blink_lnurl_server.Sqlite.History.{registers, step, run}
use blink_lnurl_server.Signed.{
  Candidate, register, breez_v2, legacy, check_timestamp, verify_candidates, statement_claim,
  route_str,
}
use blink_lnurl_server.Signed.Window.{check_timestamp_iff}
use blink_lnurl_server.Account.{
  Server, ApiError, Outside, stored_account_mode, require_spark_provider_enabled,
  validate_description, signed_error, enhanced_mode_required, spark_registration_error,
  canonical_spark_username_for_route, sanitize_domain, parse_pubkey, parse_signed_request,
}
use blink_lnurl_server.Account.Handlers.{
  RegisterRequest, Registered, registered, registration, register_candidates, register_route,
}
use blink_lnurl_server.Account.Laws.{lift-ok, verifies-ok}
use blink_lnurl_server.Account.Spec.{
  IsInWindow, IsNotAnon, IsName, IsDomain, ReadsAs, Asks, old_text, registers_name,
}
use blink_lnurl_server.Account.Serves.{Asked, IsAsked, Serves, writes-Serves, spawn-outcome}

-- The checks of the code in their order, and the call that follows them.
register-passed :
    (o : Outside) (env : Env) (now : ℕ) (host path : Text) (request_ip : Option IpAddr)
    (payload : RegisterRequest) (s : Server) (a : Asked) (c : Candidate)
    → require_spark_provider_enabled o ≡ ok tt
    → validate_description payload.description ≡ ok tt
    → IsAsked o s.domains payload.username host path payload.signature a
    → check_timestamp o.validity now payload.timestamp ≡ ok tt
    → (verify_candidates
        (o.verify_message a.pubkey a.signature)
        (register_candidates o a.domain a.name payload.description payload.timestamp)
        (some a.domain)
        s.counts).0
      ≡ ok c
    → has_mode anon (stored_account_mode a.pubkey s.db) ≡ false
    → Serves o.validity now payload.timestamp
        (registers env
          (registration o a.domain a.name a.pubkey payload.description payload.timestamp c))
        []
        s.db
        (register_route o env now host path request_ip payload s)
unfolding register_route step run
register-passed o env now host path ip payload s a c on short asked in_time signed named =
    let call =
      registers env
        (registration o a.domain a.name a.pubkey payload.description payload.timestamp c) in
    let G : Result ApiError Registered × Server → Type 0 =
      Serves o.validity now payload.timestamp call [] s.db in
    let (is_name, is_domain, is_key) = asked in
    lift-ok G _ s on (
      lift-ok G _ s is_name (
        lift-ok G _ s short (
          lift-ok G _ s is_domain (
            lift-ok G _ s is_key (
              lift-ok G _ s (ap (map_err signed_error) in_time) (
                verifies-ok G o a.pubkey a.signature
                  (register_candidates o a.domain a.name payload.description payload.timestamp)
                  a.domain _ s signed
                  (λ counts.
                    let mode = stored_account_mode a.pubkey s.db in
                    lift-ok G _ (record s { counts = counts })
                      (ap (λ b. refuse_if b enhanced_mode_required) named)
                      (writes-Serves o.validity now payload.timestamp call []
                        spark_registration_error _ (record s { counts = counts }) in_time
                        (λ s'.
                          spawn-outcome o a.pubkey mode ip (registered a.domain a.name) s')))))))))

not_beyond : (n m : ℕ) → n ≤ m → m ≤ 255 → ltb 255 n ≡ false
not_beyond n m h k = ground arith

module _ (o : Outside) where
  passes_length : (d : Text) → length d ≤ 255 → validate_description d ≡ ok tt
  unfolding validate_description
  passes_length d h = rw (not_beyond (length (take 256 d)) (length d) (length-take-le 256 d) h) refl

  passes_name :
      (value name : Text)
      → IsName o value name
      → canonical_spark_username_for_route o value ≡ ok name
  unfolding canonical_spark_username_for_route
  passes_name value name h = rw h refl

  passes_domain :
      (domains : List Text) (host domain : Text)
      → IsDomain o domains host domain
      → sanitize_domain o host domains ≡ ok domain
  unfolding sanitize_domain
  passes_domain domains host domain (same, allowed) = rw (← same) (rw allowed refl)

  passes_key :
      (path hex pubkey : Text) (signature : List ℕ)
      → ReadsAs o path hex pubkey signature
      → parse_signed_request o path hex ≡ ok (pubkey, signature)
  unfolding parse_signed_request parse_pubkey
  passes_key path hex pubkey signature ((b, d, k), (b', d', k')) =
      rw (d, k, d', k', parse_signed_request, parse_pubkey) refl

passes_mode :
    (pubkey : Text) (db : Db)
    → IsNotAnon (get_spark_account_mode pubkey db)
    → has_mode anon (stored_account_mode pubkey db) ≡ false
unfolding stored_account_mode
passes_mode pubkey db h = of_mode (get_spark_account_mode pubkey db) h
  where
    of_mode :
        (m : Option SparkAccountMode)
        → IsNotAnon m
        → has_mode anon (elim m [ none ↦ none | some r ↦ r.mode ]) ≡ false
    of_mode none h = refl
    of_mode (some r) h = h

-- The new text of a registration, as the request gives it.
abbrev pub new_text : Outside → Asked → RegisterRequest → Text
new_text o a payload = o.register_message a.domain a.name payload.description payload.timestamp

-- The registration under the new text if the signature is over it, and otherwise under the old one,
-- with the usual description.
abbrev pub signed_registration : Outside → Asked → RegisterRequest → NewSparkRegistration
signed_registration o a payload =
    if o.verify_message a.pubkey a.signature (new_text o a payload)
    then registers_name o a payload.description (new_text o a payload) payload.timestamp
    else registers_name o a (text "Pay to " ++ a.name ++ text "@" ++ a.domain)
        (old_text a.name payload.timestamp) payload.timestamp

-- A registration, run alone, is served, if Spark is enabled, the description has at most 255
-- characters, the username, the host, the pubkey and the signature can be read, the timestamp is in
-- the window, the account is not anonymous, and the signature is over the new or the old text: the
-- new one counts first, and only it covers the description of the request.
pub register-served :
    (o : Outside) (env : Env) (now : ℕ) (host path : Text) (request_ip : Option IpAddr)
    (payload : RegisterRequest) (s : Server) (a : Asked)
    → o.spark_enabled ≡ true
    → length payload.description ≤ 255
    → Asks o s.domains payload.username host path payload.signature a
    → IsInWindow o.validity now payload.timestamp
    → (o.verify_message a.pubkey a.signature (new_text o a payload)
        || o.verify_message a.pubkey a.signature (old_text a.name payload.timestamp))
      ≡ true
    → IsNotAnon (get_spark_account_mode a.pubkey s.db)
    → Serves o.validity now payload.timestamp
        (registers env (signed_registration o a payload))
        []
        s.db
        (register_route o env now host path request_ip payload s)
unfolding require_spark_provider_enabled verify_candidates register_candidates registration
    statement_claim route_str
register-served o env now host path ip payload s a on short asks window signed mode =
    let (name, domain, key) = asks in
    let passed = λ (c : Candidate).
      register-passed o env now host path ip payload s a c (rw on refl)
        (passes_length o payload.description short)
        (passes_name o _ _ name, passes_domain o _ _ _ domain, passes_key o _ _ _ _ key)
        ((check_timestamp_iff o.validity now payload.timestamp).0.1 window) in
    let named = passes_mode a.pubkey s.db mode in
    elim (Bool-cases (o.verify_message a.pubkey a.signature (new_text o a payload))) [
      | inl new ↦ rw new (
          passed (record { message = new_text o a payload; route = register; format = breez_v2 })
            (rw new refl) named)
      | inr old ↦
          let verified : o.verify_message a.pubkey a.signature (old_text a.name payload.timestamp)
              ≡ true =
            ground arith in
          rw old (
            passed
              (record {
                message = old_text a.name payload.timestamp;
                route = register;
                format = legacy;
              })
              (rw old (rw verified refl)) named)
    ]
