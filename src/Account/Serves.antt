-- ===== src/Account/Serves.antt =====
-- The handlers of src/routes/account.rs against the abstract service of signed requests, `serve`:
-- one call to the repository, with a claim on the statement that the signature covers.
use blink_lnurl_server.Prelude.{
  ℕ, ◌≡◌, refl, sym, ap, ◌∙◌, Bool, true, false, ◌⊎◌, inl, inr, Option, none, some, List, [], Text,
  Result, ok, err, map_err, refuse_if, Bool-cases,
}
use blink_lnurl_server.RateLimit.{IpAddr}
use blink_lnurl_server.Repository.{LnurlRepositoryError, AccountMode, enhanced, anon, has_mode}
use blink_lnurl_server.Sqlite.Tables.{Db, Env}
use blink_lnurl_server.Sqlite.History.{Call, registers, step, run}
use blink_lnurl_server.Signed.{Candidate, requests, check_timestamp, serve, answered}
use blink_lnurl_server.Account.{
  Server, ApiError, Handler, Outside, ◌>>◌, continue, lift, writes, stored_account_mode,
  require_spark_provider_enabled, validate_description, canonical_spark_username_for_route,
  sanitize_domain, parse_signed_request, signed_error, timely, spawn_country_evidence_refresh,
  enhanced_mode_required, spark_registration_error,
}
use blink_lnurl_server.Account.Handlers.{
  RegisterRequest, Registered, registered, registration, register_candidates, register_route,
}
use blink_lnurl_server.Account.Laws.{IsVerified, lift-cases, verifies-cases}

-- Whether the answer is a success, and the database.
abbrev pub outcome : {A : Type 0} → Result ApiError A × Server → Bool × Db
outcome (ok a, s) = (true, s.db)
outcome (err e, s) = (false, s.db)

-- An error answer that leaves the database as it was.
abbrev pub Refuses : {A : Type 0} → Db → Result ApiError A × Server → Type 0
Refuses db out = outcome out ≡ (false, db)

-- Who asks for what: the name, the domain, the pubkey and the signature of a request.
pub record Asked : Type 0 where
  pub name : Text
  pub domain : Text
  pub pubkey : Text
  pub signature : List ℕ

-- What the username, the host, and the pubkey and signature of a request are read as.
abbrev pub IsAsked : Outside → List Text → Text → Text → Text → Text → Asked → Type 0
IsAsked o domains username host pubkey signature a =
    (canonical_spark_username_for_route o username ≡ ok a.name)
    × (sanitize_domain o host domains ≡ ok a.domain)
    × (parse_signed_request o pubkey signature ≡ ok (a.pubkey, a.signature))

-- The calls that a handler makes once its request is served.
abbrev pub followed : List Call → Bool × Db → Bool × Db
followed more (true, db) = (true, run more db)
followed more (false, db) = (false, db)

-- The answer and the database are those of the abstract service, with `more` after a success.
abbrev pub Serves :
    {A : Type 0} → ℕ → ℕ → ℕ → Call → List Call → Db → Result ApiError A × Server → Type 0
Serves validity now timestamp call more db out =
    outcome out ≡ followed more (serve validity (requests now timestamp call) db)

pub map_err-ok :
    {E F A : Type 0} (f : E → F) (r : Result E A) {a : A} → map_err f r ≡ ok a → r ≡ ok a
map_err-ok f (err e) h = cc
map_err-ok f (ok a) h = cc

after_write :
    {B : Type 0} (r : Result LnurlRepositoryError (Unit {0}) × Db) (more : List Call)
    (as_error : LnurlRepositoryError → ApiError) (next : Handler B) (s : Server)
    → ((s' : Server) → outcome (next s') ≡ (true, run more s'.db))
    → outcome (continue (map_err as_error r.0, record s { db = r.1 }) (λ u. next))
      ≡ followed more (answered r)
after_write (err e, db) more as_error next s h = refl
after_write (ok u, db) more as_error next s h = h (record s { db = db })

in_time-serve :
    (validity now timestamp : ℕ) (call : Call) (db : Db)
    → check_timestamp validity now timestamp ≡ ok tt
    → serve validity (requests now timestamp call) db ≡ answered (step call db)
unfolding serve
in_time-serve validity now timestamp call db in_time = rw (in_time, serve) refl

-- A write of a request in time, and what follows it.
pub writes-Serves :
    {B : Type 0} (validity now timestamp : ℕ) (call : Call) (more : List Call)
    (as_error : LnurlRepositoryError → ApiError) (next : Handler B) (s : Server)
    → check_timestamp validity now timestamp ≡ ok tt
    → ((s' : Server) → outcome (next s') ≡ (true, run more s'.db))
    → Serves validity now timestamp call more s.db ((writes (step call) as_error >> next) s)
writes-Serves validity now timestamp call more as_error next s in_time h =
    after_write (step call s.db) more as_error next s h
    ∙ ap (followed more) (sym (in_time-serve validity now timestamp call s.db in_time))

pub refused_not : {E : Type 0} (b : Bool) (e : E) → refuse_if b e ≡ ok tt → b ≡ false
refused_not true e h = cc
refused_not false e h = refl

pub spawn-outcome :
    {A : Type 0} (o : Outside) (pubkey : Text) (mode : Option AccountMode) (ip : Option IpAddr)
    (a : A) (s : Server)
    → outcome ((spawn_country_evidence_refresh o pubkey mode ip >> lift (ok a)) s) ≡ (true, s.db)
unfolding spawn_country_evidence_refresh
spawn-outcome o pubkey none ip a s = refl
spawn-outcome o pubkey (some anon) ip a s = refl
spawn-outcome o pubkey (some enhanced) ip a s = elim (Bool-cases o.resolver_enabled) [
  | inl on ↦ rw on refl
  | inr off ↦ rw off refl
]

unfoldable pub RegisterSteps :
    Outside
    → Env
    → ℕ
    → Text
    → Text
    → RegisterRequest
    → Server
    → Result ApiError Registered × Server
    → Type 0
RegisterSteps o env now host path payload s out =
    Refuses s.db out
    ⊎ ((a : Asked) × (c : Candidate) × IsAsked o s.domains payload.username host path
          payload.signature a
        × IsVerified (o.verify_message a.pubkey a.signature) c
            (register_candidates o a.domain a.name payload.description payload.timestamp)
        × (has_mode anon (stored_account_mode a.pubkey s.db) ≡ false)
        × (check_timestamp o.validity now payload.timestamp ≡ ok tt)
        × Serves o.validity now payload.timestamp
            (registers env
              (registration o a.domain a.name a.pubkey payload.description payload.timestamp c))
            [] s.db out)

-- A registration is refused with the database as it was, or it is the service of one request: of
-- the name, domain and pubkey that the request is read as, with the claim of a candidate over which
-- the signature verifies, by an account that is not anonymous.
pub register-Steps :
    (o : Outside) (env : Env) (now : ℕ) (host path : Text) (request_ip : Option IpAddr)
    (payload : RegisterRequest) (s : Server)
    → RegisterSteps o env now host path payload s
        (register_route o env now host path request_ip payload s)
unfolding register_route RegisterSteps step run
register-Steps o env now host path request_ip payload s =
    let G = RegisterSteps o env now host path payload s in
    lift-cases G (require_spark_provider_enabled o) _ s (λ e. inl refl)
      (λ enabled on.
        lift-cases G (canonical_spark_username_for_route o payload.username) _ s (λ e. inl refl)
          (λ name is_name.
            lift-cases G (validate_description payload.description) _ s (λ e. inl refl)
              (λ short fits.
                lift-cases G (sanitize_domain o host s.domains) _ s (λ e. inl refl)
                  (λ domain is_domain.
                    lift-cases G (parse_signed_request o path payload.signature) _ s (λ e. inl refl)
                      (λ key is_key.
                        lift-cases G (timely o signed_error now payload.timestamp) _ s
                          (λ e. inl refl)
                          (λ u in_time.
                            verifies-cases G o key.0 key.1
                              (register_candidates o domain name payload.description
                                payload.timestamp)
                              domain _ s (λ e counts. inl refl)
                              (λ c counts verified.
                                let s' = record s { counts = counts } in
                                let mode = stored_account_mode key.0 s.db in
                                lift-cases G (refuse_if (has_mode anon mode) enhanced_mode_required)
                                  _ s' (λ e. inl refl)
                                  (λ v named. inr (
                                    record {
                                      name = name;
                                      domain = domain;
                                      pubkey = key.0;
                                      signature = key.1;
                                    },
                                    c,
                                    (is_name, is_domain, is_key),
                                    verified,
                                    refused_not _ _ named,
                                    map_err-ok signed_error _ in_time,
                                    writes-Serves o.validity now payload.timestamp
                                        (registers env (
                                          registration o domain name key.0 payload.description
                                            payload.timestamp c))
                                        [] spark_registration_error _ s'
                                        (map_err-ok signed_error _ in_time)
                                        (λ s''.
                                          spawn-outcome o key.0 mode request_ip
                                            (registered domain name) s''),
                                  )))))))))
