-- ===== src/Account/Refines.antt =====
-- The handlers of src/routes/account.rs refine the service of signed requests, `serve`: one call to
-- the repository, with a claim on a text that the signature covers.
use mathlib.Core.Path.{subst}
use blink_lnurl_server.Prelude.{
  ℕ, ◌≡◌, refl, ◌⊎◌, inl, inr, some, [], ◌∷◌, ◌++◌, true, false, Option, Text, text, ◌==◌, eq_iff,
  ap, Result, ok, err, none, if◌then◌else◌,
}
use blink_lnurl_server.RateLimit.{IpAddr}
use blink_lnurl_server.Repository.{ResolvedRecipient, LnurlRepositoryError, source_not_owner}
use blink_lnurl_server.Sqlite.Tables.{Db, Env}
use blink_lnurl_server.Sqlite.Recipient.{resolve_recipient_by_identifier}
use blink_lnurl_server.Sqlite.Mode.{get_spark_account_mode}
use blink_lnurl_server.Sqlite.History.{registers, unregisters, transfers, enhances}
use blink_lnurl_server.Signed.{Candidate, statement_claim, route_str}
use blink_lnurl_server.Account.{Server, ApiError, Outside, claim_for, spark_transfer_error}
use blink_lnurl_server.Account.Handlers.{
  RegisterRequest, UnregisterRequest, TransferRequest, Registered, registration,
  register_candidates, unregister_candidates, transfer_candidates, register_route, unregister_route,
  transfer_route, source_recipient, is_spark_owner,
}
use blink_lnurl_server.Account.Laws.{IsVerified}
use blink_lnurl_server.Account.Serves.{Refuses, Asked, Serves, RegisterSteps, register-Steps}
use blink_lnurl_server.Account.Moves.{
  UnregisterSteps, unregister-Steps, Handover, handed, TransferSteps, transfer-Steps,
}
use blink_lnurl_server.Account.Spec.{
  IsInWindow, IsName, IsDomain, ReadsAs, IsNotAnon, old_text, Asks, claim_on, registers_name,
  reads-IsName, reads-IsDomain, reads_key, ok_or-ok, allowed-ok, in_window, not_anon,
}

-- What may be signed for a registration, with the description that it gives: that of the request
-- where the text covers it, and otherwise the usual one.
abbrev pub IsRegisterText : Outside → Asked → RegisterRequest → Text → Text → Type 0
IsRegisterText o a payload message description =
    ((message ≡ o.register_message a.domain a.name payload.description payload.timestamp)
      × (description ≡ payload.description))
    ⊎ ((message ≡ old_text a.name payload.timestamp)
        × (description ≡ text "Pay to " ++ a.name ++ text "@" ++ a.domain))

pub RegisterServes :
    Outside
    → Env
    → ℕ
    → Text
    → Text
    → RegisterRequest
    → Server
    → Result ApiError Registered × Server
    → Type 0
RegisterServes o env now host path payload s out =
    Refuses s.db out
    ⊎ ((a : Asked) × (message description : Text) × Asks o s.domains payload.username host path
          payload.signature a
        × (o.verify_message a.pubkey a.signature message ≡ true)
        × IsRegisterText o a payload message description
        × IsInWindow o.validity now payload.timestamp
        × IsNotAnon (get_spark_account_mode a.pubkey s.db)
        × Serves o.validity now payload.timestamp
            (registers env (registers_name o a description message payload.timestamp)) [] s.db out)

verified_registration :
    (o : Outside) (a : Asked) (payload : RegisterRequest) (c : Candidate)
    → IsVerified
        (o.verify_message a.pubkey a.signature)
        c
        (register_candidates o a.domain a.name payload.description payload.timestamp)
    → (message description : Text) × (o.verify_message a.pubkey a.signature message ≡ true)
      × IsRegisterText o a payload message description
      × (registration o a.domain a.name a.pubkey payload.description payload.timestamp c
          ≡ registers_name o a description message payload.timestamp)
unfolding IsVerified register_candidates registration statement_claim route_str
verified_registration o a payload c (inl (same, signed)) =
    (_, payload.description, signed, inl (refl, refl), rw same refl)
verified_registration o a payload c (inr (inl (same, signed))) =
    (_, _, signed, inr (refl, refl), rw same refl)
verified_registration o a payload c (inr (inr none_left)) = absurd none_left

-- A registration, run alone, is refused with the database as it was, or it is the service of one
-- request, in the window of its timestamp: of the name, domain and pubkey that the request is read
-- as, by an account that is not anonymous, with the claim of a text of a registration over which
-- the signature verifies, and the description of the request only if that text is the new one.
pub register-Serves :
    (o : Outside) (env : Env) (now : ℕ) (host path : Text) (request_ip : Option IpAddr)
    (payload : RegisterRequest) (s : Server)
    → RegisterServes o env now host path payload s
        (register_route o env now host path request_ip payload s)
unfolding RegisterSteps RegisterServes
register-Serves o env now host path request_ip payload s =
    elim (register-Steps o env now host path request_ip payload s) [
      | inl refused ↦ inl refused
      | inr (a, c, (name, domain, key), verified, mode, in_time, served) ↦
          let (message, description, signed, covers, same) =
            verified_registration o a payload c verified in
          inr (
            a,
            message,
            description,
            (reads-IsName o _ _ name, reads-IsDomain o _ _ _ domain, reads_key o _ _ _ _ key),
            signed,
            covers,
            in_window _ _ _ in_time,
            not_anon a.pubkey s.db mode,
            subst
                (λ r.
                  Serves o.validity now payload.timestamp (registers env r) [] s.db
                    (register_route o env now host path request_ip payload s))
                same served,
          )
    ]

pub UnregisterServes :
    Outside
    → Env
    → ℕ
    → Text
    → Text
    → UnregisterRequest
    → Server
    → Result ApiError (Unit {0}) × Server
    → Type 0
UnregisterServes o env now host path payload s out =
    Refuses s.db out
    ⊎ ((a : Asked) × Asks o s.domains payload.username host path payload.signature a
        × (o.verify_message a.pubkey a.signature
              (o.unregister_message a.domain a.name payload.timestamp)
            ≡ true)
        × IsInWindow o.validity now payload.timestamp
        × Serves o.validity now payload.timestamp
            (unregisters env a.domain a.pubkey a.name (
              some (
                claim_on o a.pubkey a.domain
                  (o.unregister_message a.domain a.name payload.timestamp) (text "unregister")
                  payload.timestamp)))
            [] s.db out)

-- A removal, run alone, is refused with the database as it was, or it is the service of one
-- request, in the window of its timestamp: of the name, domain and pubkey that the request is read
-- as, with the claim of the new text of a removal, over which the signature verifies. No other text
-- will do.
pub unregister-Serves :
    (o : Outside) (env : Env) (now : ℕ) (host path : Text) (payload : UnregisterRequest)
    (s : Server)
    → UnregisterServes o env now host path payload s
        (unregister_route o env now host path payload s)
unfolding IsVerified unregister_candidates statement_claim route_str UnregisterSteps
    UnregisterServes
unregister-Serves o env now host path payload s =
    elim (unregister-Steps o env now host path payload s) [
      | inl refused ↦ inl refused
      | inr (a, c, (name, domain, key), inl (same, signed), in_time, served) ↦ inr (
        a,
        (reads-IsName o _ _ name, reads-IsDomain o _ _ _ domain, reads_key o _ _ _ _ key),
        signed,
        in_window _ _ _ in_time,
        subst
            (λ d.
              Serves o.validity now payload.timestamp
                (unregisters env a.domain a.pubkey a.name
                  (some (claim_for o a.pubkey a.domain d payload.timestamp)))
                [] s.db (unregister_route o env now host path payload s))
            same served,
      )
      | inr (a, c, asks, inr none_left, in_time, served) ↦ absurd none_left
    ]

-- Who hands which name to whom, when, in the terms of the request and of the server.
abbrev pub AsksHandover : Outside → Text → Text → TransferRequest → Server → Handover → Type 0
AsksHandover o host path payload s h =
    IsName o payload.username h.name
    × IsDomain o s.domains host h.domain
    × ReadsAs o payload.from_pubkey payload.from_signature h.from h.from_signature
    × ReadsAs o path payload.to_signature h.to h.to_signature
    × (payload.timestamp ≡ some h.timestamp)

-- Each side has signed the text for its role.
abbrev pub AreSigned : Outside → Text → Handover → Type 0
AreSigned o description h =
    (o.verify_message h.from h.from_signature
        (o.transfer_from h.domain h.name h.from h.to h.timestamp)
      ≡ true)
    × (o.verify_message h.to h.to_signature
          (o.transfer_to h.domain h.name h.from h.to description h.timestamp)
        ≡ true)

pub TransferServes :
    Outside
    → Env
    → Env
    → ℕ
    → Text
    → Text
    → TransferRequest
    → Server
    → Result ApiError Registered × Server
    → Type 0
TransferServes o env later now host path payload s out =
    Refuses s.db out
    ⊎ ((h : Handover) × (source : ResolvedRecipient) × AsksHandover o host path payload s h
        × AreSigned o payload.description h
        × IsInWindow o.validity now h.timestamp
        × ((h.from == h.to) ≡ false)
        × IsNotAnon (get_spark_account_mode h.to s.db)
        × (resolve_recipient_by_identifier h.domain h.name s.db ≡ ok (some source))
        × (source.spark_pubkey ≡ some h.from)
        × Serves o.validity now h.timestamp
            (transfers env (record {
              domain = h.domain;
              identifier = h.name;
              source_account_id = source.account_id;
              destination_spark_pubkey = h.to;
              description = payload.description;
              claim = some (
                  claim_on o h.from h.domain
                    (o.transfer_from h.domain h.name h.from h.to h.timestamp) (text "transfer")
                    h.timestamp);
            }))
            (enhances later h.to ∷ []) s.db out)

owner-is :
    (from : Text) (owner : Option Text) → is_spark_owner from owner ≡ true → owner ≡ some from
unfolding is_spark_owner
owner-is from none h = cc
owner-is from (some owner) h = ap some ((eq_iff owner from).0 h)

found-owns :
    (from : Text) (r : Result LnurlRepositoryError (Option ResolvedRecipient))
    (source : ResolvedRecipient)
    → elim r as (λ x. Result ApiError ResolvedRecipient) [
      | err e ↦ err (spark_transfer_error e)
      | ok none ↦ err (spark_transfer_error source_not_owner)
      | ok (some x) ↦
          if is_spark_owner from x.spark_pubkey
          then ok x
          else err (spark_transfer_error source_not_owner)
    ]
      ≡ ok source
    → (r ≡ ok (some source)) × (source.spark_pubkey ≡ some from)
found-owns from (err e) source h = cc
found-owns from (ok none) source h = cc
found-owns from (ok (some x)) source h =
    let (own, same) = allowed-ok (is_spark_owner from x.spark_pubkey) x source _ h in
    (
      rw same refl,
      subst (λ (y : ResolvedRecipient). y.spark_pubkey ≡ some from) same
          (owner-is from x.spark_pubkey own),
    )

owns :
    (o : Outside) (domain name from : Text) (db : Db) (source : ResolvedRecipient)
    → source_recipient o domain name from db ≡ ok source
    → (resolve_recipient_by_identifier domain name db ≡ ok (some source))
      × (source.spark_pubkey ≡ some from)
unfolding source_recipient
owns o domain name from db source h =
    found-owns from (resolve_recipient_by_identifier domain name db) source h

-- A transfer, run alone, is refused with the database as it was, or it is the service of one
-- request, in the window of its timestamp, after which a success sets the mode of the new owner if
-- it has none: the old owner has the name and has signed the text of the side that gives, the new
-- one is another, not anonymous, and has signed the text of the side that takes, and the claim is
-- that of the old owner's text.
pub transfer-Serves :
    (o : Outside) (env later : Env) (now : ℕ) (host path : Text) (payload : TransferRequest)
    (s : Server)
    → TransferServes o env later now host path payload s
        (transfer_route o env later now host path payload s)
unfolding IsVerified transfer_candidates statement_claim route_str TransferSteps TransferServes
transfer-Serves o env later now host path payload s =
    elim (transfer-Steps o env later now host path payload s) [
      | inl refused ↦ inl refused
      | inr
            (
              h,
              c,
              (name, domain, from, to, at, inl (same, signed), (d, inl (role, accepted))),
              (source, apart, mode, owner, in_time, served),
            ) ↦
          let (found, own) = owns o h.domain h.name h.from s.db source owner in
          inr (
            h,
            source,
            (
              reads-IsName o _ _ name,
              reads-IsDomain o _ _ _ domain,
              reads_key o _ _ _ _ from,
              reads_key o _ _ _ _ to,
              ok_or-ok payload.timestamp _ _ at,
            ),
            (signed, accepted),
            in_window _ _ _ in_time,
            apart,
            not_anon h.to s.db mode,
            found,
            own,
            subst
                (λ x.
                  Serves o.validity now h.timestamp
                    (transfers env (handed o h payload.description x source))
                    (enhances later h.to ∷ []) s.db
                    (transfer_route o env later now host path payload s))
                same served,
          )
      | inr (h, c, (name, domain, from, to, at, inr none_left, d), over) ↦ absurd none_left
      | inr (h, c, (name, domain, from, to, at, signed, (d, inr none_left)), over) ↦
          absurd none_left
    ]
