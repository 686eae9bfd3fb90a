-- ===== src/Account/Recovers.antt =====
-- What `recover` of src/routes/account.rs answers, apart from the code.
use mathlib.Core.Path.{subst}
use blink_lnurl_server.Prelude.{
  sym, List, ℕ, ◌≡◌, refl, ◌⊎◌, inl, inr, Bool, true, false, Option, none, some, ◌∷◌, ◌++◌, Text,
  text, Result, ok, err, is_none,
}
use blink_lnurl_server.RateLimit.{IpAddr}
use blink_lnurl_server.Repository.{AccountMode, enhanced, anon, SparkAccountMode, SparkUsername}
use blink_lnurl_server.Repository.Names.{mode_as_str}
use blink_lnurl_server.Sqlite.Tables.{Db}
use blink_lnurl_server.Sqlite.Mode.{get_spark_account_mode}
use blink_lnurl_server.Sqlite.Recipient.{get_account_by_spark_pubkey, get_spark_username_by_pubkey}
use blink_lnurl_server.Signed.{Candidate, breez_v2, blink_v1, legacy}
use blink_lnurl_server.Account.{
  Server, ApiError, Outside, decimal, stored_account_mode, legacy_timestamped,
}
use blink_lnurl_server.Account.Laws.{IsVerified}
use blink_lnurl_server.Account.Recover.{
  RecoverRequest, RecoverResponse, blink_recover, recover_answer, recover_candidates, recover_route,
  spawned_after, RecoverSteps, recover-Steps,
}
use blink_lnurl_server.Account.Spec.{
  IsInWindow, IsDomain, ReadsAs, old_text, reads-IsDomain, reads_key, in_window,
}

abbrev pub mode_text : Option AccountMode → Option Text
mode_text none = none
mode_text (some enhanced) = some (text "enhanced")
mode_text (some anon) = some (text "anon")

abbrev pub mode_in : Option SparkAccountMode → Option AccountMode
mode_in none = none
mode_in (some r) = r.mode

-- The answer by what is stored: the address with the mode, or the mode alone, which the new texts
-- of the SDK do not ask for, or that there is no such user.
abbrev pub Recovers :
    Option SparkUsername → Option AccountMode → Bool → Result ApiError RecoverResponse → Type 0
Recovers (some u) mode is_v2 out =
    (r : RecoverResponse) × (out ≡ ok r)
    × (r.username ≡ some u.username)
    × (r.description ≡ some u.description)
    × (r.lightning_address ≡ some (u.username ++ text "@" ++ u.domain))
    × (r.lnurl ≡ some (text "lnurlp://" ++ u.domain ++ text "/lnurlp/" ++ u.username))
    × (r.mode ≡ mode_text mode)
Recovers none (some mode) false out =
    (r : RecoverResponse) × (out ≡ ok r)
    × (r.username ≡ none)
    × (r.description ≡ none)
    × (r.lightning_address ≡ none)
    × (r.lnurl ≡ none)
    × (r.mode ≡ mode_text (some mode))
Recovers none (some mode) true out = (e : ApiError) × (out ≡ err e) × (e.status ≡ 404)
Recovers none none is_v2 out = (e : ApiError) × (out ≡ err e) × (e.status ≡ 404)

-- What may be signed, and whether it is the text of the SDK.
abbrev pub IsRecoverText : Outside → Text → Text → Text → ℕ → Text → Bool → Type 0
IsRecoverText o domain pubkey path timestamp message is_v2 =
    ((message ≡ o.recover_message domain pubkey timestamp) × (is_v2 ≡ true))
    ⊎ ((message
          ≡ text "blink-lnurl:v1"
            ++ 0xa ∷ text "recover"
            ++ 0xa ∷ domain
            ++ 0xa ∷ pubkey
            ++ 0xa ∷ decimal timestamp)
        × (is_v2 ≡ false))
    ⊎ ((message ≡ old_text path timestamp) × (is_v2 ≡ false))

pub RecoverAnswers :
    Outside
    → ℕ
    → Text
    → Text
    → Option IpAddr
    → RecoverRequest
    → Server
    → Result ApiError RecoverResponse × Server
    → Type 0
RecoverAnswers o now host path ip payload s out =
    (out.1.db ≡ s.db)
    × ((((e : ApiError) × (out.0 ≡ err e)) × (out.1.spawned ≡ s.spawned))
        ⊎ ((domain pubkey : Text) × (signature : List ℕ) × (message : Text) × (is_v2 : Bool)
            × IsDomain o s.domains host domain
            × ReadsAs o path payload.signature pubkey signature
            × IsInWindow o.validity now payload.timestamp
            × IsRecoverText o domain pubkey path payload.timestamp message is_v2
            × (o.verify_message pubkey signature message ≡ true)
            × (is_none (get_account_by_spark_pubkey pubkey s.db) ≡ false)
            × Recovers (get_spark_username_by_pubkey domain pubkey s.db)
                (mode_in (get_spark_account_mode pubkey s.db)) is_v2 out.0
            × (out.1.spawned
                ≡ spawned_after o pubkey (mode_in (get_spark_account_mode pubkey s.db)) ip
                    s.spawned)))

mode_as_str-text :
    (mode : Option AccountMode)
    → elim mode as (λ x. Option Text) [ none ↦ none | some m ↦ some (mode_as_str m) ]
      ≡ mode_text mode
unfolding mode_as_str
mode_as_str-text none = refl
mode_as_str-text (some enhanced) = refl
mode_as_str-text (some anon) = refl

-- The text of a candidate, and the answer by its format.
Matches : Outside → Text → Text × List ℕ → Text → ℕ → Candidate → Type 0
Matches o domain key path timestamp c =
    (is_v2 : Bool) × IsRecoverText o domain key.0 path timestamp c.message is_v2
    × (o.verify_message key.0 key.1 c.message ≡ true)
    × ((user : Option SparkUsername) (mode : Option AccountMode)
        → Recovers user mode is_v2 (recover_answer user mode c.format))

answers :
    (user : Option SparkUsername) (mode : Option AccountMode)
    → Recovers user mode true (recover_answer user mode breez_v2)
      × Recovers user mode false (recover_answer user mode blink_v1)
      × Recovers user mode false (recover_answer user mode legacy)
unfolding recover_answer
answers (some u) mode = (
  (_, refl, refl, refl, refl, refl, mode_as_str-text mode),
  (_, refl, refl, refl, refl, refl, mode_as_str-text mode),
  (_, refl, refl, refl, refl, refl, mode_as_str-text mode),
)
answers none (some mode) = (
  (_, refl, refl),
  (_, refl, refl, refl, refl, refl, mode_as_str-text (some mode)),
  (_, refl, refl, refl, refl, refl, mode_as_str-text (some mode)),
)
answers none none = ((_, refl, refl), (_, refl, refl), (_, refl, refl))

verified-Matches :
    (o : Outside) (domain : Text) (key : Text × List ℕ) (path : Text) (timestamp : ℕ)
    (c : Candidate)
    → IsVerified (o.verify_message key.0 key.1) c (recover_candidates o domain key.0 path timestamp)
    → Matches o domain key path timestamp c
unfolding IsVerified recover_candidates legacy_timestamped blink_recover Matches
verified-Matches o domain key path timestamp c (inl (same, signed)) =
    rw same (true, inl (refl, refl), signed, (λ user mode. (answers user mode).0))
verified-Matches o domain key path timestamp c (inr (inl (same, signed))) =
    rw same (false, inr (inl (refl, refl)), signed, (λ user mode. (answers user mode).1))
verified-Matches o domain key path timestamp c (inr (inr (inl (same, signed)))) =
    rw same (false, inr (inr (refl, refl)), signed, (λ user mode. (answers user mode).2))
verified-Matches o domain key path timestamp c (inr (inr (inr none_left))) = absurd none_left

stored-mode_in :
    (pubkey : Text) (db : Db)
    → stored_account_mode pubkey db ≡ mode_in (get_spark_account_mode pubkey db)
unfolding stored_account_mode
stored-mode_in pubkey db = of_mode (get_spark_account_mode pubkey db)
  where
    of_mode :
        (m : Option SparkAccountMode)
        → elim m as (λ x. Option AccountMode) [ none ↦ none | some r ↦ r.mode ] ≡ mode_in m
    of_mode none = refl
    of_mode (some r) = refl

-- The handler of a request to recover an address, run alone, writes nothing to the database; what
-- it may leave is one task that refreshes the country, for an enhanced account where countries are
-- looked up. It refuses the request, or the timestamp is in the window, the signature is over one
-- of the three texts of a recovery, the account of the pubkey exists, and the answer is what is
-- stored: the address on the domain with the mode, the mode alone unless the text is that of the
-- SDK, or else a 404.
pub recover-Answers :
    (o : Outside) (now : ℕ) (host path : Text) (request_ip : Option IpAddr)
    (payload : RecoverRequest) (s : Server)
    → RecoverAnswers o now host path request_ip payload s
        (recover_route o now host path request_ip payload s)
unfolding RecoverSteps RecoverAnswers Matches
recover-Answers o now host path ip payload s =
    let out = recover_route o now host path ip payload s in
    let (unchanged, steps) = recover-Steps o now host path ip payload s in
    (
      unchanged,
      elim steps [
        | inl refused ↦ inl refused
        | inr (domain, key, c, is_domain, is_key, in_time, verified, known, answer, spawned) ↦
            let (is_v2, covers, signed, recovers) =
              verified-Matches o domain key path payload.timestamp c verified in
            let user = get_spark_username_by_pubkey domain key.0 s.db in
            let same = stored-mode_in key.0 s.db in
            inr (
              domain,
              key.0,
              key.1,
              c.message,
              is_v2,
              reads-IsDomain o _ _ _ is_domain,
              reads_key o _ _ _ _ is_key,
              in_window _ _ _ in_time,
              covers,
              signed,
              known,
              subst (λ r. Recovers user (mode_in (get_spark_account_mode key.0 s.db)) is_v2 r)
                  (sym answer)
                  (subst
                    (λ m.
                      Recovers user m is_v2
                        (recover_answer user (stored_account_mode key.0 s.db) c.format))
                    same (recovers user (stored_account_mode key.0 s.db))),
              subst (λ m. out.1.spawned ≡ spawned_after o key.0 m ip s.spawned) same spawned,
            )
      ],
    )
