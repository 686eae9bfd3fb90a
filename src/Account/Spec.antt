-- ===== src/Account/Spec.antt =====
-- What a request to src/routes/account.rs asks for, apart from the code that reads it.
use mathlib.Core.Path.{subst}
use blink_lnurl_server.Prelude.{
  ℕ, ◌+◌, ◌≤◌, ◌≡◌, refl, arith, Bool, true, false, ◌||◌, Option, none, some, List, ◌∷◌, ◌++◌, any,
  is_empty, trim, Text, text, ◌==◌, Result, ok, err, ok_or, sym, if◌then◌else◌,
}
use blink_lnurl_server.Identifier.{canonical_spark_username}
use blink_lnurl_server.Repository.{
  StatementClaim, NewSparkRegistration, username, SparkAccountMode, anon, has_mode,
}
use blink_lnurl_server.Sqlite.Tables.{Db}
use blink_lnurl_server.Sqlite.Mode.{get_spark_account_mode}
use blink_lnurl_server.Signed.{check_timestamp, claim_expires_at}
use blink_lnurl_server.Account.{
  Outside, decimal, canonical_spark_username_for_route, sanitize_domain, parse_pubkey,
  parse_signed_request, stored_account_mode,
}
use blink_lnurl_server.Account.Serves.{Asked, map_err-ok}

-- The clock and the timestamp are no further apart than the validity.
abbrev pub IsInWindow : ℕ → ℕ → ℕ → Type 0
IsInWindow validity now timestamp = (timestamp ≤ now + validity) × (now ≤ timestamp + validity)

abbrev pub IsNotAnon : Option SparkAccountMode → Type 0
IsNotAnon none = Unit {0}
IsNotAnon (some r) = has_mode anon r.mode ≡ false

-- The text that old clients sign.
abbrev pub old_text : Text → ℕ → Text
old_text message timestamp = message ++ text "-" ++ decimal timestamp

pub allowed-ok :
    {E A : Type 0} (b : Bool) (a a' : A) (e : E)
    → (if b then ok a else err e) ≡ ok a'
    → (b ≡ true) × (a ≡ a')
allowed-ok true a a' e h = (refl, cc)
allowed-ok false a a' e h = cc

pub ok_or-ok : {E B : Type 0} (m : Option B) (b : B) (e : E) → ok_or m e ≡ ok b → m ≡ some b
ok_or-ok none b e h = cc
ok_or-ok (some a) b e h = cc

decoded-ok :
    {E A B : Type 0} (m : Option A) (f : A → Option B) (b : B) (e e' : E)
    → elim m as (λ x. Result E B) [ none ↦ err e | some a ↦ ok_or (f a) e' ] ≡ ok b
    → (a : A) × (m ≡ some a) × (f a ≡ some b)
decoded-ok none f b e e' h = cc
decoded-ok (some a) f b e e' h = (a, refl, ok_or-ok (f a) b e' h)

both-ok :
    {E A B : Type 0} (r : Result E A) (q : Result E B) {a : A} {b : B}
    → elim r as (λ x. Result E (A × B)) [
      | err e ↦ err e
      | ok x ↦ elim q as (λ y. Result E (A × B)) [ err e ↦ err e | ok y ↦ ok (x, y) ]
    ]
      ≡ ok (a, b)
    → (r ≡ ok a) × (q ≡ ok b)
both-ok (err e) q h = cc
both-ok (ok x) (err e) h = cc
both-ok (ok x) (ok y) h = (cc, cc)

module _ (o : Outside) where
  -- The hex of a pubkey, and of a signature.
  abbrev pub ReadsAs : Text → Text → Text → List ℕ → Type 0
  ReadsAs path hex pubkey signature =
      ((bytes : List ℕ) × (o.hex_decode path ≡ some bytes) × (o.from_slice bytes ≡ some pubkey))
      × ((bytes : List ℕ) × (o.hex_decode hex ≡ some bytes) × (o.from_der bytes ≡ some signature))

  -- The lowered host, which is among the domains of the server if it has any.
  abbrev pub IsDomain : List Text → Text → Text → Type 0
  IsDomain domains host domain =
      (domain ≡ o.services.to_lowercase (trim host))
      × ((is_empty domains || any (λ d. d == domain) domains) ≡ true)

  abbrev pub IsName : Text → Text → Type 0
  IsName value name = canonical_spark_username o.services value ≡ ok name

  abbrev pub Asks : List Text → Text → Text → Text → Text → Asked → Type 0
  Asks domains value host path hex a =
      IsName value a.name × IsDomain domains host a.domain × ReadsAs path hex a.pubkey a.signature

  -- The claim on a message: the hash of the pubkey, the domain and the message, between NULs.
  abbrev pub claim_on : Text → Text → Text → Text → ℕ → StatementClaim
  claim_on pubkey domain message route timestamp = record {
    statement_hash = o.sha256 (o.utf8 pubkey ++ 0 ∷ o.utf8 domain ++ 0 ∷ o.utf8 message);
    route = route;
    expires_at = claim_expires_at o.validity timestamp;
  }

  abbrev pub registers_name : Asked → Text → Text → ℕ → NewSparkRegistration
  registers_name a description message timestamp = record {
    account_id = none;
    pubkey = a.pubkey;
    identifier = record {
      domain = a.domain;
      identifier = a.name;
      identifier_kind = username;
      description = description;
    };
    claim = some (claim_on a.pubkey a.domain message (text "register") timestamp);
  }

  pub reads-IsName :
      (value name : Text) → canonical_spark_username_for_route o value ≡ ok name → IsName value name
  unfolding canonical_spark_username_for_route
  reads-IsName value name h = map_err-ok _ (canonical_spark_username o.services value) h

  pub reads-IsDomain :
      (domains : List Text) (host domain : Text)
      → sanitize_domain o host domains ≡ ok domain
      → IsDomain domains host domain
  unfolding sanitize_domain
  reads-IsDomain domains host domain h =
      let lowered = o.services.to_lowercase (trim host) in
      let (allowed, same) =
        allowed-ok (is_empty domains || any (λ d. d == lowered) domains) _ _ _ h in
      (sym same, subst (λ x. (is_empty domains || any (λ d. d == x) domains) ≡ true) same allowed)

  pub reads_key :
      (path hex pubkey : Text) (signature : List ℕ)
      → parse_signed_request o path hex ≡ ok (pubkey, signature)
      → ReadsAs path hex pubkey signature
  unfolding parse_signed_request parse_pubkey
  reads_key path hex pubkey signature h =
      let (key, sig) = both-ok _ _ h in
      (
        decoded-ok (o.hex_decode path) o.from_slice _ _ _ key,
        decoded-ok (o.hex_decode hex) o.from_der _ _ _ sig,
      )

pub in_window :
    (validity now timestamp : ℕ)
    → check_timestamp validity now timestamp ≡ ok tt
    → IsInWindow validity now timestamp
unfolding check_timestamp
in_window validity now timestamp h = (ground arith, ground arith)

pub not_anon :
    (pubkey : Text) (db : Db)
    → has_mode anon (stored_account_mode pubkey db) ≡ false
    → IsNotAnon (get_spark_account_mode pubkey db)
unfolding stored_account_mode
not_anon pubkey db h = of_mode (get_spark_account_mode pubkey db) h
  where
    of_mode :
        (m : Option SparkAccountMode)
        → has_mode anon (elim m [ none ↦ none | some r ↦ r.mode ]) ≡ false
        → IsNotAnon m
    of_mode none h = tt
    of_mode (some r) h = h
