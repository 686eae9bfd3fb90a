-- ===== src/Repository.antt =====
-- src/repository.rs: the types that the repositories and their callers share.
-- A text column under a CHECK constraint is the enum whose names it holds; `Repository/Names.antt`
-- shows that reading back what `as_str` wrote gives the same value. The message that
-- `LnurlRepositoryError::General` carries for the log is left out.
pub mod Names
use blink_lnurl_server.Prelude.{
  ℕ, Bool, true, false, ◌&&◌, Option, none, some, List, nat_eq, if◌then◌else◌, Text, text, ◌==◌,
  Result, ok, err,
}

pub data LnurlRepositoryError : Type 0 where
  identifier_conflict blink_account_exists account_not_found : LnurlRepositoryError
  invalid_ownership invalid_provider invalid_identifier_kind : LnurlRepositoryError
  name_taken source_not_owner invalid_account_mode : LnurlRepositoryError
  stale_mode_timestamp statement_already_used general : LnurlRepositoryError

pub data AccountProvider : Type 0 where
  spark blink : AccountProvider

pub data AccountIdentifierKind : Type 0 where
  username phone : AccountIdentifierKind

pub data WalletKind : Type 0 where
  btc usd : WalletKind

pub data AccountMode : Type 0 where
  enhanced anon : AccountMode

pub data ModeSource : Type 0 where
  signup switch migration : ModeSource

abbrev pub provider_eq : AccountProvider → AccountProvider → Bool
provider_eq spark spark = true
provider_eq blink blink = true
provider_eq _ _ = false

abbrev pub kind_eq : AccountIdentifierKind → AccountIdentifierKind → Bool
kind_eq username username = true
kind_eq phone phone = true
kind_eq _ _ = false

abbrev pub mode_eq : AccountMode → AccountMode → Bool
mode_eq enhanced enhanced = true
mode_eq anon anon = true
mode_eq _ _ = false

abbrev pub wallet_eq : WalletKind → WalletKind → Bool
wallet_eq btc btc = true
wallet_eq usd usd = true
wallet_eq _ _ = false

pub record SparkAccountMode : Type 0 where
  pub account_id : Text
  pub pubkey : Text
  pub mode : Option AccountMode
  pub mode_source : Option ModeSource
  pub mode_updated_at : Option ℕ
  pub mode_last_timestamp : Option ℕ
  pub country : Option Text
  pub country_updated_at : Option ℕ

pub record SparkModeUpdate : Type 0 where
  pub pubkey : Text
  pub mode : AccountMode
  pub client_timestamp : ℕ
  pub country : Option Text

pub record Account : Type 0 where
  pub account_id : Text
  pub provider : AccountProvider
  pub created_at : ℕ
  pub updated_at : ℕ

pub record NewAccountIdentifier : Type 0 where
  pub domain : Text
  pub identifier : Text
  pub identifier_kind : AccountIdentifierKind
  pub description : Text

pub record StatementClaim : Type 0 where
  pub statement_hash : List ℕ
  pub route : Text
  pub expires_at : ℕ

pub record NewSparkRegistration : Type 0 where
  pub account_id : Option Text
  pub pubkey : Text
  pub identifier : NewAccountIdentifier
  pub claim : Option StatementClaim

pub record NewBlinkAccount : Type 0 where
  pub account_id : Option Text
  pub blink_account_id : Text
  pub btc_wallet_id : Text
  pub usd_wallet_id : Text
  pub default_wallet : WalletKind
  pub identifiers : List NewAccountIdentifier

pub record UpdatedBlinkAccount : Type 0 where
  pub account_id : Text
  pub blink_account_id : Text
  pub default_wallet : WalletKind

pub record ResolvedRecipient : Type 0 where
  pub account_id : Text
  pub provider : AccountProvider
  pub domain : Text
  pub identifier : Text
  pub identifier_kind : AccountIdentifierKind
  pub description : Text
  pub spark_pubkey : Option Text
  pub blink_account_id : Option Text
  pub btc_wallet_id : Option Text
  pub usd_wallet_id : Option Text
  pub default_wallet : Option WalletKind

pub record IdentifierTransfer : Type 0 where
  pub domain : Text
  pub identifier : Text
  pub source_account_id : Text
  pub destination_spark_pubkey : Text
  pub description : Text
  pub claim : Option StatementClaim

pub record BlinkToSparkIdentifierTransfer : Type 0 where
  pub domain : Text
  pub identifier : Text
  pub source_account_id : Text
  pub destination_spark_pubkey : Text
  pub description : Text

pub record SparkUsername : Type 0 where
  pub domain : Text
  pub pubkey : Text
  pub username : Text
  pub description : Text

unfoldable pub validate : NewSparkRegistration → Result LnurlRepositoryError (Unit {0})
validate r =
    if kind_eq r.identifier.identifier_kind phone then err invalid_identifier_kind else ok tt

abbrev pub has_mode : AccountMode → Option AccountMode → Bool
has_mode m none = false
has_mode m (some n) = mode_eq n m

abbrev pub has_timestamp : ℕ → Option ℕ → Bool
has_timestamp t none = false
has_timestamp t (some u) = nat_eq u t

unfoldable pub classify_refused_mode_write :
    Option SparkAccountMode → SparkModeUpdate → Result LnurlRepositoryError (Unit {0})
classify_refused_mode_write none update = err account_not_found
classify_refused_mode_write (some r) update =
    if has_mode update.mode r.mode && has_timestamp update.client_timestamp r.mode_last_timestamp
    then ok tt
    else err stale_mode_timestamp
