-- ===== src/Repository/Names.antt =====
-- `as_str` and `from_database_value` of the enums of src/repository.rs.
use blink_lnurl_server.Prelude.{◌≡◌, refl, if◌then◌else◌, Text, text, ◌==◌, Result, ok, err}
use blink_lnurl_server.Repository.{
  LnurlRepositoryError, invalid_provider, invalid_identifier_kind, invalid_ownership,
  invalid_account_mode, AccountProvider, spark, blink, AccountIdentifierKind, username, phone,
  WalletKind, btc, usd, AccountMode, enhanced, anon, ModeSource, signup, switch, migration,
}

unfoldable pub provider_as_str : AccountProvider → Text
provider_as_str spark = text "spark"
provider_as_str blink = text "blink"

unfoldable pub provider_from_database_value : Text → Result LnurlRepositoryError AccountProvider
provider_from_database_value value =
    if value == text "spark"
    then ok spark
    else if value == text "blink"
    then ok blink
    else err invalid_provider

unfoldable pub kind_as_str : AccountIdentifierKind → Text
kind_as_str username = text "username"
kind_as_str phone = text "phone"

unfoldable pub kind_from_database_value : Text → Result LnurlRepositoryError AccountIdentifierKind
kind_from_database_value value =
    if value == text "username"
    then ok username
    else if value == text "phone"
    then ok phone
    else err invalid_identifier_kind

unfoldable pub wallet_as_str : WalletKind → Text
wallet_as_str btc = text "btc"
wallet_as_str usd = text "usd"

unfoldable pub wallet_from_database_value : Text → Result LnurlRepositoryError WalletKind
wallet_from_database_value value =
    if value == text "btc"
    then ok btc
    else if value == text "usd"
    then ok usd
    else err invalid_ownership

unfoldable pub mode_as_str : AccountMode → Text
mode_as_str enhanced = text "enhanced"
mode_as_str anon = text "anon"

unfoldable pub mode_from_database_value : Text → Result LnurlRepositoryError AccountMode
mode_from_database_value value =
    if value == text "enhanced"
    then ok enhanced
    else if value == text "anon"
    then ok anon
    else err invalid_account_mode

unfoldable pub source_as_str : ModeSource → Text
source_as_str signup = text "signup"
source_as_str switch = text "switch"
source_as_str migration = text "migration"

unfoldable pub source_from_database_value : Text → Result LnurlRepositoryError ModeSource
source_from_database_value value =
    if value == text "signup"
    then ok signup
    else if value == text "switch"
    then ok switch
    else if value == text "migration"
    then ok migration
    else err invalid_account_mode

-- Every value of the five enums is read back from the text that is stored for it.
pub names_roundtrip :
    ((p : AccountProvider) → provider_from_database_value (provider_as_str p) ≡ ok p)
    × ((k : AccountIdentifierKind) → kind_from_database_value (kind_as_str k) ≡ ok k)
    × ((w : WalletKind) → wallet_from_database_value (wallet_as_str w) ≡ ok w)
    × ((m : AccountMode) → mode_from_database_value (mode_as_str m) ≡ ok m)
    × ((s : ModeSource) → source_from_database_value (source_as_str s) ≡ ok s)
unfolding provider_as_str provider_from_database_value kind_as_str kind_from_database_value
    wallet_as_str wallet_from_database_value mode_as_str mode_from_database_value source_as_str
    source_from_database_value ◌==◌
names_roundtrip = (
  elim [ spark ↦ refl | blink ↦ refl ],
  elim [ username ↦ refl | phone ↦ refl ],
  elim [ btc ↦ refl | usd ↦ refl ],
  elim [ enhanced ↦ refl | anon ↦ refl ],
  elim [ signup ↦ refl | switch ↦ refl | migration ↦ refl ],
)
