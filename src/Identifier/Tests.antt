-- ===== src/Identifier/Tests.antt =====
-- Examples of the theorems on identifiers.
use blink_lnurl_server.Prelude.{
  ◌≡◌, ◌↔◌, refl, none, some, ◌∷◌, ◌++◌, map, Text, text, to_ascii_lowercase, LowersAscii, trim, ok,
  starts_with, is_whitespace, trim_start, trim_end, is_ascii_digit, is_ascii_lowercase,
  is_ascii_uppercase, ◌==◌, any, all,
}
use blink_lnurl_server.Identifier.{
  Services, usd, username, checked_to_username, parse_public_identifier,
  matches_blink_username_regex, is_refused_form, scan,
}
use blink_lnurl_server.Identifier.Username.{IsBlinkUsername, checked_to_username_iff}
use blink_lnurl_server.Identifier.Modifier.{modifier_text, parse-username, parse-callback}

-- Services that lower ASCII only and know no phone number.
abbrev ascii : Services
ascii = record { to_lowercase = map to_ascii_lowercase; parse_phone = λ t. none }

ascii-LowersAscii : LowersAscii ascii.to_lowercase
ascii-LowersAscii = record { on_ascii = λ s h. refl }

checked_to_username_iff_example :
    (checked_to_username ascii (text " Alice ") ≡ ok (text "alice")) ↔ (
      (text "alice" ≡ map to_ascii_lowercase (trim (text " Alice ")))
      × IsBlinkUsername (text "alice"))
checked_to_username_iff_example =
    checked_to_username_iff ascii ascii-LowersAscii (text " Alice ") (text "alice")

abbrev alice : Text
alice = text "alice"

checked_alice : checked_to_username ascii (text " Alice ") ≡ ok alice
unfolding checked_to_username matches_blink_username_regex is_refused_form scan starts_with trim
    trim_start trim_end is_whitespace to_ascii_lowercase is_ascii_digit is_ascii_lowercase
    is_ascii_uppercase ◌==◌ any all
checked_alice = refl

alice-IsBlinkUsername : IsBlinkUsername alice
alice-IsBlinkUsername =
    ((checked_to_username_iff ascii ascii-LowersAscii (text " Alice ") alice).0 checked_alice).1

parse-username_example :
    parse_public_identifier ascii alice
    ≡ ok (record { canonical = alice; kind = username; wallet = none })
unfolding starts_with
parse-username_example = parse-username ascii ascii-LowersAscii alice alice-IsBlinkUsername refl

parse-callback_example :
    parse_public_identifier ascii (alice ++ b'+' ∷ modifier_text usd)
    ≡ ok (record { canonical = alice; kind = username; wallet = some usd })
unfolding starts_with
parse-callback_example = parse-callback ascii ascii-LowersAscii alice alice-IsBlinkUsername refl usd
