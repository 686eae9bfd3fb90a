-- ===== src/Identifier.antt =====
-- src/identifier.rs: usernames, phone numbers and wallet modifiers of public identifiers.
-- `str::to_lowercase` and the crate `phonenumber` are the fields of `Services`.
pub mod Username
pub mod Modifier
mod Tests
use blink_lnurl_server.Prelude.{
  ℕ, ◌+◌, Bool, true, false, not, ◌&&◌, ◌||◌, Option, none, some, List, [], ◌∷◌, ◌++◌, length,
  is_empty, drop, all, any, nat_eq, leb, if◌then◌else◌, Text, text, ◌==◌, starts_with, trim,
  is_ascii_digit, is_ascii_lowercase, eq_ignore_ascii_case, Result, ok, err, ◌>>=◌, ◌>>◌, refuse_if,
  ok_or, is_none,
}

pub data WalletModifier : Type 0 where
  btc usd : WalletModifier

pub data IdentifierKind : Type 0 where
  username phone : IdentifierKind

pub record ParsedIdentifier : Type 0 where
  pub canonical : Text
  pub kind : IdentifierKind
  pub wallet : Option WalletModifier

pub data IdentifierError : Type 0 where
  empty_identifier invalid_username invalid_phone_number invalid_modifier : IdentifierError

-- What the source reads of a parsed `phonenumber::PhoneNumber`.
pub record PhoneNumber : Type 0 where
  pub country : Option Text
  pub is_valid : Bool
  pub e164 : Text

pub record Services : Type 0 where
  pub to_lowercase : Text → Text
  pub parse_phone : Text → Option PhoneNumber

-- The loop over the characters, with `has_letter` its state.
unfoldable pub scan : Bool → Text → Bool
scan has_letter [] = has_letter
scan has_letter (ch ∷ rest) =
    let lower = is_ascii_lowercase ch in
    let go = scan (has_letter || lower) rest in
    if lower then go else (if not (is_ascii_digit ch) && not (nat_eq ch b'_') then false else go)

-- The tests that stand before the loop.
unfoldable pub is_refused_form : Text → Bool
is_refused_form lower =
    not (leb 3 (length lower) && leb (length lower) 50)
    || starts_with (text "1") lower
    || starts_with (text "3") lower
    || starts_with (text "_") lower
    || starts_with (text "bc1") lower
    || starts_with (text "lnbc1") lower

unfoldable pub is_phone_like : Text → Bool
unfolding starts_with all is_ascii_digit
is_phone_like value =
    starts_with (text "+") value || starts_with (text "00") value || all is_ascii_digit value

-- The text before and after the first `+`.
unfoldable pub break_plus : Text → Option (Text × Text)
break_plus [] = none
break_plus (c ∷ s) =
    let rest = break_plus s in
    if nat_eq c b'+'
    then some ([], s)
    else elim rest [ none ↦ none | some (b, r) ↦ some (c ∷ b, r) ]

-- `char_indices().skip(1)` passes over the first character.
unfoldable pub find_modifier : Text → Option (Text × Text)
unfolding break_plus
find_modifier [] = none
find_modifier (c ∷ s) = elim (break_plus s) [ none ↦ none | some (b, r) ↦ some (c ∷ b, r) ]

unfoldable pub modifier_of : Text → Result IdentifierError WalletModifier
unfolding eq_ignore_ascii_case
modifier_of suffix =
    if eq_ignore_ascii_case suffix (text "btc")
    then ok btc
    else if eq_ignore_ascii_case suffix (text "usd")
    then ok usd
    else err invalid_modifier

unfoldable pub has_later_plus : Text → Bool
unfolding any
has_later_plus base = any (λ ch. nat_eq ch b'+') (drop 1 base)

unfoldable pub split_final_wallet_modifier :
    Text → Result IdentifierError (Text × Option WalletModifier)
split_final_wallet_modifier value = elim (find_modifier value) [
  | none ↦ ok (value, none)
  | some (base, suffix) ↦ do
    wallet ← modifier_of suffix
    if has_later_plus base then err invalid_modifier else ok (base, some wallet)
]

-- `+…` as it is, `00…` with the zeros replaced, and anything else behind a `+`.
unfoldable pub normalize_phone : Text → Text
unfolding starts_with
normalize_phone trimmed =
    if starts_with (text "+") trimmed
    then text "+" ++ drop 1 trimmed
    else if starts_with (text "00") trimmed
    then text "+" ++ drop 2 trimmed
    else text "+" ++ trimmed

module _ (s : Services) where
  unfoldable pub matches_blink_username_regex : Text → Bool
  matches_blink_username_regex value =
      let lower = s.to_lowercase value in if is_refused_form lower then false else scan false lower

  unfoldable pub checked_to_username : Text → Result IdentifierError Text
  checked_to_username value =
      let trimmed = trim value in
      if is_empty trimmed
      then err invalid_username
      else if not (matches_blink_username_regex trimmed)
      then err invalid_username
      else ok (s.to_lowercase trimmed)

  unfoldable pub checked_to_phone_number : Text → Result IdentifierError Text
  checked_to_phone_number value =
      let trimmed = trim value in
      if is_empty trimmed then err invalid_phone_number else do
        number ← ok_or (s.parse_phone (normalize_phone trimmed)) invalid_phone_number
        if is_none number.country || not number.is_valid
            then err invalid_phone_number
            else ok number.e164

  -- The canonical form of the part before the modifier, and its kind.
  unfoldable pub canonical_base : Text → Result IdentifierError (Text × IdentifierKind)
  canonical_base base =
      if is_phone_like base
      then (do canonical ← checked_to_phone_number base; ok (canonical, phone))
      else (do canonical ← checked_to_username base; ok (canonical, username))

  unfoldable pub parse_public_identifier : Text → Result IdentifierError ParsedIdentifier
  parse_public_identifier value =
      let trimmed = trim value in
      if is_empty trimmed then err empty_identifier else do
        (base, wallet) ← split_final_wallet_modifier trimmed
        (canonical, kind) ← canonical_base base
        ok (record { canonical = canonical; kind = kind; wallet = wallet })

  unfoldable pub canonical_spark_username : Text → Result IdentifierError Text
  unfolding checked_to_username
  canonical_spark_username value = checked_to_username value
