-- ===== src/Identifier/Modifier.antt =====
-- The wallet modifier of a public identifier, and the callback identifiers that
-- src/routes/account.rs builds from a parsed one.
use blink_lnurl_server.Prelude.{
  ℕ, ◌≤◌, ◌≡◌, refl, sym, ap, ◌∙◌, inl, inr, Bool, false, [], ◌∷◌, ◌++◌, arith, length, is_empty,
  all, any, nat_eq, Option-cases, Text, text, starts_with, trim, is_whitespace, is_ascii_digit,
  LowersAscii, trim-eq_of_no_whitespace, ok, none, some, any-append,
}
use blink_lnurl_server.Identifier.{
  Services, WalletModifier, btc, usd, username, break_plus, find_modifier, modifier_of,
  has_later_plus, split_final_wallet_modifier, is_phone_like, canonical_base,
  parse_public_identifier, checked_to_username,
}
use blink_lnurl_server.Identifier.Username.{
  IsLetter, IsUsernameChar, All, Any, IsBlinkUsername, checked_to_username_iff, chars-no_whitespace,
  trim-username, lower-username,
}

abbrev is_plus : ℕ → Bool
is_plus c = nat_eq c b'+'

break_plus-append : (b r : Text) → any is_plus b ≡ false → break_plus (b ++ b'+' ∷ r) ≡ some (b, r)
unfolding break_plus any
break_plus-append [] r h = refl
break_plus-append (c ∷ b) r h = ground (arith, break_plus-append b r)

break_plus-none : (s : Text) → any is_plus s ≡ false → break_plus s ≡ none
unfolding break_plus any
break_plus-none [] h = refl
break_plus-none (c ∷ s) h = ground (arith, break_plus-none s)

break_plus-some :
    (s b r : Text) → break_plus s ≡ some (b, r) → (s ≡ b ++ b'+' ∷ r) × (any is_plus b ≡ false)
unfolding break_plus any
break_plus-some [] b r h = cc
break_plus-some (c ∷ s) [] r h = ground arith
break_plus-some (c ∷ s) (d ∷ b) r h = ground (arith, break_plus-some s b r)

-- The text that stands for a modifier behind the `+`.
abbrev pub modifier_text : WalletModifier → Text
modifier_text btc = text "btc"
modifier_text usd = text "usd"

modifier_of-text : (w : WalletModifier) → modifier_of (modifier_text w) ≡ ok w
unfolding modifier_of
modifier_of-text btc = refl
modifier_of-text usd = refl

find_modifier-some :
    (v base r : Text)
    → find_modifier v ≡ some (base, r)
    → (v ≡ base ++ b'+' ∷ r) × (has_later_plus base ≡ false)
unfolding find_modifier has_later_plus
find_modifier-some [] base r h = cc
find_modifier-some (c ∷ s) [] r h = ground arith
find_modifier-some (c ∷ s) (d ∷ b) r h = ground (arith, break_plus-some s b r)

-- Where the split finds a wallet, the text is the base, a `+` and a suffix that is a modifier of that
-- wallet, and the base has no later `+`.
split-some :
    (v base : Text) (w : WalletModifier)
    → split_final_wallet_modifier v ≡ ok (base, some w)
    → (suffix : Text) × (v ≡ base ++ b'+' ∷ suffix)
      × (modifier_of suffix ≡ ok w)
      × (has_later_plus base ≡ false)
unfolding split_final_wallet_modifier
split-some v base w h = elim (Option-cases (find_modifier v)) [
  | inl none_found ↦ absurd (ground arith)
  | inr ((b, r), e) ↦
      let f = find_modifier-some v b r e in
      (r, ground (arith, f), ground (arith, f), ground (arith, f))
]

split-callback :
    (c : Text) (w : WalletModifier)
    → 3 ≤ length c
    → any is_plus c ≡ false
    → split_final_wallet_modifier (c ++ b'+' ∷ modifier_text w) ≡ ok (c, some w)
unfolding split_final_wallet_modifier find_modifier has_later_plus any
split-callback [] w n h = absurd (omega arith)
split-callback (c ∷ b) w n h =
    let k : any is_plus b ≡ false = ground arith in
    rw (break_plus-append b (modifier_text w) k, split_final_wallet_modifier, find_modifier)
      (rw (modifier_of-text w) (rw k))

split-username : (c : Text) → any is_plus c ≡ false → split_final_wallet_modifier c ≡ ok (c, none)
unfolding split_final_wallet_modifier find_modifier any
split-username [] h = refl
split-username (c ∷ b) h =
    rw (break_plus-none b (ground arith), split_final_wallet_modifier, find_modifier)

full-append : (c d : Text) → 3 ≤ length c → is_empty (c ++ d) ≡ false
full-append [] d h = absurd (omega arith)
full-append (x ∷ c) d h = refl

full : (c : Text) → 3 ≤ length c → is_empty c ≡ false
full [] h = absurd (omega arith)
full (x ∷ c) h = refl

chars-no_plus : (c : Text) → All IsUsernameChar c → any is_plus c ≡ false
unfolding any
chars-no_plus [] h = refl
chars-no_plus (x ∷ c) h = ground (arith, chars-no_plus c)

letter-not_digits : (c : Text) → Any IsLetter c → all is_ascii_digit c ≡ false
unfolding all is_ascii_digit
letter-not_digits [] h = absurd h
letter-not_digits (x ∷ c) h = ground (arith, letter-not_digits c)

no_plus-starts_with : (c : Text) → any is_plus c ≡ false → starts_with (text "+") c ≡ false
unfolding any starts_with
no_plus-starts_with [] h = refl
no_plus-starts_with (x ∷ c) h = ground arith

not_phone-username :
    (c : Text) → IsBlinkUsername c → starts_with (text "00") c ≡ false → is_phone_like c ≡ false
unfolding is_phone_like
not_phone-username c u h =
    rw (no_plus-starts_with c (chars-no_plus c u.chars)) (rw h (letter-not_digits c u.letter))

modifier-no_whitespace : (w : WalletModifier) → any is_whitespace (b'+' ∷ modifier_text w) ≡ false
unfolding any is_whitespace
modifier-no_whitespace btc = refl
modifier-no_whitespace usd = refl

module _ (s : Services) (l : LowersAscii s.to_lowercase) (c : Text) (u : IsBlinkUsername c) where
  accepted : checked_to_username s c ≡ ok c
  accepted =
      (checked_to_username_iff s l c c).1
        (sym (ap s.to_lowercase (trim-username c u) ∙ lower-username c l u), u)

  trim-callback :
      (w : WalletModifier) → trim (c ++ b'+' ∷ modifier_text w) ≡ c ++ b'+' ∷ modifier_text w
  trim-callback w = trim-eq_of_no_whitespace _ (
      any-append is_whitespace c (b'+' ∷ modifier_text w)
      ∙ rw (chars-no_whitespace c u.chars) (modifier-no_whitespace w))

  module _ (h : starts_with (text "00") c ≡ false) where
    canonical_base-username : canonical_base s c ≡ ok (c, username)
    unfolding canonical_base
    canonical_base-username = rw (not_phone-username c u h) (rw accepted)

    -- A username that does not start with `00` parses to itself, with no wallet, where lowering does
    -- the expected to ASCII.
    pub parse-username :
        parse_public_identifier s c ≡ ok (record { canonical = c; kind = username; wallet = none })
    unfolding parse_public_identifier
    parse-username = rw (trim-username c u) (
        rw (full c u.not_short)
          (rw (split-username c (chars-no_plus c u.chars)) (rw canonical_base-username)))

    -- A username that does not start with `00`, with a wallet modifier after it, parses to the
    -- username and that wallet, where lowering does the expected to ASCII.
    pub parse-callback :
        (w : WalletModifier)
        → parse_public_identifier s (c ++ b'+' ∷ modifier_text w)
          ≡ ok (record { canonical = c; kind = username; wallet = some w })
    unfolding parse_public_identifier
    parse-callback w = rw (trim-callback w) (
        rw (full-append c _ u.not_short) (
          rw (split-callback c w u.not_short (chars-no_plus c u.chars))
            (rw canonical_base-username)))
