-- ===== src/Identifier/Username.antt =====
-- Which texts src/identifier.rs accepts as usernames, against a description of the Blink rule.
use blink_lnurl_server.Prelude.{
  ℕ, ◌≤◌, ◌≡◌, refl, sym, ap, ◌∙◌, ◌↔◌, ◌⊎◌, inl, inr, Bool, true, false, [], ◌∷◌, map, arith,
  length, is_empty, all, any, ltb, Bool-cases, Text, text, starts_with, trim, is_whitespace,
  is_ascii_digit, is_ascii_lowercase, to_ascii_lowercase, LowersAscii, trim-eq_of_no_whitespace, ok,
}
use blink_lnurl_server.Identifier.{
  Services, scan, is_refused_form, matches_blink_username_regex, checked_to_username,
}

abbrev pub IsLetter : ℕ → Type 0
IsLetter c = (b'a' ≤ c) × (c ≤ b'z')

abbrev pub IsUsernameChar : ℕ → Type 0
IsUsernameChar c = IsLetter c ⊎ ((b'0' ≤ c) × (c ≤ b'9')) ⊎ (c ≡ b'_')

abbrev pub All : (ℕ → Type 0) → Text → Type 0
All P [] = Unit {0}
All P (c ∷ s) = P c × All P s

abbrev pub Any : (ℕ → Type 0) → Text → Type 0
Any P [] = ⊥
Any P (c ∷ s) = P c ⊎ Any P s

abbrev pub IsPrefix : Text → Text → Type 0
IsPrefix [] s = Unit {0}
IsPrefix (c ∷ p) [] = ⊥
IsPrefix (c ∷ p) (x ∷ s) = (c ≡ x) × IsPrefix p s

-- Blink Core's rule: 3 to 50 of `a`-`z`, `0`-`9` and `_`, a letter among them, and none of the
-- reserved beginnings.
pub record IsBlinkUsername (c : Text) : Type 0 where
  pub not_short : 3 ≤ length c
  pub not_long : length c ≤ 50
  pub chars : All IsUsernameChar c
  pub letter : Any IsLetter c
  pub not_one : ¬ IsPrefix (text "1") c
  pub not_three : ¬ IsPrefix (text "3") c
  pub not_underscore : ¬ IsPrefix (text "_") c
  pub not_bc1 : ¬ IsPrefix (text "bc1") c
  pub not_lnbc1 : ¬ IsPrefix (text "lnbc1") c

starts_with_iff : (p s : Text) → (starts_with p s ≡ true) ↔ IsPrefix p s
unfolding starts_with
starts_with_iff [] s = ground arith
starts_with_iff (c ∷ p) [] = ground arith
starts_with_iff (c ∷ p) (x ∷ s) = ground (arith, starts_with_iff p s)

scan_iff :
    (b : Bool) (s : Text)
    → (scan b s ≡ true) ↔ (All IsUsernameChar s × ((b ≡ true) ⊎ Any IsLetter s))
unfolding scan is_ascii_lowercase is_ascii_digit
scan_iff b [] = ground arith
scan_iff b (c ∷ s) = ground (arith, scan_iff b s, scan_iff true s)

is_refused_form_iff :
    (c : Text)
    → (is_refused_form c ≡ false) ↔ (
        (3 ≤ length c)
        × (length c ≤ 50)
        × (¬ IsPrefix (text "1") c)
        × (¬ IsPrefix (text "3") c)
        × (¬ IsPrefix (text "_") c)
        × (¬ IsPrefix (text "bc1") c)
        × (¬ IsPrefix (text "lnbc1") c))
unfolding is_refused_form
is_refused_form_iff c = ground (
  arith,
  starts_with_iff (text "1") c,
  starts_with_iff (text "3") c,
  starts_with_iff (text "_") c,
  starts_with_iff (text "bc1") c,
  starts_with_iff (text "lnbc1") c,
)

IsBlinkUsername-iff :
    (c : Text) → ((is_refused_form c ≡ false) × (scan false c ≡ true)) ↔ IsBlinkUsername c
IsBlinkUsername-iff c = (
  λ h.
      let f = (is_refused_form_iff c).0 h.0 in
      let g = (scan_iff false c).0 h.1 in
      record {
        not_short = f.0;
        not_long = f.1;
        chars = g.0;
        letter = elim g.1 [ inl e ↦ cc | inr l ↦ l ];
        not_one = f.2;
        not_three = f.3;
        not_underscore = f.4;
        not_bc1 = f.5;
        not_lnbc1 = f.6;
      },
  λ u. (
    (is_refused_form_iff c).1
        (u.not_short, u.not_long, u.not_one, u.not_three, u.not_underscore, u.not_bc1, u.not_lnbc1),
    (scan_iff false c).1 (u.chars, inr u.letter),
  ),
)

pub empty_eq : (v : Text) → is_empty v ≡ true → v ≡ []
empty_eq [] h = refl
empty_eq (c ∷ v) h = cc

pub lower-nil : {lower : Text → Text} → LowersAscii lower → lower [] ≡ []
unfolding all
lower-nil l = l.on_ascii [] refl

-- A text of username characters is ASCII, has no white space and no capitals.
chars-ascii : (c : Text) → All IsUsernameChar c → all (λ x. ltb x 128) c ≡ true
unfolding all
chars-ascii [] h = refl
chars-ascii (x ∷ c) h = ground (arith, chars-ascii c)

pub chars-no_whitespace : (c : Text) → All IsUsernameChar c → any is_whitespace c ≡ false
unfolding any is_whitespace
chars-no_whitespace [] h = refl
chars-no_whitespace (x ∷ c) h = ground (arith, chars-no_whitespace c)

chars-lower : (c : Text) → All IsUsernameChar c → map to_ascii_lowercase c ≡ c
unfolding to_ascii_lowercase
chars-lower [] h = refl
chars-lower (x ∷ c) h = ground (arith, chars-lower c)

pub lower-username :
    {lower : Text → Text} (c : Text) → LowersAscii lower → IsBlinkUsername c → lower c ≡ c
lower-username c l u = l.on_ascii c (chars-ascii c u.chars) ∙ chars-lower c u.chars

pub trim-username : (c : Text) → IsBlinkUsername c → trim c ≡ c
trim-username c u = trim-eq_of_no_whitespace c (chars-no_whitespace c u.chars)

module _ (s : Services) where
  matches_iff :
      (v : Text) → (matches_blink_username_regex s v ≡ true) ↔ IsBlinkUsername (s.to_lowercase v)
  unfolding matches_blink_username_regex
  matches_iff v =
      let u = IsBlinkUsername-iff (s.to_lowercase v) in
      (λ h. u.0 (ground arith, ground arith), λ b. let f = u.1 b in ground (arith, f))

  -- Where lowering does the expected to ASCII: a text is accepted as a username with the result `c`
  -- exactly when `c` is its trimmed lower-case form and obeys the rule for usernames.
  pub checked_to_username_iff :
      LowersAscii s.to_lowercase
      → (v c : Text)
      → (checked_to_username s v ≡ ok c) ↔ ((c ≡ s.to_lowercase (trim v)) × IsBlinkUsername c)
  unfolding checked_to_username
  checked_to_username_iff l v c = (
    λ h.
        let e : c ≡ s.to_lowercase (trim v) = ground arith in
        (e, rw e ((matches_iff (trim v)).0 (ground arith))),
    λ h. elim (Bool-cases (is_empty (trim v))) [
      | inl empty ↦
          let e : c ≡ [] = h.0 ∙ ap s.to_lowercase (empty_eq (trim v) empty) ∙ lower-nil l in
          absurd (omega (arith, h.1.not_short, ap length e))
      | inr full ↦ rw full (rw ((matches_iff (trim v)).1 (rw h.0 at h.1)) (ap ok (sym h.0)))
    ],
  )

  -- Where lowering does the expected to ASCII: the result of an accepted username is accepted again,
  -- unchanged.
  checked_to_username_idem :
      LowersAscii s.to_lowercase
      → (v c : Text) → checked_to_username s v ≡ ok c
      → checked_to_username s c ≡ ok c
  checked_to_username_idem l v c h =
      let u = ((checked_to_username_iff l v c).0 h).1 in
      (checked_to_username_iff l c c).1
        (sym (ap s.to_lowercase (trim-username c u) ∙ lower-username c l u), u)
