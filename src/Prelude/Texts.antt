-- ===== src/Prelude/Texts.antt =====
-- Text as the list of its code points, which is what `chars()` yields of a Rust string.
use Prim.Native.Char.{code}
use Prim.Native.Nat.{ℕ, ◌+◌}
use Prim.Native.String.{String}
use mathlib.Core.Path.{◌≡◌, refl, sym, ◌∙◌}
use mathlib.Core.Logic.{◌↔◌, inl, inr}
use mathlib.Core.Bool.{Bool, true, false, ◌&&◌, ◌||◌}
use mathlib.Core.List.{List, [], ◌∷◌, map}
use native.Mathlib.Omega.{arith}
use blink_lnurl_server.Prelude.Tests.{nat_eq, leb, ltb, Bool-cases, if◌then◌else◌}
use blink_lnurl_server.Prelude.Lists.{is_empty, all, any}

abbrev pub Text : Type 0
Text = List ℕ

-- A literal of the source.
abbrev pub text : String → Text
text String.[] = []
text (String.◌∷◌ c s) = code c ∷ text s

infix 50 ◌==◌
unfoldable pub ◌==◌ : Text → Text → Bool
[] == [] = true
[] == (y ∷ t) = false
(x ∷ s) == [] = false
(x ∷ s) == (y ∷ t) = nat_eq x y && s == t

pub eq_iff : (s t : Text) → ((s == t) ≡ true) ↔ (s ≡ t)
unfolding ◌==◌
eq_iff [] [] = ground arith
eq_iff [] (y ∷ t) = ground arith
eq_iff (x ∷ s) [] = ground arith
eq_iff (x ∷ s) (y ∷ t) = ground (arith, eq_iff s t)

pub eq_refl : (s : Text) → (s == s) ≡ true
eq_refl s = (eq_iff s s).1 refl

pub eq_sym : (s t : Text) → (s == t) ≡ true → (t == s) ≡ true
eq_sym s t h = (eq_iff t s).1 (sym ((eq_iff s t).0 h))

pub eq_sym_false : (s t : Text) → (s == t) ≡ false → (t == s) ≡ false
eq_sym_false s t h = elim (Bool-cases (t == s)) [
  | inl equal ↦ absurd (cc (h, eq_sym t s equal))
  | inr differ ↦ differ
]

-- Two texts that differ are not both equal to a third.
pub eq_apart : (s t u : Text) → (t == u) ≡ false → (s == u) ≡ true → (s == t) ≡ false
eq_apart s t u apart same = elim (Bool-cases (s == t)) [
  | inl equal ↦
      let e : t ≡ u = sym ((eq_iff s t).0 equal) ∙ (eq_iff s u).0 same in
      absurd (cc (apart, (eq_iff t u).1 e))
  | inr differ ↦ differ
]

unfoldable pub starts_with : Text → Text → Bool
starts_with [] s = true
starts_with (c ∷ p) [] = false
starts_with (c ∷ p) (x ∷ s) = nat_eq c x && starts_with p s

-- `char::is_whitespace`: the code points with the Unicode property White_Space.
unfoldable pub is_whitespace : ℕ → Bool
is_whitespace c =
    (leb 0x9 c && leb c 0xd)
    || nat_eq c 0x20
    || nat_eq c 0x85
    || nat_eq c 0xa0
    || nat_eq c 0x1680
    || (leb 0x2000 c && leb c 0x200a)
    || nat_eq c 0x2028
    || nat_eq c 0x2029
    || nat_eq c 0x202f
    || nat_eq c 0x205f
    || nat_eq c 0x3000

unfoldable pub trim_start : Text → Text
trim_start [] = []
trim_start (c ∷ s) = let rest = trim_start s in if is_whitespace c then rest else c ∷ s

unfoldable pub trim_end : Text → Text
trim_end [] = []
trim_end (c ∷ s) =
    let rest = trim_end s in if is_empty rest && is_whitespace c then [] else c ∷ rest

unfoldable pub trim : Text → Text
unfolding trim_start trim_end is_whitespace
trim s = trim_end (trim_start s)

unfoldable pub is_ascii_digit : ℕ → Bool
is_ascii_digit c = leb b'0' c && leb c b'9'

unfoldable pub is_ascii_lowercase : ℕ → Bool
is_ascii_lowercase c = leb b'a' c && leb c b'z'

unfoldable pub is_ascii_uppercase : ℕ → Bool
is_ascii_uppercase c = leb b'A' c && leb c b'Z'

unfoldable pub to_ascii_lowercase : ℕ → ℕ
unfolding is_ascii_uppercase
to_ascii_lowercase c = if is_ascii_uppercase c then c + 32 else c

unfoldable pub eq_ignore_ascii_case : Text → Text → Bool
unfolding to_ascii_lowercase ◌==◌
eq_ignore_ascii_case s t = map to_ascii_lowercase s == map to_ascii_lowercase t

-- `str::to_lowercase` goes by the Unicode tables, which the source takes from the standard library.
-- It is a parameter; what is relied on is that it does the expected to ASCII text.
pub record LowersAscii (to_lowercase : Text → Text) : Type 0 where
  pub on_ascii :
      (s : Text) → all (λ c. ltb c 128) s ≡ true → to_lowercase s ≡ map to_ascii_lowercase s

no_whitespace-trim_start : (s : Text) → any is_whitespace s ≡ false → trim_start s ≡ s
unfolding any trim_start
no_whitespace-trim_start [] h = refl
no_whitespace-trim_start (c ∷ s) h = ground arith

no_whitespace-trim_end : (s : Text) → any is_whitespace s ≡ false → trim_end s ≡ s
unfolding any trim_end
no_whitespace-trim_end [] h = refl
no_whitespace-trim_end (c ∷ s) h = ground (arith, no_whitespace-trim_end s)

pub trim-eq_of_no_whitespace : (s : Text) → any is_whitespace s ≡ false → trim s ≡ s
unfolding trim
trim-eq_of_no_whitespace s h = rw (no_whitespace-trim_start s h) (no_whitespace-trim_end s h)
