-- ===== src/Prelude/Results.antt =====
-- `Result` of the source, with `?` as the bind of a `do` block.
use mathlib.Core.Path.{◌≡◌, refl}
use mathlib.Core.Bool.{Bool, true, false}
use mathlib.Core.Option.{Option, none, some}

pub data Result {ℓ} (E A : Type ℓ) : Type ℓ where
  err : E → Result E A
  ok : A → Result E A

infixl 5 ◌>>◌ ◌>>=◌
abbrev pub ◌>>=◌ {ℓ} : {E S T : Type ℓ} → Result E S → (S → Result E T) → Result E T
err failure >>= next = err failure
ok value >>= next = next value

abbrev pub ◌>>◌ {ℓ} : {E S T : Type ℓ} → Result E S → Result E T → Result E T
first >> second = first >>= λ value. second

-- An early `return Err(e)` where the test holds.
abbrev pub refuse_if : {E : Type 0} → Bool → E → Result E (Unit {0})
refuse_if true e = err e
refuse_if false e = ok tt

abbrev pub map_err {ℓ} : {E F A : Type ℓ} → (E → F) → Result E A → Result F A
map_err f (ok a) = ok a
map_err f (err e) = err (f e)

abbrev pub ok_or {ℓ} : {E A : Type ℓ} → Option A → E → Result E A
ok_or none e = err e
ok_or (some a) e = ok a

abbrev pub is_some {ℓ} : {A : Type ℓ} → Option A → Bool
is_some none = false
is_some (some a) = true

abbrev pub is_none {ℓ} : {A : Type ℓ} → Option A → Bool
is_none none = true
is_none (some a) = false

-- Inversion of a chain that succeeds.
pub >>=-eq-ok {ℓ} :
    {E S T : Type ℓ} (r : Result E S) (next : S → Result E T) {t : T}
    → (r >>= next) ≡ ok t
    → (s : S) × (r ≡ ok s) × (next s ≡ ok t)
>>=-eq-ok (err failure) next h = cc
>>=-eq-ok (ok value) next h = (value, refl, h)

-- The value of a call that succeeds satisfies `P`.
abbrev pub Yields {ℓ} : {E A : Type ℓ} → (A → Type 0) → Result E A → Type 0
Yields P (err e) = Unit {0}
Yields P (ok a) = P a

pub >>=-Yields {ℓ} :
    {E A B : Type ℓ} (Q : A → Type 0) (P : B → Type 0) (r : Result E A) (next : A → Result E B)
    → Yields Q r
    → ((a : A) → Q a → Yields P (next a))
    → Yields P (r >>= next)
>>=-Yields Q P (err e) next q k = tt
>>=-Yields Q P (ok a) next q k = k a q

pub map_err-Yields {ℓ} :
    {E F A : Type ℓ} (P : A → Type 0) (f : E → F) (r : Result E A)
    → Yields P r
    → Yields P (map_err f r)
map_err-Yields P f (err e) h = tt
map_err-Yields P f (ok a) h = h

pub Yields-any {ℓ} : {E A : Type ℓ} (r : Result E A) → Yields (λ a. Unit {0}) r
Yields-any (err e) = tt
Yields-any (ok a) = tt

pub Yields-eq : {E A : Type 0} (r : Result E A) → Yields (λ a. r ≡ ok a) r
Yields-eq (err e) = tt
Yields-eq (ok a) = refl

-- Whatever the first call returns, the second one yields `P`.
pub >>=-Yields_next {ℓ} :
    {E A B : Type ℓ} (P : B → Type 0) (r : Result E A) (next : A → Result E B)
    → ((a : A) → Yields P (next a))
    → Yields P (r >>= next)
>>=-Yields_next P (err e) next k = tt
>>=-Yields_next P (ok a) next k = k a
