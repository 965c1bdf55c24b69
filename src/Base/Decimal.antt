-- ===== src/Base/Decimal.antt =====
-- Decimal numerals: what `std::to_string` and `boost::lexical_cast<std::string>` write for a number
-- that is not negative, and the number that a string of digits stands for.
use Prim.Native.Nat.{ℕ, zero, suc, ◌+◌, ◌-◌, ◌*◌, ◌/◌, ◌%◌, ◌^◌, ◌≤◌, ◌<◌}
use mathlib.Core.Path.{◌≡◌, refl, ◌∙◌}
use mathlib.Core.Logic.{◌≢◌, inl, inr}
use mathlib.Core.List.{[], ◌∷◌, ◌++◌}
use native.Mathlib.Omega.{arith}
use minority_viewport.Base.Tests.{if◌then◌else◌, Bool-cases, ltb, ltb→lt}
use minority_viewport.Base.Lists.{Bytes, All, All-append}

-- The fuel exceeds the number of digits.
digits : ℕ → ℕ → Bytes
digits zero n = []
digits (suc f) n =
    let front = digits f (n / 10) in
    if ltb n 10 then (b'0' + n) ∷ [] else front ++ (b'0' + n % 10) ∷ []

unfoldable pub to_string : ℕ → Bytes
unfolding digits
to_string n = digits (suc n) n

-- The number read on from `a`.
abbrev pub read_decimal : ℕ → Bytes → ℕ
read_decimal a [] = a
read_decimal a (c ∷ cs) = read_decimal (a * 10 + (c - b'0')) cs

-- The same in 32 bits.
abbrev pub read_decimal_32 : ℕ → Bytes → ℕ
read_decimal_32 a [] = a
read_decimal_32 a (c ∷ cs) = read_decimal_32 ((a * 10 + (c - b'0')) % 2 ^ 32) cs

abbrev pub Digit : ℕ → Type 0
Digit c = (b'0' ≤ c) × (c ≤ b'9')

read_decimal-append :
    (a : ℕ) (xs : Bytes) (c : ℕ)
    → read_decimal a (xs ++ c ∷ []) ≡ read_decimal a xs * 10 + (c - b'0')
read_decimal-append a [] c = refl
read_decimal-append a (x ∷ xs) c = read_decimal-append (a * 10 + (x - b'0')) xs c

read_decimal-digits : (f n : ℕ) → n < f → read_decimal 0 (digits f n) ≡ n
unfolding digits
read_decimal-digits zero n h = absurd (omega arith)
read_decimal-digits (suc f) n h = elim (Bool-cases (ltb n 10)) [
  | inl small ↦ rw small (omega arith)
  | inr large ↦
      rw large (
        read_decimal-append 0 (digits f (n / 10)) _
        ∙ ground (arith, read_decimal-digits f (n / 10)))
]

digits-Digit : (f n : ℕ) → All Digit (digits f n)
unfolding digits
digits-Digit zero n = tt
digits-Digit (suc f) n = elim (Bool-cases (ltb n 10)) [
  | inl small ↦ rw small (omega (arith, ltb→lt n 10 small))
  | inr large ↦
      rw large (All-append Digit (digits f (n / 10)) _ (digits-Digit f (n / 10)) (omega arith))
]

-- Reading back what was written gives the number.
pub read_decimal-to_string : (n : ℕ) → read_decimal 0 (to_string n) ≡ n
unfolding to_string
read_decimal-to_string n = read_decimal-digits (suc n) n (omega arith)

pub to_string-Digit : (n : ℕ) → All Digit (to_string n)
unfolding to_string
to_string-Digit n = digits-Digit (suc n) n

append-ne-nil : (xs : Bytes) (c : ℕ) → xs ++ c ∷ [] ≢ []
append-ne-nil [] c = λ e. cc
append-ne-nil (x ∷ xs) c = λ e. cc

pub to_string-ne-nil : (n : ℕ) → to_string n ≢ []
unfolding to_string
to_string-ne-nil n = elim (Bool-cases (ltb n 10)) [
  | inl small ↦ rw small (λ e. cc)
  | inr large ↦ rw large (append-ne-nil _ _)
]

next_mod : (a d : ℕ) → ((a % 2 ^ 32) * 10 + d) % 2 ^ 32 ≡ (a * 10 + d) % 2 ^ 32
next_mod a d = omega arith

-- In 32 bits the result is the number's remainder.
pub read_decimal_32-mod :
    (a : ℕ) (xs : Bytes) → read_decimal_32 (a % 2 ^ 32) xs ≡ read_decimal a xs % 2 ^ 32
read_decimal_32-mod a [] = refl
read_decimal_32-mod a (c ∷ cs) =
    rw (next_mod a (c - b'0')) (read_decimal_32-mod (a * 10 + (c - b'0')) cs)

pub read_decimal_32-to_string : (n : ℕ) → n < 2 ^ 32 → read_decimal_32 0 (to_string n) ≡ n
read_decimal_32-to_string n h =
    omega (arith, read_decimal_32-mod 0 (to_string n), read_decimal-to_string n)
