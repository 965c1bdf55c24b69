-- ===== src/Base/Texts.antt =====
-- Comparison of `std::string`s, and searches in them.
use Prim.Native.Nat.{ℕ, suc}
use mathlib.Core.Path.{◌≡◌, refl}
use mathlib.Core.Logic.{◌≢◌}
use mathlib.Core.Bool.{Bool, true, false, ◌&&◌, ◌||◌}
use mathlib.Core.List.{[], ◌∷◌, ◌++◌}
use mathlib.Core.Option.{Option, none, some}
use native.Mathlib.Omega.{arith}
use minority_viewport.Base.Tests.{◌==◌, if◌then◌else◌}
use minority_viewport.Base.Lists.{Bytes, All, length}

-- `operator==`.
unfoldable pub bytes_eq : Bytes → Bytes → Bool
bytes_eq [] [] = true
bytes_eq (x ∷ xs) (y ∷ ys) = x == y && bytes_eq xs ys
bytes_eq _ _ = false

pub bytes_eq_refl : (xs : Bytes) → bytes_eq xs xs ≡ true
unfolding bytes_eq
bytes_eq_refl [] = refl
bytes_eq_refl (x ∷ xs) = ground (arith, bytes_eq_refl xs)

pub eq_of_bytes_eq : (xs ys : Bytes) → bytes_eq xs ys ≡ true → xs ≡ ys
unfolding bytes_eq
eq_of_bytes_eq [] [] h = refl
eq_of_bytes_eq [] (y ∷ ys) h = cc
eq_of_bytes_eq (x ∷ xs) [] h = cc
eq_of_bytes_eq (x ∷ xs) (y ∷ ys) h = ground (arith, eq_of_bytes_eq xs ys)

pub bytes_ne : (xs ys : Bytes) → xs ≢ ys → bytes_eq xs ys ≡ false
bytes_ne xs ys n = ground (arith, eq_of_bytes_eq xs ys)

-- `find("..") != npos`.
unfoldable pub has_dots : Bytes → Bool
has_dots [] = false
has_dots (x ∷ []) = false
has_dots (x ∷ y ∷ xs) = (x == b'.' && y == b'.') || has_dots (y ∷ xs)

-- `find_last_of` for one byte; `none` is `npos`.
unfoldable pub find_last : ℕ → Bytes → Option ℕ
find_last c [] = none
find_last c (x ∷ xs) = elim (find_last c xs) [
  | some i ↦ some (suc i)
  | none ↦ if x == c then some 0 else none
]

-- The byte does not occur.
abbrev pub Without : ℕ → Bytes → Type 0
Without c = All (λ x. (x == c) ≡ false)

pub find_last-Without : (c : ℕ) (xs : Bytes) → Without c xs → find_last c xs ≡ none
unfolding find_last
find_last-Without c [] w = refl
find_last-Without c (x ∷ xs) w = rw (find_last-Without c xs w.1, w.0)

pub find_last-append :
    (c : ℕ) (xs ys : Bytes) → Without c ys → find_last c (xs ++ c ∷ ys) ≡ some (length xs)
unfolding find_last
find_last-append c [] ys w = ground (arith, find_last-Without c ys w)
find_last-append c (x ∷ xs) ys w = rw (find_last-append c xs ys w)

-- What `has_dots` denies.
pub has_dots-append : (xs ys : Bytes) → has_dots (xs ++ b'.' ∷ b'.' ∷ ys) ≡ true
unfolding has_dots
has_dots-append [] ys = refl
has_dots-append (x ∷ []) ys = ground arith
has_dots-append (x ∷ y ∷ xs) ys = ground (arith, has_dots-append (y ∷ xs) ys)
