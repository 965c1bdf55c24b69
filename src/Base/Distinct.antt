-- ===== src/Base/Distinct.antt =====
-- Lists of numbers without repetition.
use Prim.Native.Nat.{ℕ, zero, suc, ◌+◌, ◌≤◌}
use mathlib.Core.Path.{◌≡◌, refl}
use mathlib.Core.Bool.{false}
use mathlib.Core.List.{List, [], ◌∷◌, ◌++◌}
use native.Mathlib.Omega.{arith}
use minority_viewport.Base.Tests.{◌==◌, if◌then◌else◌}
use minority_viewport.Base.Lists.{All, All-append, length}

-- `x` does not occur.
abbrev pub Fresh : ℕ → List ℕ → Type 0
Fresh x = All (λ y. (y == x) ≡ false)

abbrev pub Distinct : List ℕ → Type 0
Distinct [] = Unit {0}
Distinct (x ∷ xs) = Fresh x xs × Distinct xs

pub Fresh-prefix : (x : ℕ) (xs ys : List ℕ) → Fresh x (xs ++ ys) → Fresh x xs
Fresh-prefix x [] ys f = tt
Fresh-prefix x (y ∷ xs) ys f = (f.0, Fresh-prefix x xs ys f.1)

-- An element goes to the end.
Fresh-move : (x y : ℕ) (xs ys : List ℕ) → Fresh x (xs ++ y ∷ ys) → Fresh x (xs ++ (ys ++ y ∷ []))
Fresh-move x y [] ys f = All-append _ ys _ f.1 (f.0, tt)
Fresh-move x y (z ∷ xs) ys f = (f.0, Fresh-move x y xs ys f.1)

Distinct-append_one : (xs : List ℕ) (y : ℕ) → Distinct xs → Fresh y xs → Distinct (xs ++ y ∷ [])
Distinct-append_one [] y d f = (tt, tt)
Distinct-append_one (x ∷ xs) y d f =
    (All-append _ xs _ d.0 (ground arith, tt), Distinct-append_one xs y d.1 f.1)

pub Distinct-move :
    (xs ys : List ℕ) (y : ℕ) → Distinct (xs ++ y ∷ ys) → Distinct (xs ++ (ys ++ y ∷ []))
Distinct-move [] ys y d = Distinct-append_one ys y d.1 d.0
Distinct-move (x ∷ xs) ys y d = (Fresh-move x y xs ys d.0, Distinct-move xs ys y d.1)

pub Distinct-append : (xs : List ℕ) (y : ℕ) → Distinct xs → Fresh y xs → Distinct (xs ++ y ∷ [])
Distinct-append = Distinct-append_one

Fresh-at : (x y : ℕ) (xs ys : List ℕ) → Fresh x (xs ++ y ∷ ys) → (y == x) ≡ false
Fresh-at x y [] ys f = f.0
Fresh-at x y (z ∷ xs) ys f = Fresh-at x y xs ys f.1

pub Fresh-middle : (xs ys : List ℕ) (y : ℕ) → Distinct (xs ++ y ∷ ys) → Fresh y xs
Fresh-middle [] ys y d = tt
Fresh-middle (x ∷ xs) ys y d = (ground (arith, Fresh-at x y xs ys d.0), Fresh-middle xs ys y d.1)

pub Fresh-after : (xs ys : List ℕ) (y : ℕ) → Distinct (xs ++ y ∷ ys) → Fresh y ys
Fresh-after [] ys y d = d.0
Fresh-after (x ∷ xs) ys y d = Fresh-after xs ys y d.1

-- The list without a number.
abbrev erase_all : ℕ → List ℕ → List ℕ
erase_all n [] = []
erase_all n (x ∷ xs) = if x == n then erase_all n xs else x ∷ erase_all n xs

length-erase_all-Fresh : (n : ℕ) (xs : List ℕ) → Fresh n xs → length (erase_all n xs) ≡ length xs
length-erase_all-Fresh n [] f = refl
length-erase_all-Fresh n (x ∷ xs) f =
    rw (erase_all, f.0) (omega (arith, length-erase_all-Fresh n xs f.1))

length-erase_all : (n : ℕ) (xs : List ℕ) → Distinct xs → length xs ≤ length (erase_all n xs) + 1
length-erase_all n [] d = omega arith
length-erase_all n (x ∷ xs) d =
    ground (arith, length-erase_all n xs d.1, length-erase_all-Fresh n xs)

erase_all-Fresh : (n x : ℕ) (xs : List ℕ) → Fresh x xs → Fresh x (erase_all n xs)
erase_all-Fresh n x [] f = tt
erase_all-Fresh n x (y ∷ xs) f = ground (arith, erase_all-Fresh n x xs f.1)

erase_all-Distinct : (n : ℕ) (xs : List ℕ) → Distinct xs → Distinct (erase_all n xs)
erase_all-Distinct n [] d = tt
erase_all-Distinct n (x ∷ xs) d =
    ground (arith, erase_all-Distinct n xs d.1, erase_all-Fresh n x xs d.0)

abbrev pub Within : ℕ → List ℕ → Type 0
Within n = All (λ x. (1 ≤ x) × (x ≤ n))

erase_all-Within : (n : ℕ) (xs : List ℕ) → Within (suc n) xs → Within n (erase_all (suc n) xs)
erase_all-Within n [] w = tt
erase_all-Within n (x ∷ xs) w = ground (arith, erase_all-Within n xs w.1)

-- The pigeonhole principle.
pub length-Distinct : (n : ℕ) (xs : List ℕ) → Within n xs → Distinct xs → length xs ≤ n
length-Distinct zero [] w d = omega arith
length-Distinct zero (x ∷ xs) w d = omega arith
length-Distinct (suc n) xs w d = omega (
  arith,
  length-erase_all (suc n) xs d,
  length-Distinct n (erase_all (suc n) xs) (erase_all-Within n xs w)
      (erase_all-Distinct (suc n) xs d),
)
