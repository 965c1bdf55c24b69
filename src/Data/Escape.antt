-- ===== src/Data/Escape.antt =====
-- The loop that Data/Skeleton.cpp, Data/Scene.cpp and Data/Client.cpp share word for word: it doubles
-- the backslashes of a sensor's identifier before that is written.
pub mod Pass
pub mod Reading
use mathlib.Core.Option
use minority_viewport.Base.{
  ℕ, zero, suc, ◌+◌, [], ◌∷◌, ◌++◌, Bytes, length, take, drop, Option, none, some, Result, ok, err,
  no_fuel, ◌==◌, if◌then◌else◌,
}

abbrev pub backslash : ℕ
backslash = b'\\'

-- `find` for one byte, from the front; `none` is `npos`.
unfoldable pub find_first : ℕ → Bytes → Option ℕ
find_first c [] = none
find_first c (x ∷ xs) = if x == c then some 0 else Option.map suc (find_first c xs)

-- `find` from a position on.
unfoldable pub find_from : ℕ → ℕ → Bytes → Option ℕ
unfolding find_first
find_from c pos s = Option.map (λ i. pos + i) (find_first c (drop pos s))

-- The loop's body.
abbrev pub double_at : ℕ → Bytes → Bytes
double_at i s = take i s ++ backslash ∷ backslash ∷ drop (suc i) s

-- The loop, from a result of `find` on, with fuel.
unfoldable pub escape_loop : ℕ → Option ℕ → Bytes → Result Bytes
unfolding find_from
escape_loop fuel none s = ok s
escape_loop zero (some i) s = err no_fuel
escape_loop (suc fuel) (some i) s =
    escape_loop fuel (find_from backslash (i + 4) (double_at i s)) (double_at i s)

-- A round for each byte is enough.
unfoldable pub escape : Bytes → Result Bytes
unfolding escape_loop find_from
escape s = escape_loop (length s) (find_from backslash 0 s) s
