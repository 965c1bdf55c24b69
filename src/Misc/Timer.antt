-- ===== src/Misc/Timer.antt =====
-- Misc/Timer.h and Misc/Timer.cpp. A `clock_t` is a `long` of 32 bits, here its pattern; `now` is what
-- `clock()` answers in a call.
pub mod Ticks
use minority_viewport.Base.{
  ℕ, ◌+◌, ◌-◌, ◌%◌, ◌^◌, Bool, true, false, Option, none, some, Result, ok, err, undefined,
  or_fault, ◌>>=◌, ltb, if◌then◌else◌,
}

pub record Timer : Type 0 where
  pub started_at : ℕ
  pub paused_at : ℕ
  -- not initialised by the constructor
  pub internal_counter : Option ℕ
  pub started : Bool
  pub paused : Bool

unfoldable pub new_timer : ℕ → Timer
new_timer start_at = record {
  started_at = start_at;
  paused_at = 0;
  internal_counter = none;
  started = false;
  paused = false;
}

unfoldable pub start : ℕ → Timer → Timer
start now t =
    if t.started
    then t
    else record t { started = true; paused = false; internal_counter = some now }

unfoldable pub reset : ℕ → Timer → Timer
reset now t = record t { paused = false; started_at = now }

-- The sum `a + (b - c)` in `double`, converted to `clock_t`: undefined from 2^31 on. All three are
-- below 2^31, so that the sum is above -2^31.
abbrev pub add_difference : ℕ → ℕ → ℕ → Result ℕ
add_difference a b c =
    if ltb (a + b) c
    then ok (2 ^ 32 - (c - (a + b)))
    else if ltb (a + b - c) (2 ^ 31)
    then ok (a + b - c)
    else err undefined

unfoldable pub get_ticks_ms : ℕ → Timer → Result ℕ
get_ticks_ms now t =
    if t.started
    then (if t.paused then ok ((t.paused_at + 2 ^ 32 - t.started_at) % 2 ^ 32) else (do
      counter ← or_fault t.internal_counter undefined
      add_difference t.started_at now counter))
    else ok 0
