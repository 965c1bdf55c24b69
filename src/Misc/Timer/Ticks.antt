-- ===== src/Misc/Timer/Ticks.antt =====
-- What a timer shows.
use minority_viewport.Base.{ℕ, ◌+◌, ◌-◌, ◌^◌, ◌≤◌, ◌<◌, ok, ◌≡◌, refl, arith}
use minority_viewport.Misc.Timer.{new_timer, start, reset, get_ticks_ms}

-- A timer shows 0 until it is started. From then on it shows the number that it was made with and the
-- ticks since it was started, also if it is started again, as long as that is below 2^31; after
-- a reset it shows the clock at the reset and the ticks since the start, not since the reset.
pub get_ticks_ms-start :
    (made c again r now : ℕ)
    → c ≤ r
    → r ≤ now
    → made + (now - c) < 2 ^ 31
    → r + (now - c) < 2 ^ 31
    → (get_ticks_ms now (new_timer made) ≡ ok 0)
      × (get_ticks_ms now (start again (start c (new_timer made))) ≡ ok (made + (now - c)))
      × (get_ticks_ms now (reset r (start c (new_timer made))) ≡ ok (r + (now - c)))
unfolding get_ticks_ms start reset new_timer
get_ticks_ms-start made c again r now h k bound bound' = (refl, ground arith, ground arith)
