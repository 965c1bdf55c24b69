-- ===== src/Data/Scene.antt =====
-- Data/Scene.h and Data/Scene.cpp: what one sensor sees. The type of `double` is `D`, that of
-- OpenCV's `Mat` is `M`. A method that reads the timer takes the reading, `_timer->GetTicks_ms()`.
-- The mutex makes each change of the map one step.
pub mod Capacity
pub mod Refreshing
pub mod Writing
pub mod Placing
use minority_viewport.Base.{
  ℕ, ◌+◌, ◌%◌, ◌^◌, Bool, true, false, ◌&&◌, List, [], ◌∷◌, Bytes, length, Option, none, some, ltb,
  ◌==◌, if◌then◌else◌,
}
use minority_viewport.Base.OrderedMap.{find, insert, erase, number_order}
use minority_viewport.Data.Skeleton.{Skeleton}

-- `a < b` for two `long` of 32 bits, by their patterns.
abbrev pub signed_ltb : ℕ → ℕ → Bool
signed_ltb a b = ltb ((a + 2 ^ 31) % 2 ^ 32) ((b + 2 ^ 31) % 2 ^ 32)

-- A pointer: an address, null, or not yet initialised.
pub data Link : Type 0 where
  to : ℕ → Link
  null : Link
  wild : Link

module _ (D M : Type 0) where
  pub record Scene : Type 0 where
    pub sensor_id : Bytes
    pub skeletons : List (ℕ × Skeleton D)
    pub dimension_x : ℕ
    pub dimension_y : ℕ
    pub dimension_z : ℕ
    pub ordering : ℕ
    pub calibrated : Bool
    pub left : Link
    pub right : Link
    pub r_matrix : M
    pub t_matrix : M
    pub refresh_rate_ms : ℕ
    pub refresh_thread_die : Bool
    -- is there a refresh thread?
    pub refreshed : Bool
    pub first_skeleton_observed_time_ms : ℕ
    pub calibration_skeleton : Link

module _ {D : Type 0} where
  abbrev pub no_skeletons : List (ℕ × Skeleton D) → Bool
  no_skeletons [] = true
  no_skeletons (e ∷ m) = false

  -- `if(_skeletons.size()<3) _skeletons.insert(…)`.
  abbrev pub insert_below : ℕ → ℕ → Skeleton D → List (ℕ × Skeleton D) → List (ℕ × Skeleton D)
  insert_below capacity id person m = if ltb (length m) capacity then insert id person m else m

module _ {D M : Type 0} where
  -- The scene of a sensor, with its refresh thread. A `Mat` is empty at first.
  unfoldable pub new_scene : M → Bytes → Scene D M
  new_scene empty sensor_id = record {
    sensor_id = sensor_id;
    skeletons = [];
    dimension_x = 0;
    dimension_y = 0;
    dimension_z = 0;
    ordering = 0;
    calibrated = false;
    left = wild;
    right = wild;
    r_matrix = empty;
    t_matrix = empty;
    refresh_rate_ms = 3000;
    refresh_thread_die = false;
    refreshed = true;
    first_skeleton_observed_time_ms = 0;
    calibration_skeleton = wild;
  }

  -- A scene of no sensor, with no refresh thread.
  unfoldable pub new_unified_scene : M → ℕ → ℕ → ℕ → Scene D M
  unfolding new_scene
  new_unified_scene empty x y z = record (new_scene empty []) {
    dimension_x = x;
    dimension_y = y;
    dimension_z = z;
    refreshed = false;
  }

  -- The time of the first observation.
  abbrev pub observe : ℕ → Scene D M → Scene D M
  observe now s =
      if s.first_skeleton_observed_time_ms == 0 && no_skeletons s.skeletons
      then record s { first_skeleton_observed_time_ms = now }
      else s

  unfoldable pub update : ℕ → ℕ → Skeleton D → Scene D M → Scene D M
  update now id person s = record (observe now s) {
    skeletons = insert_below 3 id person (erase id s.skeletons);
  }

  unfoldable pub remove : ℕ → Scene D M → Scene D M
  remove id s = record s { skeletons = erase id s.skeletons }

  unfoldable pub manual_clear : Scene D M → Scene D M
  manual_clear s = record s { skeletons = [] }

  unfoldable pub set_ordering : ℕ → Scene D M → Scene D M
  set_ordering order s = record s { ordering = order }

  unfoldable pub set_calibration : Bool → Scene D M → Scene D M
  set_calibration calibrated s = record s { calibrated = calibrated }

  unfoldable pub set_r_and_t : M → M → Scene D M → Scene D M
  set_r_and_t r t s = record s { r_matrix = r; t_matrix = t }

  unfoldable pub set_dimensions : ℕ → ℕ → ℕ → Scene D M → Scene D M
  set_dimensions x y z s = record s { dimension_x = x; dimension_y = y; dimension_z = z }

  unfoldable pub set_left_right_scene : Link → Link → Scene D M → Scene D M
  set_left_right_scene left right s = record s { left = left; right = right }

  unfoldable pub set_calibration_skeleton : Link → Scene D M → Scene D M
  set_calibration_skeleton skeleton s = record s { calibration_skeleton = skeleton }

  -- One round of the refresh thread's loop, `Clear`: the time of the next lapse and the scene. The
  -- timer is read twice; the readings and the lapse are patterns of a `long` of 32 bits, and the sum with
  -- the rate, an `unsigned long`, wraps. `none`: the thread ends.
  unfoldable pub refresh_round : ℕ → ℕ → ℕ × Scene D M → Option (ℕ × Scene D M)
  unfolding manual_clear
  refresh_round now again (next_lapse, s) =
      if s.refresh_thread_die
      then none
      else if signed_ltb next_lapse again
      then some ((now + s.refresh_rate_ms) % 2 ^ 32, manual_clear s)
      else some (next_lapse, s)
