-- ===== src/Tests/Algorithms.antt =====
-- Algorithms/: the order of the scenes at concrete inputs.
use minority_viewport.Base.{
  ℕ, true, false, [], ◌∷◌, codes, none, some, ok, ◌==◌, if◌then◌else◌, ◌≡◌, refl, arith,
}
use minority_viewport.Data.Scene.{Scene, new_scene}
use minority_viewport.Data.Sensor.{Sensor}
use minority_viewport.Algorithms.Viewport.{
  Viewport, calibrate_scene_order, all_scenes, add_scenes, set_insert,
}
use minority_viewport.Algorithms.Viewport.Calibration.{
  IsOrdered, cleared, calibrate_scene_order_observed, calibrate_scene_order_unobserved,
}

-- The scene at address 30 was the first to see somebody, the one at 20 the next.
abbrev pub times : ℕ → ℕ
times a = if a == 30 then 100 else if a == 20 then 250 else 0

abbrev pub scene_seen_at : ℕ → Scene ℕ ℕ
scene_seen_at t = record made { first_skeleton_observed_time_ms = t }
  where
    made : Scene ℕ ℕ
    made = new_scene 0 (codes "k")

abbrev pub sensor : ℕ → Sensor
sensor a = record { id = codes "k"; scene = a }

abbrev pub watching : ℕ → Viewport ℕ ℕ
watching t = record {
  clients = record {
    avaliable_ids = [];
    raw_client_list =
        record {
          id = 4;
          location = [];
          ip_addr = [];
          sensors = (codes "a", sensor 20) ∷ (codes "b", sensor 30) ∷ [];
        }
        ∷ [];
  };
  store = record {
    cell = λ a.
        if a == 30
        then some (scene_seen_at t)
        else if a == 20
        then some (scene_seen_at 250)
        else none;
    made = 2;
  };
  global_scene = scene_seen_at 0;
  ordered_scenes = 20 ∷ [];
  scenes_set = [];
}

calibrate_scene_order_observed_example :
    (v' : Viewport ℕ ℕ) × (calibrate_scene_order (watching 100) ≡ ok (true, v'))
    × IsOrdered times (watching 100) v'
unfolding all_scenes add_scenes set_insert
calibrate_scene_order_observed_example =
    calibrate_scene_order_observed times (watching 100) (refl, (refl, tt)) (omega arith)

calibrate_scene_order_unobserved_example :
    calibrate_scene_order (watching 0)
    ≡ ok (false, cleared (λ a. if a == 20 then 250 else 0) (watching 0))
unfolding all_scenes add_scenes set_insert
calibrate_scene_order_unobserved_example =
    calibrate_scene_order_unobserved (λ a. if a == 20 then 250 else 0) (watching 0) 30 (20 ∷ []) []
      (refl, (refl, tt)) refl refl
