-- ===== src/Tests/Sensors.antt =====
-- Algorithms/: skeletons loaded and scenes looked up at concrete inputs.
use minority_viewport.Base.{
  ℕ, false, [], ◌∷◌, codes, none, some, ok, if◌then◌else◌, ◌≡◌, refl, arith,
}
use minority_viewport.Base.OrderedMap.{find, number_order, bytes_order}
use minority_viewport.Data.Skeleton.{Skeleton, Tracking}
use minority_viewport.Data.Scene.{Scene, new_scene}
use minority_viewport.Data.Scene.Capacity.{has_room}
use minority_viewport.Data.ClientsList.{at}
use minority_viewport.Algorithms.Viewport.{Viewport}
use minority_viewport.Algorithms.Viewport.Sensors.{
  load_skeleton, load_skeleton-find, get_local_scene_by_sensor_id,
  get_local_scene_by_sensor_id-first,
}
use minority_viewport.Tests.Algorithms.{watching, scene_seen_at, sensor}

abbrev visitor : Skeleton ℕ
visitor = record {
  client_id = 4;
  skeleton_id = 6;
  sensor_id = codes "b";
  time_stamp = 0;
  shared = false;
  pos_x = 1;
  pos_y = 0;
  pos_z = 2;
  tracking = Tracking.tracked;
  joints = [];
}

load_skeleton-find_example :
    (v' : Viewport ℕ ℕ) × (scene' : Scene ℕ ℕ) × (load_skeleton 9 visitor (watching 100) ≡ ok v')
    × (v'.store.cell 30 ≡ some scene')
    × (find 6 scene'.skeletons ≡ (if has_room 6 (scene_seen_at 100) then some visitor else none))
    × (v'.store.cell 20 ≡ (watching 100).store.cell 20)
    × (v'.clients ≡ (watching 100).clients)
unfolding at find new_scene
load_skeleton-find_example =
    load_skeleton-find 9 visitor (watching 100) 20 {s = sensor 30} {scene = scene_seen_at 100} refl
      refl refl (record { sorted = tt; bounded = omega arith }) (omega arith)

get_local_scene_by_sensor_id-first_example :
    (get_local_scene_by_sensor_id (codes "b") (watching 100) ≡ some 30)
    × (get_local_scene_by_sensor_id (codes "z") (watching 100) ≡ none)
get_local_scene_by_sensor_id-first_example =
    get_local_scene_by_sensor_id-first (watching 100) [] []
      (record {
        id = 4;
        location = [];
        ip_addr = [];
        sensors = (codes "a", sensor 20) ∷ (codes "b", sensor 30) ∷ [];
      })
      ((codes "a", sensor 20) ∷ []) [] (codes "b") (codes "z") (sensor 30) refl refl tt
      (ground arith, tt) ((ground arith, (ground arith, tt)), tt)
