-- ===== src/Tests/Scenes.antt =====
-- Algorithms/: loading and merging two scenes, and removing their client, at concrete inputs.
use minority_viewport.Base.{
  ℕ, Bool, true, false, List, [], ◌∷◌, codes, none, some, Result, ok, err, ◌==◌, if◌then◌else◌, ◌≡◌,
  refl, arith, Bool-cases, inl, inr,
}
use minority_viewport.Base.OrderedMap.{find, erase, number_order}
use minority_viewport.Base.Texts.{bytes_eq}
use minority_viewport.Data.Skeleton.{Skeleton, Tracking, unset_shared}
use minority_viewport.Data.Skeleton.Reading.{new_skeleton, read_joints, read_tracking}
use minority_viewport.Data.Scene.{Scene, Link, to, null, new_scene, update, manual_clear}
use minority_viewport.Data.Scene.Capacity.{has_room}
use minority_viewport.Data.Sensor.{Sensor, update_scene}
use minority_viewport.Data.Client.{Client, extract_sensor}
use minority_viewport.Data.ClientsList.{at}
use minority_viewport.Algorithms.Viewport.{Viewport, deregister_client}
use minority_viewport.Algorithms.Viewport.Ownership.{IsOwned}
use minority_viewport.Algorithms.Viewport.Ownership.Departure.{Departed, deregister_client-Departed}
use minority_viewport.Algorithms.Viewport.Sensors.{load_skeleton, update_sensor}
use minority_viewport.Algorithms.Viewport.SensorData.{
  load_skeletons, process_parsed, process_sensor_data,
}
use minority_viewport.Algorithms.Viewport.SensorData.Loading.{
  AreValid, Loaded, process_sensor_data-Loaded,
}
use minority_viewport.Algorithms.Viewport.Merging.{Merge, merge_scene, start_merge}
use minority_viewport.Algorithms.Viewport.Merging.Leftmost.{merge_scene_leftmost}
use minority_viewport.Tests.World.{Rows, json, readers, matrices}

-- A person at a place on the diagonal.
abbrev pub visitor : ℕ → Skeleton ℕ
visitor n = record {
  client_id = 4;
  skeleton_id = n;
  sensor_id = codes "b";
  time_stamp = 0;
  shared = false;
  pos_x = n;
  pos_y = n;
  pos_z = n;
  tracking = Tracking.position_only;
  joints = [];
}

abbrev scene_with : Link → List (ℕ × Skeleton ℕ) → Scene ℕ Rows
scene_with left people = record empty { skeletons = people; calibrated = true; left = left }
  where
    empty : Scene ℕ Rows
    empty = new_scene [] (codes "k")

abbrev pub hall : Scene ℕ Rows
hall = scene_with null ((4, visitor 4) ∷ (7, visitor 7) ∷ [])

abbrev pub lab : Scene ℕ Rows
lab = scene_with (to 20) ((4, visitor 4) ∷ [])

abbrev pub sensor_at : ℕ → Sensor
sensor_at a = record { id = codes "k"; scene = a }

abbrev pub gallery : Viewport ℕ Rows
gallery = record {
  clients = record {
    avaliable_ids = [];
    raw_client_list =
        record {
          id = 4;
          location = [];
          ip_addr = [];
          sensors = (codes "a", sensor_at 20) ∷ (codes "b", sensor_at 30) ∷ [];
        }
        ∷ [];
  };
  store = record {
    cell = λ a. if a == 20 then some hall else if a == 30 then some lab else none;
    made = 2;
  };
  global_scene = scene_with null [];
  ordered_scenes = 20 ∷ 30 ∷ [];
  scenes_set = [];
}

pub gallery-AreValid : AreValid gallery.store
gallery-AreValid a = elim (Bool-cases (a == 20)) [
  | inl first ↦ rw first (record { sorted = ground arith; bounded = omega arith })
  | inr other ↦ elim (Bool-cases (a == 30)) [
    | inl second ↦ rw (other, second) (record { sorted = ground arith; bounded = omega arith })
    | inr neither ↦ rw (other, neither) tt
  ]
]

gallery-IsOwned : IsOwned gallery
gallery-IsOwned a = ground arith

abbrev guests : Client
guests = record {
  id = 4;
  location = [];
  ip_addr = [];
  sensors = (codes "a", sensor_at 20) ∷ (codes "b", sensor_at 30) ∷ [];
}

deregister_client-Departed_example :
    (v' : Viewport ℕ Rows) × (deregister_client 4 gallery ≡ ok v') × Departed 4 guests gallery v'
unfolding at
deregister_client-Departed_example =
    deregister_client-Departed 4 gallery (record { distinct = ground arith; within = omega arith })
      gallery-IsOwned refl

abbrev pub or_gallery : Result (Viewport ℕ Rows) → Viewport ℕ Rows
or_gallery (ok v) = v
or_gallery (err e) = gallery

abbrev pub clock : ℕ → ℕ
clock i = 500

abbrev pub same_place : ℕ → ℕ → Bool
same_place m n = m == n

abbrev processed : Viewport ℕ Rows
processed = or_gallery (process_sensor_data json readers clock (codes "{}") gallery)

process_sensor_data-Loaded_example : Loaded gallery processed
unfolding process_sensor_data process_parsed load_skeletons new_skeleton read_joints read_tracking
    load_skeleton extract_sensor update_sensor update_scene update find erase bytes_eq at
process_sensor_data-Loaded_example =
    process_sensor_data-Loaded json readers clock (codes "{}") gallery gallery-AreValid refl

abbrev pub dice : ℕ → ℕ
dice k = 105

merge_scene_leftmost_example :
    (q : Merge ℕ Rows) × (merge_scene matrices same_place dice clock 20 [] (start_merge gallery)
      ≡ ok q)
    × (find 5 q.global.skeletons ≡ some (unset_shared (visitor 7)))
    × (q.store ≡ gallery.store)
unfolding find unset_shared manual_clear has_room
merge_scene_leftmost_example =
    merge_scene_leftmost matrices same_place dice clock 20 7 5 (visitor 7) ((4, visitor 4) ∷ [])
      (start_merge gallery) refl refl refl refl (record { sorted = tt; bounded = omega arith })
