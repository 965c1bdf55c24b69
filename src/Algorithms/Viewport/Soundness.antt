-- ===== src/Algorithms/Viewport/Soundness.antt =====
-- What every operation of Algorithms/MinorityViewportAlgo.cpp preserves.
pub mod Clients
pub mod Scenes
pub mod People
use minority_viewport.Base.{
  ℕ, zero, suc, ◌+◌, ◌^◌, Bool, true, false, List, [], ◌∷◌, ◌++◌, map, Bytes, codes, Option, none,
  some, Result, length, ap, ok, err, ok-injective, ◌>>=◌, >>=-eq-ok, ltb, if◌then◌else◌, ◌≡◌, refl,
  sym, subst, ◌∙◌, arith, ◌==◌, ==→eq, Bool-cases, Option-cases, inl, inr,
}
use minority_viewport.Data.Json.{Json}
use minority_viewport.Data.Matrix.{Matrices}
use minority_viewport.Data.Skeleton.Reading.{Readers}
use minority_viewport.Data.Scene
use minority_viewport.Data.Scene.{
  Scene, Link, new_scene, set_ordering, set_left_right_scene, set_calibration, set_r_and_t,
}
use minority_viewport.Data.Scene.Capacity.{IsValid}
use minority_viewport.Data.Sensor.{Sensor, Store, write, fetch, modify, new_sensor, delete_sensor}
use minority_viewport.Data.Client.{
  Client, new_client, delete_sensors, delete_client, load_sensors, initial_sensors_list,
}
use minority_viewport.Data.ClientsList.{ClientsList, at, set_at, add_client, remove_client}
use minority_viewport.Data.ClientsList.Ids
use minority_viewport.Data.ClientsList.Ids.{ids, add_client-IsValid}
use minority_viewport.Data.ClientsList.Removal.{remove_client-found}
use minority_viewport.Algorithms.Viewport.{
  Viewport, Pass, register_client, delete_found, deregister_client, register_sensors,
  refresh_scenes_set, count_calibrated, reset_orders, take_order, assign_scene, assign_scenes, sort,
  assign_times, link_scenes, link_ordered, order_scenes, calibrate_scene_order,
}
use minority_viewport.Algorithms.Viewport.Alignment.{
  scene_at, align, frames, assign_frames, calibrate_pairs, read_arrays, calibrate_parsed,
  calibrate_scenes, Pairs,
}
use minority_viewport.Algorithms.Viewport.Merging.{merge_scenes, get_global_scene}
use minority_viewport.Algorithms.Viewport.Merging.People.{merge_scenes-IsMerged}
use minority_viewport.Algorithms.Viewport.SensorData.{process_sensor_data}
use minority_viewport.Algorithms.Viewport.Ownership.{alive, IsOwned}
use minority_viewport.Algorithms.Viewport.SensorData.Loading.{
  AreValid, at-AreValid, write-AreValid, write-alive, process_sensor_data-Loaded,
}

module _ {D M : Type 0} where
  -- The identifiers of the clients are valid, and so are all live scenes and the global scene; no two
  -- sensors have one scene, and the scene of every sensor is live.
  pub record IsSound (v : Viewport D M) : Type 0 where
    pub clients_valid : Ids.IsValid v.clients
    pub are_valid : AreValid v.store
    pub global_valid : IsValid v.global_scene
    pub owned : IsOwned v

  -- The scenes of a store are valid, and live where they were at the start.
  pub record IsKept (start store : Store D M) : Type 0 where
    pub are_valid : AreValid store
    pub same_alive : (a : ℕ) → alive (store.cell a) ≡ alive (start.cell a)

  pub IsKept-refl : (v : Viewport D M) → IsSound v → IsKept v.store v.store
  IsKept-refl v h = record { are_valid = h.are_valid; same_alive = λ a. refl }

  -- The store may change as long as its scenes are kept.
  pub stored-IsSound :
      (v : Viewport D M) (store : Store D M) (ordered set : List ℕ)
      → IsSound v
      → IsKept v.store store
      → IsSound (record v { store = store; ordered_scenes = ordered; scenes_set = set })
  stored-IsSound v store ordered set h k = record {
    clients_valid = h.clients_valid;
    are_valid = k.are_valid;
    global_valid = h.global_valid;
    owned = λ a. omega (arith, h.owned a, k.same_alive a);
  }

  pub modify-IsKept :
      {start : Store D M} (a : ℕ) (f : Scene D M → Scene D M) (store : Store D M)
      {store' : Store D M}
      → ((s : Scene D M) → IsValid s → IsValid (f s))
      → IsKept start store
      → modify a f store ≡ ok store'
      → IsKept start store'
  modify-IsKept {start} a f store {store'} keeps k e = elim (Option-cases (store.cell a)) [
    | inl dead ↦ cc (rw dead at e)
    | inr (s, live) ↦ subst (IsKept start) (ok-injective (rw live at e)) (record {
      are_valid =
          write-AreValid a (f s) store (keeps s (at-AreValid store k.are_valid live)) k.are_valid;
      same_alive = λ b. write-alive a (f s) store live b ∙ k.same_alive b;
    })
  ]

  delete-AreValid :
      (s : Sensor) (store : Store D M) → AreValid store → AreValid (delete_sensor s store)
  unfolding delete_sensor
  delete-AreValid s store all b = elim (Bool-cases (b == s.scene)) [
    | inl same ↦ rw same tt
    | inr other ↦ rw other (all b)
  ]

  pub delete_sensors-AreValid :
      (m : List (Bytes × Sensor)) (store : Store D M)
      → AreValid store
      → AreValid (delete_sensors m store)
  unfolding delete_sensors
  delete_sensors-AreValid [] store all = all
  delete_sensors-AreValid ((id, s) ∷ m) store all =
      delete_sensors-AreValid m (delete_sensor s store) (delete-AreValid s store all)

  new_scene-IsValid : (empty : M) (id : Bytes) → IsValid (new_scene {D = D} empty id)
  unfolding new_scene
  new_scene-IsValid empty id = record { sorted = tt; bounded = omega arith }

  pub new_sensor-AreValid :
      (address : ℕ → ℕ) (empty : M) (id : Bytes) (store : Store D M)
      → AreValid store
      → AreValid (new_sensor address empty id store).1
  unfolding new_sensor
  new_sensor-AreValid address empty id store all =
      write-AreValid (address store.made) (new_scene empty id) store (new_scene-IsValid empty id)
        all
