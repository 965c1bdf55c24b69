-- ===== src/Algorithms/Viewport/Soundness/People.antt =====
-- The calibration of the scenes, the merge and the data of the sensors.
use minority_viewport.Base.{
  ℕ, Bool, true, false, List, [], ◌∷◌, Bytes, Option, none, some, Result, ok, ok-injective, ◌>>=◌,
  >>=-eq-ok, ◌≡◌, subst, arith,
}
use minority_viewport.Data.Json.{Json}
use minority_viewport.Data.Matrix.{Matrices}
use minority_viewport.Data.Skeleton.Reading.{Readers}
use minority_viewport.Data.Scene.{Scene, set_calibration, set_r_and_t}
use minority_viewport.Data.Scene.Capacity.{IsValid}
use minority_viewport.Data.Sensor.{modify}
use minority_viewport.Algorithms.Viewport.{Viewport}
use minority_viewport.Algorithms.Viewport.Alignment.{
  Pairs, scene_at, align, frames, assign_frames, calibrate_pairs, read_arrays, calibrate_parsed,
  calibrate_scenes,
}
use minority_viewport.Algorithms.Viewport.Merging.{merge_scenes, get_global_scene}
use minority_viewport.Algorithms.Viewport.Merging.Pruning.{pruned-alive}
use minority_viewport.Algorithms.Viewport.Merging.People.{merge_scenes-IsMerged}
use minority_viewport.Algorithms.Viewport.SensorData.{process_sensor_data}
use minority_viewport.Algorithms.Viewport.SensorData.Loading.{process_sensor_data-Loaded}
use minority_viewport.Algorithms.Viewport.Soundness.{
  IsSound, IsKept-refl, stored-IsSound, modify-IsKept,
}

module _ {D M : Type 0} where
  set_calibration-IsValid : (s : Scene D M) → IsValid s → IsValid (set_calibration true s)
  unfolding set_calibration
  set_calibration-IsValid s v = record { sorted = v.sorted; bounded = v.bounded }

  set_r_and_t-IsValid : (r t : M) (s : Scene D M) → IsValid s → IsValid (set_r_and_t r t s)
  unfolding set_r_and_t
  set_r_and_t-IsValid r t s v = record { sorted = v.sorted; bounded = v.bounded }

  assign_frames-IsSound :
      (m n : ℕ) (rt : M × M) (v : Viewport D M) {v' : Viewport D M}
      → IsSound v
      → assign_frames m n rt v ≡ ok v'
      → IsSound v'
  unfolding assign_frames
  assign_frames-IsSound m n rt v h e =
      let (body, g, f) = >>=-eq-ok _ (scene_at n v.ordered_scenes) e in
      let (store, i, j) = >>=-eq-ok _ (modify body (set_r_and_t rt.0 rt.1) v.store) f in
      let (ref, k, l) = >>=-eq-ok _ (scene_at m v.ordered_scenes) j in
      let (store', o, p) = >>=-eq-ok _ (modify body (set_calibration true) store) l in
      let (store'', q, r) = >>=-eq-ok _ (modify ref (set_calibration true) store') p in
      let first =
        modify-IsKept body (set_r_and_t rt.0 rt.1) v.store (set_r_and_t-IsValid rt.0 rt.1)
          (IsKept-refl v h) i in
      let second =
        modify-IsKept body (set_calibration true) store set_calibration-IsValid first o in
      subst IsSound (ok-injective r) (
        stored-IsSound v store'' v.ordered_scenes v.scenes_set h
          (modify-IsKept ref (set_calibration true) store' set_calibration-IsValid second q))

module _ (J : Json) {D : Type 0} (R : Readers J D) (C : Matrices D) (is_zero : D → Bool) where
  open J use {Value, parse}
  open C use {Mat}

  calibrate_pairs-IsSound :
      (m n : ℕ) (pairs : Pairs C) (v : Viewport D Mat) {v' : Viewport D Mat}
      → IsSound v
      → calibrate_pairs C m n pairs v ≡ ok v'
      → IsSound v'
  unfolding calibrate_pairs
  calibrate_pairs-IsSound m n (as', bs) v h e =
      let order = frames m as' n bs in
      let (rt, g, f) = >>=-eq-ok _ (align C order.0.1 order.1.1) e in
      assign_frames-IsSound order.0.0 order.1.0 rt v h f

  calibrate_parsed-IsSound :
      (m n : ℕ) (a b : Option Value) (v : Viewport D Mat) {r : Bool × Viewport D Mat}
      → IsSound v
      → calibrate_parsed J R C is_zero m a n b v ≡ ok r
      → IsSound r.1
  calibrate_parsed-IsSound m n (some a) (some b) v h e =
      let (pairs, g, f) = >>=-eq-ok _ (read_arrays J R C is_zero a b) e in
      let (v1, i, j) = >>=-eq-ok _ (calibrate_pairs C m n pairs v) f in
      subst (λ (r : Bool × Viewport D Mat). IsSound r.1) (ok-injective j)
        (calibrate_pairs-IsSound m n pairs v h i)
  calibrate_parsed-IsSound m n none b v h e =
      subst (λ (r : Bool × Viewport D Mat). IsSound r.1) (ok-injective e) h
  calibrate_parsed-IsSound m n (some a) none v h e =
      subst (λ (r : Bool × Viewport D Mat). IsSound r.1) (ok-injective e) h

  guarded-IsSound :
      (ordered : List ℕ) (m n : ℕ) (a b : Option Value) (v : Viewport D Mat)
      {r : Bool × Viewport D Mat}
      → IsSound v
      → (elim ordered as (λ _. Result (Bool × Viewport D Mat)) [
        | [] ↦ ok (false, v)
        | x ∷ xs ↦ calibrate_parsed J R C is_zero m a n b v
      ])
        ≡ ok r
      → IsSound r.1
  guarded-IsSound [] m n a b v h e =
      subst (λ (r : Bool × Viewport D Mat). IsSound r.1) (ok-injective e) h
  guarded-IsSound (x ∷ xs) m n a b v h e = calibrate_parsed-IsSound m n a b v h e

  pub calibrate_scenes-IsSound :
      (m : ℕ) (json_a : Bytes) (n : ℕ) (json_b : Bytes) (v : Viewport D Mat)
      {r : Bool × Viewport D Mat}
      → IsSound v
      → calibrate_scenes J R C is_zero m json_a n json_b v ≡ ok r
      → IsSound r.1
  unfolding calibrate_scenes
  calibrate_scenes-IsSound m json_a n json_b v h e =
      guarded-IsSound v.ordered_scenes m n (parse json_a) (parse json_b) v h e

  pub process_sensor_data-IsSound :
      (now : ℕ → ℕ) (text : Bytes) (v : Viewport D Mat) {v' : Viewport D Mat}
      → IsSound v
      → process_sensor_data J R now text v ≡ ok v'
      → IsSound v'
  process_sensor_data-IsSound now text v h e =
      let p = process_sensor_data-Loaded J R now text v h.are_valid e in
      record {
        clients_valid = rw p.same_clients h.clients_valid;
        are_valid = p.are_valid;
        global_valid = rw p.same_global h.global_valid;
        owned = λ a. rw p.same_clients (omega (arith, h.owned a, p.same_alive a));
      }

module _ {D : Type 0} (C : Matrices D) (near : D → D → Bool) (rand now : ℕ → ℕ) where
  open C use {Mat}

  merge_scenes-IsSound :
      (v : Viewport D Mat) {v' : Viewport D Mat}
      → IsSound v
      → merge_scenes C near rand now v ≡ ok v'
      → IsSound v'
  merge_scenes-IsSound v h e =
      let p = merge_scenes-IsMerged C near rand now v h.are_valid e in
      record {
        clients_valid = rw p.same_clients h.clients_valid;
        are_valid = p.are_valid;
        global_valid = p.global_valid;
        owned =
            λ a. rw p.same_clients (omega (arith, h.owned a, pruned-alive _ _ (p.are_pruned a)));
      }

  got-IsSound :
      (ordered : List ℕ) (v : Viewport D Mat) {r : Option (Scene D Mat) × Viewport D Mat}
      → IsSound v
      → (elim ordered as (λ _. Result (Option (Scene D Mat) × Viewport D Mat)) [
        | [] ↦ ok (none, v)
        | a ∷ as' ↦ do v' ← merge_scenes C near rand now v; ok (some v'.global_scene, v')
      ])
        ≡ ok r
      → IsSound r.1
  got-IsSound [] v h e =
      subst (λ (r : Option (Scene D Mat) × Viewport D Mat). IsSound r.1) (ok-injective e) h
  got-IsSound (a ∷ as') v h e =
      let (v1, g, f) = >>=-eq-ok _ (merge_scenes C near rand now v) e in
      subst (λ (r : Option (Scene D Mat) × Viewport D Mat). IsSound r.1) (ok-injective f)
        (merge_scenes-IsSound v h g)

  pub get_global_scene-IsSound :
      (v : Viewport D Mat) {r : Option (Scene D Mat) × Viewport D Mat}
      → IsSound v
      → get_global_scene C near rand now v ≡ ok r
      → IsSound r.1
  unfolding get_global_scene
  get_global_scene-IsSound v h e = got-IsSound v.ordered_scenes v h e
