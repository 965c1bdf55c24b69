-- ===== src/Algorithms/Viewport/Registration.antt =====
-- What the operations of the viewport do to the registry of the clients: registration and removal are
-- one change each, and the others leave it as it is.
pub mod Sensors
use minority_viewport.Base.{
  ℕ, zero, suc, ◌+◌, ◌^◌, Bool, true, false, List, [], ◌∷◌, Bytes, codes, Option, none, some,
  Result, ok, err, no_fuel, null_pointer, ok-injective, ◌>>=◌, >>=-eq-ok, ltb, length,
  if◌then◌else◌, ◌≡◌, refl, sym, ap, subst, ◌∙◌, Bool-cases, Option-cases, inl, inr,
}
use minority_viewport.Base.OrderedMap.{insert, bytes_order}
use minority_viewport.Data.Json.{Json}
use minority_viewport.Data.Matrix.{Matrices}
use minority_viewport.Data.Skeleton.Reading.{Readers}
use minority_viewport.Data.Scene.{set_r_and_t, set_calibration}
use minority_viewport.Data.Sensor.{Store, modify, new_sensor}
use minority_viewport.Data.Client.{Client, load_sensors, initial_sensors_list}
use minority_viewport.Data.ClientsList.{at, set_at, add_client}
use minority_viewport.Data.ClientsList.Ids
use minority_viewport.Data.ClientsList.Registry.{
  Enters, Leaves, registry, information, add_client-Enters, remove_client-Leaves, lookup-set_at,
}
use minority_viewport.Algorithms.Viewport.{
  Viewport, Pass, register_client, deregister_client, register_sensors, refresh_scenes_set,
  count_calibrated, reset_orders, assign_times, sort, link_ordered, order_scenes,
  calibrate_scene_order,
}
use minority_viewport.Algorithms.Viewport.Alignment.{
  scene_at, align, frames, assign_frames, calibrate_pairs, read_arrays, calibrate_parsed,
  calibrate_scenes, Pairs,
}
use minority_viewport.Algorithms.Viewport.Soundness.Clients.{at-id}

module _ {D M : Type 0} where
  abbrev pub registered : Viewport D M → ℕ → Option (Bytes × Bytes)
  registered v = registry v.clients

  pub register_client-Enters :
      (fuel : ℕ) (draws : ℕ → ℕ) (location ip_addr : Bytes) (v : Viewport D M) {id : ℕ}
      {v' : Viewport D M}
      → Ids.IsValid v.clients
      → register_client fuel draws location ip_addr v ≡ ok (id, v')
      → Enters id (location, ip_addr) (registered v) (registered v')
  unfolding register_client
  register_client-Enters fuel draws location ip_addr v h e =
      let (p, g, f) = >>=-eq-ok _ (add_client fuel draws location ip_addr v.clients) e in
      subst
        (λ (r : ℕ × Viewport D M). Enters r.0 (location, ip_addr) (registered v) (registered r.1))
        (ok-injective f) (add_client-Enters fuel draws location ip_addr v.clients h g)

  pub deregister_client-Leaves :
      (id : ℕ) (v : Viewport D M) {v' : Viewport D M}
      → Ids.IsValid v.clients
      → deregister_client id v ≡ ok v'
      → Leaves id (registered v) (registered v')
  unfolding deregister_client
  deregister_client-Leaves id v h e = elim (Option-cases (at id v.clients.raw_client_list)) [
    | inl missing ↦ cc (rw (deregister_client, missing) at e)
    | inr (c, found) ↦
        let (rest, removed, change) = remove_client-Leaves id c v.clients h found in
        subst (λ (w : Viewport D M). Leaves id (registered v) (registered w))
          (ok-injective (rw (deregister_client, found, removed) at e)) change
  ]

  order_scenes-clients :
      (v : Viewport D M) {r : Bool × Viewport D M} → order_scenes v ≡ ok r → r.1.clients ≡ v.clients
  unfolding order_scenes
  order_scenes-clients v e =
      let (q, g, f) = >>=-eq-ok _ (reset_orders v.scenes_set v.store []) e in
      let begun : Pass D M = record { order = 1; store = q.0; ordered = [] } in
      let (p, i, j) = >>=-eq-ok _ (assign_times (sort q.1) v.scenes_set begun) f in
      let (store, k, l) = >>=-eq-ok _ (link_ordered p.ordered p.store) j in
      subst (λ (r : Bool × Viewport D M). r.1.clients ≡ v.clients) (ok-injective l) refl

  pub calibrate_scene_order-clients :
      (v : Viewport D M) {r : Bool × Viewport D M}
      → calibrate_scene_order v ≡ ok r
      → r.1.clients ≡ v.clients
  unfolding calibrate_scene_order refresh_scenes_set
  calibrate_scene_order-clients v e =
      let v1 : Viewport D M = record (refresh_scenes_set v) { ordered_scenes = [] } in
      let (n, g, f) = >>=-eq-ok _ (count_calibrated v1.store v1.scenes_set) e in
      elim (Bool-cases (ltb n (length v1.scenes_set))) [
        | inl fewer ↦
            subst (λ (r : Bool × Viewport D M). r.1.clients ≡ v.clients)
              (ok-injective (rw fewer at f)) refl
        | inr full ↦ order_scenes-clients v1 (rw full at f)
      ]

  assign_frames-clients :
      (m n : ℕ) (rt : M × M) (v : Viewport D M) {v' : Viewport D M}
      → assign_frames m n rt v ≡ ok v'
      → v'.clients ≡ v.clients
  unfolding assign_frames
  assign_frames-clients m n rt v e =
      let (body, g, f) = >>=-eq-ok _ (scene_at n v.ordered_scenes) e in
      let (s1, i, j) = >>=-eq-ok _ (modify body (set_r_and_t rt.0 rt.1) v.store) f in
      let (ref, k, l) = >>=-eq-ok _ (scene_at m v.ordered_scenes) j in
      let (s2, o, p) = >>=-eq-ok _ (modify body (set_calibration true) s1) l in
      let (s3, x, y) = >>=-eq-ok _ (modify ref (set_calibration true) s2) p in
      subst (λ (w : Viewport D M). w.clients ≡ v.clients) (ok-injective y) refl

module _ (J : Json) {D : Type 0} (R : Readers J D) (C : Matrices D) (is_zero : D → Bool) where
  open J use {Value, parse}
  open C use {Mat}

  calibrate_parsed-clients :
      (m n : ℕ) (a b : Option Value) (v : Viewport D Mat) {r : Bool × Viewport D Mat}
      → calibrate_parsed J R C is_zero m a n b v ≡ ok r
      → r.1.clients ≡ v.clients
  unfolding calibrate_pairs
  calibrate_parsed-clients m n (some a) (some b) v e =
      let (pairs, g, f) = >>=-eq-ok _ (read_arrays J R C is_zero a b) e in
      let (v1, i, j) = >>=-eq-ok _ (calibrate_pairs C m n pairs v) f in
      let order = frames m pairs.0 n pairs.1 in
      let (rt, k, l) = >>=-eq-ok _ (align C order.0.1 order.1.1) i in
      subst (λ (r : Bool × Viewport D Mat). r.1.clients ≡ v.clients) (ok-injective j)
        (assign_frames-clients order.0.0 order.1.0 rt v l)
  calibrate_parsed-clients m n none b v e =
      subst (λ (r : Bool × Viewport D Mat). r.1.clients ≡ v.clients) (ok-injective e) refl
  calibrate_parsed-clients m n (some a) none v e =
      subst (λ (r : Bool × Viewport D Mat). r.1.clients ≡ v.clients) (ok-injective e) refl

  guarded-clients :
      (ordered : List ℕ) (m n : ℕ) (a b : Option Value) (v : Viewport D Mat)
      {r : Bool × Viewport D Mat}
      → (elim ordered as (λ _. Result (Bool × Viewport D Mat)) [
        | [] ↦ ok (false, v)
        | x ∷ xs ↦ calibrate_parsed J R C is_zero m a n b v
      ])
        ≡ ok r
      → r.1.clients ≡ v.clients
  guarded-clients [] m n a b v e =
      subst (λ (r : Bool × Viewport D Mat). r.1.clients ≡ v.clients) (ok-injective e) refl
  guarded-clients (x ∷ xs) m n a b v e = calibrate_parsed-clients m n a b v e

  pub calibrate_scenes-clients :
      (m : ℕ) (json_a : Bytes) (n : ℕ) (json_b : Bytes) (v : Viewport D Mat)
      {r : Bool × Viewport D Mat}
      → calibrate_scenes J R C is_zero m json_a n json_b v ≡ ok r
      → r.1.clients ≡ v.clients
  unfolding calibrate_scenes
  calibrate_scenes-clients m json_a n json_b v e =
      guarded-clients v.ordered_scenes m n (parse json_a) (parse json_b) v e
