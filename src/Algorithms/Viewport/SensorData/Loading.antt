-- ===== src/Algorithms/Viewport/SensorData/Loading.antt =====
-- What loading the data of a sensor does to the scenes.
use minority_viewport.Base.{
  ℕ, zero, suc, ◌+◌, ◌^◌, [], ◌∷◌, Bytes, codes, Option, none, some, Result, ok, ok-injective,
  ◌>>=◌, >>=-eq-ok, ltb, ◌≡◌, refl, sym, subst, ◌∙◌, ◌==◌, ==→eq, Bool-cases, Option-cases, inl,
  inr,
}
use minority_viewport.Data.Json.{Json}
use minority_viewport.Data.Skeleton.{Skeleton}
use minority_viewport.Data.Skeleton.Reading.{Readers, new_skeleton}
use minority_viewport.Data.Scene.{Scene, update}
use minority_viewport.Data.Scene.Capacity.{IsValid, update-IsValid}
use minority_viewport.Data.Sensor.{Sensor, Store, write, update_scene}
use minority_viewport.Data.Client.{Client, extract_sensor}
use minority_viewport.Data.ClientsList.{at}
use minority_viewport.Algorithms.Viewport.{Viewport}
use minority_viewport.Algorithms.Viewport.Ownership.{alive}
use minority_viewport.Algorithms.Viewport.Sensors.{load_skeleton, update_sensor, update_sensor-live}
use minority_viewport.Algorithms.Viewport.SensorData.{
  load_skeletons, process_parsed, process_sensor_data,
}

module _ {D M : Type 0} where
  -- What stands at an address is a valid scene, or nothing.
  abbrev pub IsValidCell : Option (Scene D M) → Type 0
  IsValidCell none = Unit {0}
  IsValidCell (some s) = IsValid s

  -- Every live scene is valid.
  abbrev pub AreValid : Store D M → Type 0
  AreValid store = (a : ℕ) → IsValidCell (store.cell a)

  pub at-AreValid :
      (store : Store D M) {a : ℕ} {s : Scene D M}
      → AreValid store
      → store.cell a ≡ some s
      → IsValid s
  at-AreValid store {a} all live = subst IsValidCell live (all a)

  -- Only the store has changed, and its scenes are still valid.
  pub record Loaded (v v' : Viewport D M) : Type 0 where
    pub are_valid : AreValid v'.store
    pub same_clients : v'.clients ≡ v.clients
    pub same_order : v'.ordered_scenes ≡ v.ordered_scenes
    pub same_global : v'.global_scene ≡ v.global_scene
    pub same_alive : (a : ℕ) → alive (v'.store.cell a) ≡ alive (v.store.cell a)

  Loaded-trans : {u v w : Viewport D M} → Loaded u v → Loaded v w → Loaded u w
  Loaded-trans p q = record {
    are_valid = q.are_valid;
    same_clients = q.same_clients ∙ p.same_clients;
    same_order = q.same_order ∙ p.same_order;
    same_global = q.same_global ∙ p.same_global;
    same_alive = λ a. q.same_alive a ∙ p.same_alive a;
  }

  Loaded-refl : (v : Viewport D M) → AreValid v.store → Loaded v v
  Loaded-refl v a = record {
    are_valid = a;
    same_clients = refl;
    same_order = refl;
    same_global = refl;
    same_alive = λ a. refl;
  }

  -- A live scene may change its state.
  pub write-alive :
      (a : ℕ) {s : Scene D M} (s' : Scene D M) (store : Store D M)
      → store.cell a ≡ some s
      → (b : ℕ) → alive ((write a (some s') store).cell b) ≡ alive (store.cell b)
  write-alive a s' store live b = elim (Bool-cases (b == a)) [
    | inl same ↦ rw (same, ==→eq b a same, live) refl
    | inr other ↦ rw other refl
  ]

  pub write-AreValid :
      (a : ℕ) (s : Scene D M) (store : Store D M)
      → IsValid s
      → AreValid store
      → AreValid (write a (some s) store)
  write-AreValid a s store valid all b = elim (Bool-cases (b == a)) [
    | inl same ↦ rw same valid
    | inr other ↦ rw other (all b)
  ]

  update_sensor-Loaded :
      (now : ℕ) (person : Skeleton D) (found : Option Sensor) (v : Viewport D M) {v' : Viewport D M}
      → AreValid v.store
      → update_sensor now person found v ≡ ok v'
      → Loaded v v'
  unfolding update_sensor update_scene
  update_sensor-Loaded now person none v a e = cc
  update_sensor-Loaded now person (some s) v {v'} a e = elim (Option-cases (v.store.cell s.scene)) [
    | inl dead ↦ cc (rw dead at e)
    | inr (scene, live) ↦
        let scene' = update now person.skeleton_id person scene in
        let valid =
          update-IsValid now person.skeleton_id person scene (at-AreValid v.store a live) in
        subst (Loaded v) (ok-injective (sym (update_sensor-live now person s v live) ∙ e)) (record {
          are_valid = write-AreValid s.scene scene' v.store valid a;
          same_clients = refl;
          same_order = refl;
          same_global = refl;
          same_alive = write-alive s.scene scene' v.store live;
        })
  ]

  load_found-Loaded :
      (now : ℕ) (person : Skeleton D) (found : Option Client) (v : Viewport D M) {v' : Viewport D M}
      → AreValid v.store
      → (elim found as (λ _. Result (Viewport D M)) [
        | none ↦ ok v
        | some c ↦ do s ← extract_sensor person.sensor_id c; update_sensor now person s v
      ])
        ≡ ok v'
      → Loaded v v'
  load_found-Loaded now person none v a e = subst (Loaded v) (ok-injective e) (Loaded-refl v a)
  load_found-Loaded now person (some c) v a e =
      let (s, g, f) = >>=-eq-ok _ (extract_sensor person.sensor_id c) e in
      update_sensor-Loaded now person s v a f

  load_skeleton-Loaded :
      (now : ℕ) (person : Skeleton D) (v : Viewport D M) {v' : Viewport D M}
      → AreValid v.store
      → load_skeleton now person v ≡ ok v'
      → Loaded v v'
  unfolding load_skeleton
  load_skeleton-Loaded now person v a e =
      load_found-Loaded now person (at person.client_id v.clients.raw_client_list) v a e

module _ (J : Json) {D : Type 0} (R : Readers J D) {M : Type 0} (now : ℕ → ℕ) where
  open J use {Value, parse, get, size}
  open R use {as_double, of_string, member, to_long}

  load_skeletons-Loaded :
      (n i time_stamp : ℕ) (skeletons : Value) (v : Viewport D M) {v' : Viewport D M}
      → AreValid v.store
      → load_skeletons J R now n i time_stamp skeletons v ≡ ok v'
      → Loaded v v'
  unfolding load_skeletons
  load_skeletons-Loaded zero i time_stamp skeletons v a e =
      subst (Loaded v) (ok-injective e) (Loaded-refl v a)
  load_skeletons-Loaded (suc n) i time_stamp skeletons v a e =
      let (s, g, f) = >>=-eq-ok _ (new_skeleton J R (J.at skeletons i) time_stamp) e in
      let (v1, h, k) = >>=-eq-ok _ (load_skeleton (now i) s v) f in
      let first = load_skeleton-Loaded (now i) s v a h in
      Loaded-trans first (load_skeletons-Loaded n (i + 1) time_stamp skeletons v1 first.are_valid k)

  process_parsed-Loaded :
      (root : Value) (v : Viewport D M) {v' : Viewport D M}
      → AreValid v.store
      → process_parsed J R now root v ≡ ok v'
      → Loaded v v'
  unfolding process_parsed
  process_parsed-Loaded root v a e =
      let (t, g, f) =
        >>=-eq-ok _ (as_double (get root (codes "TIME_STAMP") (of_string (codes "0")))) e in
      let (time_stamp, h, k) = >>=-eq-ok _ (to_long t) f in
      let (skeletons, l, m) = >>=-eq-ok _ (member root (codes "SENSOR_JSON")) k in
      elim (Bool-cases (ltb (size skeletons) (2 ^ 16))) [
        | inl short ↦
            load_skeletons-Loaded (size skeletons) 0 time_stamp skeletons v a (rw short at m)
        | inr long ↦ cc (rw long at m)
      ]

  parsed-Loaded :
      (parsed : Option Value) (v : Viewport D M) {v' : Viewport D M}
      → AreValid v.store
      → (elim parsed as (λ _. Result (Viewport D M)) [
        | none ↦ ok v
        | some root ↦ process_parsed J R now root v
      ])
        ≡ ok v'
      → Loaded v v'
  parsed-Loaded none v a e = subst (Loaded v) (ok-injective e) (Loaded-refl v a)
  parsed-Loaded (some root) v a e = process_parsed-Loaded root v a e

  -- Data from the network, whatever it is, that is processed without a fault leaves the clients, the
  -- order of the scenes and the global scene as they were, and every live scene valid, with at most
  -- three people in it, if all were valid before.
  pub process_sensor_data-Loaded :
      (text : Bytes) (v : Viewport D M) {v' : Viewport D M}
      → AreValid v.store
      → process_sensor_data J R now text v ≡ ok v'
      → Loaded v v'
  unfolding process_sensor_data
  process_sensor_data-Loaded [] v a e = subst (Loaded v) (ok-injective e) (Loaded-refl v a)
  process_sensor_data-Loaded (c ∷ text) v a e = parsed-Loaded (parse (c ∷ text)) v a e
