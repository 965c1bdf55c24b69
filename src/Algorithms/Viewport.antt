-- ===== src/Algorithms/Viewport.antt =====
-- Algorithms/MinorityViewportAlgo.h and Algorithms/MinorityViewportAlgo.cpp: the state, the
-- registration of clients and sensors, and the order of the scenes. The set of scenes is in the order
-- of their addresses. `ReportStatus` writes to the console and is left out.
pub mod Order
pub mod Passes
pub mod Chain
pub mod Calibration
pub mod Sensors
pub mod Listing
pub mod SensorData
pub mod Merging
pub mod Alignment
pub mod Soundness
pub mod Ownership
pub mod Registration
use mathlib.Core.List.{filter}
use minority_viewport.Base.{
  ℕ, zero, suc, ◌+◌, ◌<◌, Bool, true, false, List, [], ◌∷◌, ◌++◌, Bytes, Option, none, some, Result,
  ok, err, null_pointer, ◌>>=◌, length, ltb, leb, ◌==◌, if◌then◌else◌,
}
use minority_viewport.Data.Scene.{
  Scene, Link, to, null, set_ordering, set_left_right_scene, new_unified_scene,
}
use minority_viewport.Data.Sensor.{Sensor, Store, fetch, modify}
use minority_viewport.Data.Json.{Json}
use minority_viewport.Data.Client.{Client, initial_sensors_list, delete_client}
use minority_viewport.Data.ClientsList.{ClientsList, add_client, remove_client, at, set_at}

module _ (D M : Type 0) where
  pub record Viewport : Type 0 where
    pub clients : ClientsList
    pub store : Store D M
    pub global_scene : Scene D M
    pub ordered_scenes : List ℕ
    pub scenes_set : List ℕ

  -- Where the ordering stands: the next order, the store and the ordered scenes.
  pub record Pass : Type 0 where
    pub order : ℕ
    pub store : Store D M
    pub ordered : List ℕ

-- Every occurrence of a pointer is erased.
unfoldable pub erase_scene : ℕ → List ℕ → List ℕ
erase_scene a [] = []
erase_scene a (b ∷ bs) = if b == a then erase_scene a bs else b ∷ erase_scene a bs

unfoldable pub erase_scenes : List (Bytes × Sensor) → List ℕ → List ℕ
erase_scenes [] bs = bs
erase_scenes ((id, s) ∷ m) bs = erase_scenes m (erase_scene s.scene bs)

-- `set::insert`.
unfoldable pub set_insert : ℕ → List ℕ → List ℕ
set_insert a [] = a ∷ []
set_insert a (b ∷ bs) =
    if ltb a b then a ∷ b ∷ bs else if ltb b a then b ∷ set_insert a bs else b ∷ bs

unfoldable pub add_scenes : List (Bytes × Sensor) → List ℕ → List ℕ
add_scenes [] set = set
add_scenes ((id, s) ∷ m) set = add_scenes m (set_insert s.scene set)

unfoldable pub all_scenes : List Client → List ℕ → List ℕ
all_scenes [] set = set
all_scenes (c ∷ cs) set = all_scenes cs (add_scenes c.sensors set)

-- `std::sort` on numbers.
unfoldable pub sort_insert : ℕ → List ℕ → List ℕ
sort_insert a [] = a ∷ []
sort_insert a (b ∷ bs) = if leb a b then a ∷ b ∷ bs else b ∷ sort_insert a bs

unfoldable pub sort : List ℕ → List ℕ
sort [] = []
sort (a ∷ as') = sort_insert a (sort as')

module _ {D M : Type 0} where
  -- The constructor.
  unfoldable pub new_viewport : M → ClientsList → Store D M → Viewport D M
  new_viewport empty clients store = record {
    clients = clients;
    store = store;
    global_scene = new_unified_scene empty 10 10 10;
    ordered_scenes = [];
    scenes_set = [];
  }

  unfoldable pub register_client :
      ℕ → (ℕ → ℕ) → Bytes → Bytes → Viewport D M → Result (ℕ × Viewport D M)
  register_client fuel draws location ip_addr v = do
    (id, l) ← add_client fuel draws location ip_addr v.clients
    ok (id, record v { clients = l })

  abbrev pub delete_found : Option Client → Store D M → Store D M
  delete_found none store = store
  delete_found (some c) store = delete_client c store

  unfoldable pub deregister_client : ℕ → Viewport D M → Result (Viewport D M)
  unfolding erase_scene erase_scenes
  deregister_client id v = elim (at id v.clients.raw_client_list) [
    | none ↦ err null_pointer
    | some c ↦ do
      (deleted, l) ← remove_client id v.clients
      ok (record v {
        clients = l;
        store = delete_found deleted v.store;
        ordered_scenes = erase_scenes c.sensors v.ordered_scenes;
        scenes_set = erase_scenes c.sensors v.scenes_set;
      })
  ]

  unfoldable pub register_sensors :
      Json → (ℕ → ℕ) → M → ℕ → Bytes → Viewport D M → Result (Viewport D M)
  register_sensors J address empty id raw v = elim (at id v.clients.raw_client_list) [
    | none ↦ err null_pointer
    | some c ↦ do
      (c', store) ← initial_sensors_list J address empty raw (c, v.store)
      let l = v.clients
      ok (record v {
        clients = record l { raw_client_list = set_at id c' l.raw_client_list };
        store = store;
      })
  ]

  unfoldable pub refresh_scenes_set : Viewport D M → Viewport D M
  refresh_scenes_set v = record v { scenes_set = all_scenes v.clients.raw_client_list [] }

  -- How many scenes have seen somebody.
  unfoldable pub count_calibrated : Store D M → List ℕ → Result ℕ
  count_calibrated store [] = ok 0
  count_calibrated store (a ∷ set) = do
    s ← fetch a store
    n ← count_calibrated store set
    ok (if ltb 0 s.first_skeleton_observed_time_ms then suc n else n)

  -- Every order is reset, and the times are collected.
  unfoldable pub reset_orders : List ℕ → Store D M → List ℕ → Result (Store D M × List ℕ)
  reset_orders [] store times = ok (store, times)
  reset_orders (a ∷ set) store times = do
    store' ← modify a (set_ordering 0) store
    s ← fetch a store'
    reset_orders set store' (times ++ s.first_skeleton_observed_time_ms ∷ [])

  -- The scene takes the next order and its place at the end.
  abbrev pub take_order : ℕ → Store D M → Pass D M → Pass D M
  take_order a store p = record {
    order = p.order + 1;
    store = store;
    ordered = p.ordered ++ a ∷ [];
  }

  abbrev pub assign_scene : ℕ → ℕ → Pass D M → Result (Pass D M)
  assign_scene time a p = do
    s ← fetch a p.store
    let taken = (do store ← modify a (set_ordering p.order) p.store; ok (take_order a store p))
    if s.first_skeleton_observed_time_ms == time then taken else ok p

  -- The inner loop, for one time, over the set.
  unfoldable pub assign_scenes : ℕ → List ℕ → Pass D M → Result (Pass D M)
  assign_scenes time [] p = ok p
  assign_scenes time (a ∷ set) p = do p' ← assign_scene time a p; assign_scenes time set p'

  -- The outer loop, over the sorted times.
  unfoldable pub assign_times : List ℕ → List ℕ → Pass D M → Result (Pass D M)
  assign_times [] set p = ok p
  assign_times (time ∷ times) set p = do p' ← assign_scenes time set p; assign_times times set p'

  -- The loop over the ordered scenes, from behind the scene `prev`.
  unfoldable pub link_scenes : Link → List ℕ → Store D M → Result (Store D M)
  link_scenes prev [] store = ok store
  link_scenes prev (a ∷ []) store = modify a (set_left_right_scene prev null) store
  link_scenes prev (a ∷ b ∷ bs) store = do
    store' ← modify a (set_left_right_scene prev (to b)) store
    link_scenes (to a) (b ∷ bs) store'

  -- A scene that is alone keeps its neighbours.
  abbrev pub link_ordered : List ℕ → Store D M → Result (Store D M)
  link_ordered [] store = ok store
  link_ordered (a ∷ []) store = ok store
  link_ordered (a ∷ b ∷ bs) store = link_scenes null (a ∷ b ∷ bs) store

  -- From the reset of the scenes on.
  unfoldable pub order_scenes : Viewport D M → Result (Bool × Viewport D M)
  order_scenes v = do
    (store, times) ← reset_orders v.scenes_set v.store []
    p ← assign_times (sort times) v.scenes_set (record { order = 1; store = store; ordered = [] })
    store' ← link_ordered p.ordered p.store
    ok (true, record v { store = store'; ordered_scenes = p.ordered; scenes_set = [] })

  unfoldable pub calibrate_scene_order : Viewport D M → Result (Bool × Viewport D M)
  unfolding refresh_scenes_set
  calibrate_scene_order v = do
    let v' = record (refresh_scenes_set v) { ordered_scenes = [] }
    n ← count_calibrated v'.store v'.scenes_set
    if ltb n (length v'.scenes_set) then ok (false, v') else order_scenes v'
