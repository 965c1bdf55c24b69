-- ===== src/Algorithms/Viewport/Sensors.antt =====
-- Algorithms/MinorityViewportAlgo.cpp, `LoadSkeleton` and `GetLocalSceneBySensorId`: the scenes by
-- their sensors.
use minority_viewport.Base.{
  ℕ, List, [], ◌∷◌, ◌++◌, Bytes, All, Option, none, some, Result, ok, err, null_pointer,
  out_of_range, or_fault, ap, ◌>>=◌, if◌then◌else◌, ◌≡◌, ◌≢◌, refl, ◌∙◌, arith, eq→==,
}
use minority_viewport.Base.OrderedMap.{find, number_order, bytes_order}
use minority_viewport.Base.Texts.{bytes_eq, bytes_eq_refl, bytes_ne}
use minority_viewport.Data.Skeleton.{Skeleton}
use minority_viewport.Data.Scene.{Scene, update}
use minority_viewport.Data.Scene.Capacity.{IsValid, has_room, find-update}
use minority_viewport.Data.Sensor.{Sensor, Store, write, update_scene}
use minority_viewport.Data.Client.{Client, extract_sensor}
use minority_viewport.Data.ClientsList.{at}
use minority_viewport.Algorithms.Viewport.{Viewport}

-- The loop over the sensors of one client.
unfoldable pub scene_of : Bytes → List (Bytes × Sensor) → Option ℕ
scene_of sensor_id [] = none
scene_of sensor_id ((id, s) ∷ m) =
    if bytes_eq id sensor_id then some s.scene else scene_of sensor_id m

abbrev pub or_else : Option ℕ → Option ℕ → Option ℕ
or_else (some a) b = some a
or_else none b = b

-- The loop over the clients.
unfoldable pub scene_among : Bytes → List Client → Option ℕ
unfolding scene_of
scene_among sensor_id [] = none
scene_among sensor_id (c ∷ cs) = or_else (scene_of sensor_id c.sensors) (scene_among sensor_id cs)

-- A map in which something is found is not empty.
unless_empty :
    (id : Bytes) (s : Sensor) (m : List (Bytes × Sensor))
    → find id m ≡ some s
    → (elim m as (λ _. Result (Option Sensor)) [ [] ↦ ok none | e ∷ m' ↦ ok (some s) ])
      ≡ ok (some s)
unfolding find
unless_empty id s [] found = cc
unless_empty id s (e ∷ m) found = refl

extract_sensor-find :
    (id : Bytes) (c : Client) {s : Sensor}
    → find id c.sensors ≡ some s
    → extract_sensor id c ≡ ok (some s)
unfolding extract_sensor
extract_sensor-find id c {s} found =
    ap
      (λ o. elim c.sensors as (λ _. Result (Option Sensor)) [
        | [] ↦ ok none
        | e ∷ m ↦ do s' ← or_fault o out_of_range; ok (some s')
      ])
      found
    ∙ unless_empty id s c.sensors found

module _ {D M : Type 0} where
  -- `none` is the null pointer.
  unfoldable pub get_local_scene_by_sensor_id : Bytes → Viewport D M → Option ℕ
  unfolding scene_among
  get_local_scene_by_sensor_id sensor_id v = scene_among sensor_id v.clients.raw_client_list

  -- `sensor->UpdateScene(newSkeleton)`, which follows the pointer.
  unfoldable pub update_sensor :
      ℕ → Skeleton D → Option Sensor → Viewport D M → Result (Viewport D M)
  update_sensor now person none v = err null_pointer
  update_sensor now person (some s) v = do
    store ← update_scene now s person v.store
    ok (record v { store = store })

  -- At a reading of the timer.
  unfoldable pub load_skeleton : ℕ → Skeleton D → Viewport D M → Result (Viewport D M)
  unfolding update_sensor
  load_skeleton now person v = elim (at person.client_id v.clients.raw_client_list) [
    | none ↦ ok v
    | some c ↦ do s ← extract_sensor person.sensor_id c; update_sensor now person s v
  ]

  load_skeleton-at :
      (now : ℕ) (person : Skeleton D) (v : Viewport D M) {c : Client} {s : Sensor}
      → at person.client_id v.clients.raw_client_list ≡ some c
      → find person.sensor_id c.sensors ≡ some s
      → load_skeleton now person v ≡ update_sensor now person (some s) v
  unfolding load_skeleton
  load_skeleton-at now person v {c} {s} known owned =
      ap
        (λ o. elim o as (λ _. Result (Viewport D M)) [
          | none ↦ ok v
          | some c ↦ do s ← extract_sensor person.sensor_id c; update_sensor now person s v
        ])
        known
      ∙ rw (extract_sensor-find person.sensor_id c owned) refl

  pub update_sensor-live :
      (now : ℕ) (person : Skeleton D) (s : Sensor) (v : Viewport D M) {scene : Scene D M}
      → v.store.cell s.scene ≡ some scene
      → update_sensor now person (some s) v
        ≡ ok (record v {
          store = write s.scene (some (update now person.skeleton_id person scene)) v.store;
        })
  unfolding update_sensor update_scene
  update_sensor-live now person s v live = rw live refl

  -- A skeleton of a registered client and one of its sensors, whose scene is live and valid, is loaded
  -- into that scene and no other: the scene has it under its identifier then, if it had that
  -- identifier before or there were fewer than three people, and the clients stay as they were.
  pub load_skeleton-find :
      (now : ℕ) (person : Skeleton D) (v : Viewport D M) (other : ℕ) {c : Client} {s : Sensor}
      {scene : Scene D M}
      → at person.client_id v.clients.raw_client_list ≡ some c
      → find person.sensor_id c.sensors ≡ some s
      → v.store.cell s.scene ≡ some scene
      → IsValid scene
      → other ≢ s.scene
      → (v' : Viewport D M) × (scene' : Scene D M) × (load_skeleton now person v ≡ ok v')
        × (v'.store.cell s.scene ≡ some scene')
        × (find person.skeleton_id scene'.skeletons
            ≡ (if has_room person.skeleton_id scene then some person else none))
        × (v'.store.cell other ≡ v.store.cell other)
        × (v'.clients ≡ v.clients)
  load_skeleton-find now person v other {c} {s} {scene} known owned live valid ne =
      let scene' : Scene D M = update now person.skeleton_id person scene in
      let store' : Store D M = write s.scene (some scene') v.store in
      (
        record v { store = store' },
        scene',
        load_skeleton-at now person v known owned ∙ update_sensor-live now person s v live,
        rw (eq→== s.scene s.scene refl) refl,
        find-update now person.skeleton_id person.skeleton_id person scene valid
            ∙ rw (eq→== person.skeleton_id person.skeleton_id refl) refl,
        ground arith,
        refl,
      )

-- None of the sensors, and none of the clients' sensors, has the identifier.
abbrev pub Lacks : Bytes → List (Bytes × Sensor) → Type 0
Lacks id = All (λ e. e.0 ≢ id)

abbrev pub NoneHas : Bytes → List Client → Type 0
NoneHas id = All (λ c. Lacks id c.sensors)

scene_of-Lacks : (id : Bytes) (m : List (Bytes × Sensor)) → Lacks id m → scene_of id m ≡ none
unfolding scene_of
scene_of-Lacks id [] l = refl
scene_of-Lacks id ((k, s) ∷ m) l = rw (bytes_ne k id l.0) (scene_of-Lacks id m l.1)

scene_of-append :
    (id : Bytes) (ms ns : List (Bytes × Sensor)) (s : Sensor)
    → Lacks id ms
    → scene_of id (ms ++ (id, s) ∷ ns) ≡ some s.scene
unfolding scene_of
scene_of-append id [] ns s l = rw (bytes_eq_refl id) refl
scene_of-append id ((k, t) ∷ ms) ns s l = rw (bytes_ne k id l.0) (scene_of-append id ms ns s l.1)

scene_among-NoneHas : (id : Bytes) (cs : List Client) → NoneHas id cs → scene_among id cs ≡ none
unfolding scene_among
scene_among-NoneHas id [] n = refl
scene_among-NoneHas id (c ∷ cs) n =
    rw (scene_of-Lacks id c.sensors n.0) (scene_among-NoneHas id cs n.1)

scene_among-append :
    (id : Bytes) (before after : List Client) (c : Client) {a : ℕ}
    → NoneHas id before
    → scene_of id c.sensors ≡ some a
    → scene_among id (before ++ c ∷ after) ≡ some a
unfolding scene_among
scene_among-append id [] after c n h = rw h refl
scene_among-append id (d ∷ before) after c n h =
    rw (scene_of-Lacks id d.sensors n.0) (scene_among-append id before after c n.1 h)

-- The scene of a sensor is looked up with the first client that has a sensor of that identifier, in
-- the order of registration, and is that of the client's sensor; for an identifier that no client's
-- sensor has, the answer is the null pointer.
pub get_local_scene_by_sensor_id-first :
    {D M : Type 0} (v : Viewport D M) (before after : List Client) (c : Client)
    (ms ns : List (Bytes × Sensor)) (id absent : Bytes) (s : Sensor)
    → v.clients.raw_client_list ≡ before ++ c ∷ after
    → c.sensors ≡ ms ++ (id, s) ∷ ns
    → NoneHas id before
    → Lacks id ms
    → NoneHas absent v.clients.raw_client_list
    → (get_local_scene_by_sensor_id id v ≡ some s.scene)
      × (get_local_scene_by_sensor_id absent v ≡ none)
unfolding get_local_scene_by_sensor_id
get_local_scene_by_sensor_id-first v before after c ms ns id absent s e f n l a = (
  rw e (scene_among-append id before after c n (rw f (scene_of-append id ms ns s l))),
  scene_among-NoneHas absent v.clients.raw_client_list a,
)
