-- ===== src/Data/Sensor.antt =====
-- Data/Sensor.h and Data/Sensor.cpp, and the store of the scenes, which are shared by pointers: a
-- sensor owns its scene, and the viewport and the neighbouring scenes point at it. An address names
-- a live scene or nothing; what `new` answers is a parameter.
use minority_viewport.Base.{
  ℕ, ◌+◌, Bytes, Option, none, some, Result, ok, bad_pointer, or_fault, ◌>>=◌, ◌==◌, if◌then◌else◌,
}
use minority_viewport.Data.Skeleton.{Skeleton}
use minority_viewport.Data.Scene.{Scene, new_scene, update}

pub record Sensor : Type 0 where
  pub id : Bytes
  pub scene : ℕ

module _ (D M : Type 0) where
  pub record Store : Type 0 where
    pub cell : ℕ → Option (Scene D M)
    -- how often `new Scene` was called
    pub made : ℕ

module _ {D M : Type 0} where
  abbrev pub write : ℕ → Option (Scene D M) → Store D M → Store D M
  write a s store = record store { cell = λ b. if b == a then s else store.cell b }

  abbrev pub fetch : ℕ → Store D M → Result (Scene D M)
  fetch a store = or_fault (store.cell a) bad_pointer

  -- A call of a method on the scene at an address.
  abbrev pub modify : ℕ → (Scene D M → Scene D M) → Store D M → Result (Store D M)
  modify a f store = do s ← fetch a store; ok (write a (some (f s)) store)

  -- The constructor: the sensor and the store with its scene. The address is the allocator's.
  unfoldable pub new_sensor : (ℕ → ℕ) → M → Bytes → Store D M → Sensor × Store D M
  new_sensor address empty id store = (
    record { id = id; scene = address store.made },
    record (write (address store.made) (some (new_scene empty id)) store) { made = store.made + 1 },
  )

  -- The destructor.
  unfoldable pub delete_sensor : Sensor → Store D M → Store D M
  delete_sensor s store = write s.scene none store

  -- `UpdateScene`, at a reading of the timer.
  unfoldable pub update_scene : ℕ → Sensor → Skeleton D → Store D M → Result (Store D M)
  update_scene now s person store = modify s.scene (update now person.skeleton_id person) store
