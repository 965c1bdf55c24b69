-- ===== src/Data/Client.antt =====
-- Data/Client.h and Data/Client.cpp: a client machine and its sensors. The JSON reader is the
-- parameter `Json`.
pub mod Writing
use minority_viewport.Base.{
  ℕ, zero, suc, ◌+◌, ◌^◌, Bytes, codes, List, [], ◌∷◌, Option, none, some, Result, ok, err,
  out_of_range, no_fuel, or_fault, ◌>>=◌, ltb, if◌then◌else◌,
}
use minority_viewport.Base.OrderedMap.{find, insert, bytes_order}
use minority_viewport.Data.Json.{Json}
use minority_viewport.Data.Sensor.{Sensor, Store, new_sensor, delete_sensor}

pub record Client : Type 0 where
  pub id : ℕ
  pub location : Bytes
  pub ip_addr : Bytes
  pub sensors : List (Bytes × Sensor)

-- The constructor.
abbrev pub new_client : ℕ → Bytes → Bytes → Client
new_client id location ip_addr = record {
  id = id;
  location = location;
  ip_addr = ip_addr;
  sensors = [];
}

-- `nullptr` for a client without sensors, and `map::at` otherwise.
unfoldable pub extract_sensor : Bytes → Client → Result (Option Sensor)
extract_sensor id c = elim c.sensors [
  | [] ↦ ok none
  | e ∷ m ↦ do s ← or_fault (find id c.sensors) out_of_range; ok (some s)
]

module _ {D M : Type 0} where
  -- The destructor: every sensor is deleted.
  unfoldable pub delete_sensors : List (Bytes × Sensor) → Store D M → Store D M
  delete_sensors [] store = store
  delete_sensors ((id, s) ∷ m) store = delete_sensors m (delete_sensor s store)

  unfoldable pub delete_client : Client → Store D M → Store D M
  unfolding delete_sensors
  delete_client c store = delete_sensors c.sensors store

module _ (J : Json) {D M : Type 0} (address : ℕ → ℕ) (empty : M) where
  open J use {Value, parse, null_value, get, at, size, as_string}

  -- The loop over the array, from index `i` on for a number of rounds. `insert` leaves a sensor that
  -- is there, and the new one is lost with its scene.
  unfoldable pub load_sensors : ℕ → ℕ → Value → Client × Store D M → Result (Client × Store D M)
  load_sensors zero i sensors (c, store) = ok (c, store)
  load_sensors (suc n) i sensors (c, store) = do
    id ← as_string (get (at sensors i) (codes "id") null_value)
    let (s, store') = new_sensor address empty id store
    load_sensors n (i + 1) sensors (record c { sensors = insert id s c.sensors }, store')

  -- `InitialSensorsList`. The counter is an `unsigned short`: a longer array is never passed through.
  unfoldable pub initial_sensors_list : Bytes → Client × Store D M → Result (Client × Store D M)
  unfolding load_sensors
  initial_sensors_list raw (c, store) = elim (parse raw) [
    | none ↦ ok (c, store)
    | some root ↦
        let sensors = get root (codes "Sensors") null_value in
        if ltb (size sensors) (2 ^ 16)
        then load_sensors (size sensors) 0 sensors (c, store)
        else err no_fuel
  ]
