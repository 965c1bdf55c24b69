-- ===== src/Algorithms/Viewport/Ownership.antt =====
-- Who owns which scene, as clients and sensors come and go: Algorithms/MinorityViewportAlgo.cpp with
-- Data/Client.cpp and Data/Sensor.cpp.
pub mod Changes
pub mod Allocation
pub mod Sensors
pub mod Dangling
pub mod Departure
use minority_viewport.Base.{
  ℕ, zero, suc, ◌+◌, ◌≤◌, Bool, true, false, List, [], ◌∷◌, ◌++◌, Bytes, Option, none, some,
  if◌then◌else◌, ◌==◌, ==→eq, eq→==, sym, ◌≡◌, refl, arith, Bool-cases, inl, inr,
}
use minority_viewport.Base.OrderedMap.{insert, bytes_order}
use minority_viewport.Data.Scene.{Scene}
use minority_viewport.Data.Sensor.{Sensor, Store, write, delete_sensor}
use minority_viewport.Data.Client.{Client, delete_sensors}
use minority_viewport.Data.ClientsList.{at, set_at}
use minority_viewport.Algorithms.Viewport.{Viewport}

-- How many of the sensors have their scene at an address.
abbrev pub uses : ℕ → List (Bytes × Sensor) → ℕ
uses a [] = 0
uses a ((id, s) ∷ m) = (if s.scene == a then 1 else 0) + uses a m

-- How many of all the clients' sensors do.
abbrev pub owners : ℕ → List Client → ℕ
owners a [] = 0
owners a (c ∷ cs) = uses a c.sensors + owners a cs

pub owners-append : (a : ℕ) (cs ds : List Client) → owners a (cs ++ ds) ≡ owners a cs + owners a ds
owners-append a [] ds = omega arith
owners-append a (c ∷ cs) ds = omega (arith, owners-append a cs ds)

pub uses-insert :
    (a : ℕ) (id : Bytes) (s : Sensor) (m : List (Bytes × Sensor))
    → uses a (insert id s m) ≤ (if s.scene == a then 1 else 0) + uses a m
unfolding insert
uses-insert a id s [] = omega arith
uses-insert a id s ((j, t) ∷ m) = elim (Bool-cases (bytes_order.before id j)) [
  | inl below ↦ rw below (omega arith)
  | inr above ↦ elim (Bool-cases (bytes_order.before j id)) [
    | inl beyond ↦ rw (above, beyond) (omega (arith, uses-insert a id s m))
    | inr there ↦ rw (above, there) (omega arith)
  ]
]

-- A client that takes the place of the first with its identifier.
pub owners-set_at :
    (a id : ℕ) (c' : Client) (cs : List Client) {c : Client}
    → at id cs ≡ some c
    → owners a (set_at id c' cs) + uses a c.sensors ≡ owners a cs + uses a c'.sensors
unfolding at set_at
owners-set_at a id c' [] e = cc
owners-set_at a id c' (d ∷ cs) {c} e = elim (Bool-cases (d.id == id)) [
  | inl hit ↦ let same : d ≡ c = cc (rw hit at e) in rw (hit, same) (omega arith)
  | inr miss ↦ rw miss (omega (arith, owners-set_at a id c' cs (rw miss at e)))
]

pub uses-at :
    (a id : ℕ) (cs : List Client) {c : Client} → at id cs ≡ some c → uses a c.sensors ≤ owners a cs
unfolding at
uses-at a id [] e = cc
uses-at a id (d ∷ cs) {c} e = elim (Bool-cases (d.id == id)) [
  | inl hit ↦ let same : d ≡ c = cc (rw hit at e) in rw (sym same) (omega arith)
  | inr miss ↦ omega (arith, uses-at a id cs (rw miss at e))
]

module _ {D M : Type 0} where
  abbrev pub alive : Option (Scene D M) → ℕ
  alive none = 0
  alive (some s) = 1

  -- No two sensors have one scene, and the scene of a sensor is live.
  abbrev pub IsOwned : Viewport D M → Type 0
  IsOwned v = (a : ℕ) → owners a v.clients.raw_client_list ≤ alive (v.store.cell a)

  alive_bound : (o : Option (Scene D M)) → alive o ≤ 1
  alive_bound none = omega arith
  alive_bound (some s) = omega arith

  alive-delete_sensor :
      (a n : ℕ) (s : Sensor) (store : Store D M)
      → (if s.scene == a then 1 else 0) + n ≤ alive (store.cell a)
      → n ≤ alive ((delete_sensor s store).cell a)
  unfolding delete_sensor
  alive-delete_sensor a n s store h = elim (Bool-cases (a == s.scene)) [
    | inl same ↦
        let own : (s.scene == a) ≡ true = eq→== s.scene a (sym (==→eq a s.scene same)) in
        rw same (omega (arith, alive_bound (store.cell a), rw own at h))
    | inr other ↦ rw other (omega (arith, h))
  ]

  pub alive-delete_sensors :
      (a n : ℕ) (m : List (Bytes × Sensor)) (store : Store D M)
      → uses a m + n ≤ alive (store.cell a)
      → n ≤ alive ((delete_sensors m store).cell a)
  unfolding delete_sensors delete_sensor
  alive-delete_sensors a n [] store h = omega (arith, h)
  alive-delete_sensors a n ((id, s) ∷ m) store h =
      alive-delete_sensors a n m (delete_sensor s store)
        (alive-delete_sensor a (uses a m + n) s store (omega (arith, h)))
