-- ===== src/Algorithms/Viewport/Ownership/Sensors.antt =====
-- The registration of sensors keeps the scenes with their owners.
use minority_viewport.Base.{
  ℕ, zero, suc, ◌+◌, ◌-◌, ◌^◌, ◌≤◌, true, false, Bytes, codes, Option, none, some, Result, ok, err,
  no_fuel, null_pointer, ok-injective, ◌>>=◌, >>=-eq-ok, ltb, if◌then◌else◌, ◌==◌, ==→eq, eq→==,
  ◌≡◌, refl, sym, subst, arith, Bool-cases, inl, inr,
}
use minority_viewport.Base.OrderedMap.{insert, bytes_order}
use minority_viewport.Data.Json.{Json}
use minority_viewport.Data.Sensor.{Sensor, Store, new_sensor}
use minority_viewport.Data.Client.{Client, load_sensors, initial_sensors_list}
use minority_viewport.Data.ClientsList.{at, set_at}
use minority_viewport.Algorithms.Viewport.{Viewport, register_sensors}
use minority_viewport.Algorithms.Viewport.Ownership.{
  uses, owners, uses-insert, uses-at, owners-set_at, alive, IsOwned,
}
use minority_viewport.Algorithms.Viewport.Ownership.Allocation.{IsFresh, new_sensor-IsFresh}

module _ (J : Json) {D M : Type 0} (address : ℕ → ℕ) (empty : M) where
  open J use {Value, parse, null_value, get, size, as_string}

  -- The client's sensors and the others', `others a` of which have their scene at `a`, have live
  -- scenes, no two of them one.
  abbrev Shared : (ℕ → ℕ) → Client × Store D M → Type 0
  Shared others p = (a : ℕ) → others a + uses a p.0.sensors ≤ alive (p.1.cell a)

  made-Shared :
      (others : ℕ → ℕ) (id : Bytes) (c : Client) (store : Store D M)
      → IsFresh address store
      → Shared others (c, store)
      → Shared others (
        record c { sensors = insert id (new_sensor address empty id store).0 c.sensors },
        (new_sensor address empty id store).1,
      )
  unfolding new_sensor
  made-Shared others id c store f h a =
      let s : Sensor = record { id = id; scene = address store.made } in
      let inserted = uses-insert a id s c.sensors in
      elim (Bool-cases (a == address store.made)) [
        | inl same ↦
            let there : a ≡ address store.made = ==→eq a (address store.made) same in
            let dead : store.cell a ≡ none = rw there (f.free store.made (omega arith)) in
            let own : (address store.made == a) ≡ true = eq→== _ _ (sym there) in
            rw same (omega (arith, rw dead at (h a), rw own at inserted))
        | inr other ↦
            let apart : (address store.made == a) ≡ false = ground arith in
            rw other (omega (arith, h a, rw apart at inserted))
      ]

  load_sensors-Shared :
      (others : ℕ → ℕ) (n i : ℕ) (sensors : Value) (c : Client) (store : Store D M)
      {q : Client × Store D M}
      → IsFresh address store
      → Shared others (c, store)
      → load_sensors J address empty n i sensors (c, store) ≡ ok q
      → Shared others q
  unfolding load_sensors
  load_sensors-Shared others zero i sensors c store f h e = subst (Shared others) (ok-injective e) h
  load_sensors-Shared others (suc n) i sensors c store f h e =
      let (id, g, k) = >>=-eq-ok _ (as_string (get (J.at sensors i) (codes "id") null_value)) e in
      let made = new_sensor address empty id store in
      load_sensors-Shared others n (i + 1) sensors
        (record c { sensors = insert id made.0 c.sensors }) made.1
        (new_sensor-IsFresh address empty id store f) (made-Shared others id c store f h) k

  initial-Shared :
      (others : ℕ → ℕ) (parsed : Option Value) (c : Client) (store : Store D M)
      {q : Client × Store D M}
      → IsFresh address store
      → Shared others (c, store)
      → (elim parsed as (λ _. Result (Client × Store D M)) [
        | none ↦ ok (c, store)
        | some root ↦
            let sensors = get root (codes "Sensors") null_value in
            if ltb (size sensors) (2 ^ 16)
            then load_sensors J address empty (size sensors) 0 sensors (c, store)
            else err no_fuel
      ])
        ≡ ok q
      → Shared others q
  initial-Shared others none c store f h e = subst (Shared others) (ok-injective e) h
  initial-Shared others (some root) c store f h e =
      let sensors = get root (codes "Sensors") null_value in
      elim (Bool-cases (ltb (size sensors) (2 ^ 16))) [
        | inl short ↦
            load_sensors-Shared others (size sensors) 0 sensors c store f h (rw short at e)
        | inr long ↦ cc (rw long at e)
      ]

  register_found-IsOwned :
      (id : ℕ) (raw : Bytes) (v : Viewport D M) (found : Option Client) {v' : Viewport D M}
      → IsFresh address v.store
      → IsOwned v
      → at id v.clients.raw_client_list ≡ found
      → (elim found as (λ _. Result (Viewport D M)) [
        | none ↦ err null_pointer
        | some c ↦ do
          (c', store) ← initial_sensors_list J address empty raw (c, v.store)
          let l = v.clients
          ok (record v {
            clients = record l { raw_client_list = set_at id c' l.raw_client_list };
            store = store;
          })
      ])
        ≡ ok v'
      → IsOwned v'
  unfolding initial_sensors_list
  register_found-IsOwned id raw v none f o found e = cc
  register_found-IsOwned id raw v (some c) f o found e =
      let (q, g, k) = >>=-eq-ok _ (initial_sensors_list J address empty raw (c, v.store)) e in
      let list = v.clients.raw_client_list in
      let others : ℕ → ℕ = λ a. owners a list - uses a c.sensors in
      let shared =
        initial-Shared others (parse raw) c v.store f
          (λ a. omega (arith, o a, uses-at a id list found)) g in
      subst IsOwned (ok-injective k)
        (λ a. omega (arith, shared a, owners-set_at a id q.0 list found, uses-at a id list found))

  -- With an allocator that answers different addresses, at which nothing lives, the registration of
  -- sensors keeps the scenes with their owners, whatever the text announces: no two sensors of all
  -- clients have one scene, and the scene of every sensor is live, if that was so before.
  pub register_sensors-IsOwned :
      (id : ℕ) (raw : Bytes) (v : Viewport D M) {v' : Viewport D M}
      → IsFresh address v.store
      → IsOwned v
      → register_sensors J address empty id raw v ≡ ok v'
      → IsOwned v'
  unfolding register_sensors
  register_sensors-IsOwned id raw v f o e =
      register_found-IsOwned id raw v (at id v.clients.raw_client_list) f o refl e
