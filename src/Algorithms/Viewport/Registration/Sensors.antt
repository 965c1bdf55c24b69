-- ===== src/Algorithms/Viewport/Registration/Sensors.antt =====
-- The registration of sensors leaves the registry of the clients as it is.
use minority_viewport.Base.{
  ℕ, zero, suc, ◌+◌, ◌^◌, Bytes, codes, Option, none, some, Result, ok, err, no_fuel, null_pointer,
  ok-injective, ◌>>=◌, >>=-eq-ok, ltb, if◌then◌else◌, ◌≡◌, refl, subst, ◌∙◌, Bool-cases, inl, inr,
}
use minority_viewport.Base.OrderedMap.{insert, bytes_order}
use minority_viewport.Data.Json.{Json}
use minority_viewport.Data.Sensor.{Store, new_sensor}
use minority_viewport.Data.Client.{Client, load_sensors, initial_sensors_list}
use minority_viewport.Data.ClientsList.{at, set_at}
use minority_viewport.Data.ClientsList.Registry.{information, lookup-set_at}
use minority_viewport.Algorithms.Viewport.{Viewport, register_sensors}
use minority_viewport.Algorithms.Viewport.Soundness.Clients.{at-id}
use minority_viewport.Algorithms.Viewport.Registration.{registered}

-- The client keeps its identifier and what was said of it.
abbrev Keeps : Client → Client → Type 0
Keeps c d = (d.id ≡ c.id) × (information d ≡ information c)

module _ (J : Json) {D M : Type 0} (address : ℕ → ℕ) (empty : M) where
  open J use {Value, parse, null_value, get, size, as_string}

  load_sensors-Keeps :
      (n i : ℕ) (sensors : Value) (c : Client) (store : Store D M) {q : Client × Store D M}
      → load_sensors J address empty n i sensors (c, store) ≡ ok q
      → Keeps c q.0
  unfolding load_sensors
  load_sensors-Keeps zero i sensors c store e =
      subst (λ (r : Client × Store D M). Keeps c r.0) (ok-injective e) (refl, refl)
  load_sensors-Keeps (suc n) i sensors c store e =
      let (id, g, f) = >>=-eq-ok _ (as_string (get (J.at sensors i) (codes "id") null_value)) e in
      let made = new_sensor address empty id store in
      load_sensors-Keeps n (i + 1) sensors (record c { sensors = insert id made.0 c.sensors })
        made.1 f

  initial-Keeps :
      (parsed : Option Value) (c : Client) (store : Store D M) {q : Client × Store D M}
      → (elim parsed as (λ _. Result (Client × Store D M)) [
        | none ↦ ok (c, store)
        | some root ↦
            let sensors = get root (codes "Sensors") null_value in
            if ltb (size sensors) (2 ^ 16)
            then load_sensors J address empty (size sensors) 0 sensors (c, store)
            else err no_fuel
      ])
        ≡ ok q
      → Keeps c q.0
  initial-Keeps none c store e =
      subst (λ (r : Client × Store D M). Keeps c r.0) (ok-injective e) (refl, refl)
  initial-Keeps (some root) c store e =
      let sensors = get root (codes "Sensors") null_value in
      elim (Bool-cases (ltb (size sensors) (2 ^ 16))) [
        | inl short ↦ load_sensors-Keeps (size sensors) 0 sensors c store (rw short at e)
        | inr long ↦ cc (rw long at e)
      ]

  found-registered :
      (id : ℕ) (raw : Bytes) (v : Viewport D M) (found : Option Client) {v' : Viewport D M}
      → at id v.clients.raw_client_list ≡ found
      → (elim found as (λ _. Result (Viewport D M)) [
        | none ↦ err null_pointer
        | some c ↦ do
          (c', store) ← initial_sensors_list J address empty raw (c, v.store)
          let l = v.clients
          ok (record v {
            clients = record l { raw_client_list = set_at id c' l.raw_client_list };
            store = store;
          })
      ])
        ≡ ok v'
      → (j : ℕ) → registered v' j ≡ registered v j
  unfolding initial_sensors_list
  found-registered id raw v none found e j = cc
  found-registered id raw v (some c) found e j =
      let (q, g, f) = >>=-eq-ok _ (initial_sensors_list J address empty raw (c, v.store)) e in
      let kept = initial-Keeps (parse raw) c v.store g in
      subst (λ (w : Viewport D M). registered w j ≡ registered v j) (ok-injective f)
        (lookup-set_at id c q.0 v.clients.raw_client_list found
          (kept.0 ∙ at-id id v.clients.raw_client_list found) kept.1 j)

  -- Sensors are registered with a client, which stays as it was said to be.
  pub register_sensors-registered :
      (id : ℕ) (raw : Bytes) (v : Viewport D M) {v' : Viewport D M}
      → register_sensors J address empty id raw v ≡ ok v'
      → (j : ℕ) → registered v' j ≡ registered v j
  unfolding register_sensors
  register_sensors-registered id raw v e =
      found-registered id raw v (at id v.clients.raw_client_list) refl e
