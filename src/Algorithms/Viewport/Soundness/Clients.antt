-- ===== src/Algorithms/Viewport/Soundness/Clients.antt =====
-- The registration and the removal of clients, and the registration of sensors.
use minority_viewport.Base.{
  ℕ, zero, suc, ◌+◌, ◌^◌, List, [], ◌∷◌, Bytes, codes, Option, none, some, Result, ap, ok, err,
  ok-injective, ◌>>=◌, >>=-eq-ok, ltb, if◌then◌else◌, ◌≡◌, refl, sym, subst, ◌∙◌, ◌==◌, ==→eq,
  no_fuel, null_pointer, Bool-cases, Option-cases, inl, inr,
}
use minority_viewport.Base.OrderedMap.{insert, bytes_order}
use minority_viewport.Data.Json.{Json}
use minority_viewport.Data.Scene.Capacity.{IsValid}
use minority_viewport.Data.Sensor.{Store, new_sensor}
use minority_viewport.Data.Client.{Client, delete_client, load_sensors, initial_sensors_list}
use minority_viewport.Data.ClientsList.{at, set_at, add_client}
use minority_viewport.Data.ClientsList.Ids
use minority_viewport.Data.ClientsList.Ids.{ids, add_client-IsValid}
use minority_viewport.Data.ClientsList.Removal.{remove_client-found}
use minority_viewport.Algorithms.Viewport.{
  Viewport, register_client, deregister_client, register_sensors,
}
use minority_viewport.Algorithms.Viewport.Ownership.{IsOwned}
use minority_viewport.Algorithms.Viewport.Ownership.Allocation.{IsFresh}
use minority_viewport.Algorithms.Viewport.Ownership.Changes.{
  register_client-IsOwned, deregister_client-IsOwned,
}
use minority_viewport.Algorithms.Viewport.Ownership.Sensors.{register_sensors-IsOwned}
use minority_viewport.Algorithms.Viewport.SensorData.Loading.{AreValid}
use minority_viewport.Algorithms.Viewport.Soundness.{
  IsSound, delete_sensors-AreValid, new_sensor-AreValid,
}

-- A client that keeps its identifier takes its own place.
ids-set_at : (id : ℕ) (c : Client) (cs : List Client) → c.id ≡ id → ids (set_at id c cs) ≡ ids cs
unfolding set_at
ids-set_at id c [] e = refl
ids-set_at id c (d ∷ cs) e = elim (Bool-cases (d.id == id)) [
  | inl hit ↦ rw hit (ap (λ i. i ∷ ids cs) (e ∙ sym (==→eq d.id id hit)))
  | inr miss ↦ rw miss (ap (◌∷◌ d.id) (ids-set_at id c cs e))
]

pub at-id : (id : ℕ) (cs : List Client) {c : Client} → at id cs ≡ some c → c.id ≡ id
unfolding at
at-id id [] e = cc
at-id id (d ∷ cs) {c} e = elim (Bool-cases (d.id == id)) [
  | inl hit ↦
      let same : d ≡ c = cc (rw hit at e) in
      ap (λ (x : Client). x.id) (sym same) ∙ ==→eq d.id id hit
  | inr miss ↦ at-id id cs (rw miss at e)
]

module _ {D M : Type 0} where
  -- All of soundness but the ownership.
  abbrev AreAllValid : Viewport D M → Type 0
  AreAllValid v = Ids.IsValid v.clients × AreValid v.store × IsValid v.global_scene

  owned-IsSound : (v : Viewport D M) → AreAllValid v → IsOwned v → IsSound v
  owned-IsSound v h o = record {
    clients_valid = h.0;
    are_valid = h.1;
    global_valid = h.2;
    owned = o;
  }

  pub register_client-IsSound :
      (fuel : ℕ) (draws : ℕ → ℕ) (location ip_addr : Bytes) (v : Viewport D M) {id : ℕ}
      {v' : Viewport D M}
      → IsSound v
      → register_client fuel draws location ip_addr v ≡ ok (id, v')
      → IsSound v'
  unfolding register_client
  register_client-IsSound fuel draws location ip_addr v {id} {v'} h e =
      let (p, g, f) = >>=-eq-ok _ (add_client fuel draws location ip_addr v.clients) e in
      let valid = (add_client-IsValid fuel draws location ip_addr v.clients h.clients_valid g).0 in
      owned-IsSound v'
        (subst (λ (r : ℕ × Viewport D M). AreAllValid r.1) (ok-injective f)
          (valid, h.are_valid, h.global_valid))
        (register_client-IsOwned fuel draws location ip_addr v h.clients_valid h.owned e)

  pub deregister_client-IsSound :
      (id : ℕ) (v : Viewport D M) {v' : Viewport D M}
      → IsSound v
      → deregister_client id v ≡ ok v'
      → IsSound v'
  unfolding deregister_client delete_client
  deregister_client-IsSound id v {v'} h e = elim (Option-cases (at id v.clients.raw_client_list)) [
    | inl missing ↦ cc (rw (deregister_client, missing) at e)
    | inr (c, found) ↦
        let (rest, removed, valid, queued, lookups) =
          remove_client-found id c v.clients h.clients_valid found in
        let (w, done, owned) = deregister_client-IsOwned id v h.clients_valid h.owned found in
        owned-IsSound v'
          (subst AreAllValid (ok-injective (rw (deregister_client, found, removed) at e))
            (valid, delete_sensors-AreValid c.sensors v.store h.are_valid, h.global_valid))
          (subst IsOwned (ok-injective (sym done ∙ e)) owned)
  ]

module _ (J : Json) {D M : Type 0} (address : ℕ → ℕ) (empty : M) where
  open J use {Value, parse, null_value, get, size, as_string}

  -- The client keeps its identifier, and the scenes made are valid.
  abbrev Keeps : Client × Store D M → Client × Store D M → Type 0
  Keeps p q = (q.0.id ≡ p.0.id) × AreValid q.1

  load_sensors-Keeps :
      (n i : ℕ) (sensors : Value) (c : Client) (store : Store D M) {q : Client × Store D M}
      → AreValid store
      → load_sensors J address empty n i sensors (c, store) ≡ ok q
      → Keeps (c, store) q
  unfolding load_sensors
  load_sensors-Keeps zero i sensors c store all e =
      subst (Keeps (c, store)) (ok-injective e) (refl, all)
  load_sensors-Keeps (suc n) i sensors c store all e =
      let (id, g, f) = >>=-eq-ok _ (as_string (get (J.at sensors i) (codes "id") null_value)) e in
      let made = new_sensor address empty id store in
      load_sensors-Keeps n (i + 1) sensors (record c { sensors = insert id made.0 c.sensors })
        made.1 (new_sensor-AreValid address empty id store all) f

  initial-Keeps :
      (parsed : Option Value) (c : Client) (store : Store D M) {q : Client × Store D M}
      → AreValid store
      → (elim parsed as (λ _. Result (Client × Store D M)) [
        | none ↦ ok (c, store)
        | some root ↦
            let sensors = get root (codes "Sensors") null_value in
            if ltb (size sensors) (2 ^ 16)
            then load_sensors J address empty (size sensors) 0 sensors (c, store)
            else err no_fuel
      ])
        ≡ ok q
      → Keeps (c, store) q
  initial-Keeps none c store all e = subst (Keeps (c, store)) (ok-injective e) (refl, all)
  initial-Keeps (some root) c store all e =
      let sensors = get root (codes "Sensors") null_value in
      elim (Bool-cases (ltb (size sensors) (2 ^ 16))) [
        | inl short ↦ load_sensors-Keeps (size sensors) 0 sensors c store all (rw short at e)
        | inr long ↦ cc (rw long at e)
      ]

  register_found-valid :
      (id : ℕ) (raw : Bytes) (v : Viewport D M) (found : Option Client) {v' : Viewport D M}
      → IsSound v
      → at id v.clients.raw_client_list ≡ found
      → (elim found as (λ _. Result (Viewport D M)) [
        | none ↦ err null_pointer
        | some c ↦ do
          (c', store) ← initial_sensors_list J address empty raw (c, v.store)
          let l = v.clients
          ok (record v {
            clients = record l { raw_client_list = set_at id c' l.raw_client_list };
            store = store;
          })
      ])
        ≡ ok v'
      → AreAllValid v'
  unfolding initial_sensors_list
  register_found-valid id raw v none h found e = cc
  register_found-valid id raw v (some c) h found e =
      let (q, g, f) = >>=-eq-ok _ (initial_sensors_list J address empty raw (c, v.store)) e in
      let kept = initial-Keeps (parse raw) c v.store h.are_valid g in
      let same =
        ids-set_at id q.0 v.clients.raw_client_list
          (kept.0 ∙ at-id id v.clients.raw_client_list found) in
      subst AreAllValid (ok-injective f) (
        record {
          distinct = rw same h.clients_valid.distinct;
          within = rw same h.clients_valid.within;
        },
        kept.1,
        h.global_valid,
      )

  pub register_sensors-IsSound :
      (id : ℕ) (raw : Bytes) (v : Viewport D M) {v' : Viewport D M}
      → IsFresh address v.store
      → IsSound v
      → register_sensors J address empty id raw v ≡ ok v'
      → IsSound v'
  unfolding register_sensors
  register_sensors-IsSound id raw v {v'} f h e =
      owned-IsSound v' (register_found-valid id raw v (at id v.clients.raw_client_list) h refl e)
        (register_sensors-IsOwned J address empty id raw v f h.owned e)
