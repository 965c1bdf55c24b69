-- ===== src/Algorithms/Viewport/Ownership/Departure.antt =====
-- What the removal of a client takes from the viewport: Algorithms/MinorityViewportAlgo.cpp,
-- `DeregisterClient`, with the destructors of the client and its sensors.
use minority_viewport.Base.{
  ℕ, ◌+◌, true, false, List, [], ◌∷◌, Bytes, Option, none, some, ok, ok-injective, if◌then◌else◌,
  ◌==◌, ==→eq, eq→==, ◌≡◌, refl, sym, ap, subst, ◌∙◌, arith, Bool-cases, inl, inr,
}
use minority_viewport.Base.OrderedMap.{bytes_order}
use minority_viewport.Data.Scene.{Scene}
use minority_viewport.Data.Sensor.{Sensor, Store, delete_sensor}
use minority_viewport.Data.Client.{Client, delete_sensors, delete_client}
use minority_viewport.Data.ClientsList.{at}
use minority_viewport.Data.ClientsList.Ids
use minority_viewport.Data.ClientsList.Removal.{remove_client-found}
use minority_viewport.Algorithms.Viewport.{Viewport, deregister_client, erase_scene, erase_scenes}
use minority_viewport.Algorithms.Viewport.Ownership.{uses, IsOwned}
use minority_viewport.Algorithms.Viewport.Ownership.Changes.{deregister_client-IsOwned}

-- The addresses at which none of the sensors has its scene.
abbrev pub unused : List (Bytes × Sensor) → List ℕ → List ℕ
unused m [] = []
unused m (b ∷ bs) = if uses b m == 0 then b ∷ unused m bs else unused m bs

unused-nil : (bs : List ℕ) → unused [] bs ≡ bs
unused-nil [] = refl
unused-nil (b ∷ bs) = ap (◌∷◌ b) (unused-nil bs)

-- Without one address, and then without those of the other sensors.
unused-erase_scene :
    (id : Bytes) (s : Sensor) (m : List (Bytes × Sensor)) (bs : List ℕ)
    → unused m (erase_scene s.scene bs) ≡ unused ((id, s) ∷ m) bs
unfolding erase_scene
unused-erase_scene id s m [] = refl
unused-erase_scene id s m (b ∷ bs) = elim (Bool-cases (b == s.scene)) [
  | inl hit ↦
      let own : (s.scene == b) ≡ true = eq→== s.scene b (sym (==→eq b s.scene hit)) in
      let counted : (1 + uses b m == 0) ≡ false = ground arith in
      rw (hit, own, counted) (unused-erase_scene id s m bs)
  | inr miss ↦
      let other : (s.scene == b) ≡ false = ground arith in
      let same : 0 + uses b m ≡ uses b m = omega arith in
      elim (Bool-cases (uses b m == 0)) [
        | inl free ↦ rw (miss, other, same, free) (ap (◌∷◌ b) (unused-erase_scene id s m bs))
        | inr used ↦ rw (miss, other, same, used) (unused-erase_scene id s m bs)
      ]
]

erase_scenes-unused : (m : List (Bytes × Sensor)) (bs : List ℕ) → erase_scenes m bs ≡ unused m bs
unfolding erase_scenes
erase_scenes-unused [] bs = sym (unused-nil bs)
erase_scenes-unused ((id, s) ∷ m) bs =
    erase_scenes-unused m (erase_scene s.scene bs) ∙ unused-erase_scene id s m bs

module _ {D M : Type 0} where
  -- What stands at an address once the sensors are deleted.
  abbrev left_at : ℕ → List (Bytes × Sensor) → Option (Scene D M) → Option (Scene D M)
  left_at a m cell = if uses a m == 0 then cell else none

  left_at-none : (a : ℕ) (m : List (Bytes × Sensor)) → left_at a m none ≡ none
  left_at-none a m = elim (Bool-cases (uses a m == 0)) [ inl e ↦ rw e refl | inr e ↦ rw e refl ]

  cell-delete_sensors :
      (a : ℕ) (m : List (Bytes × Sensor)) (store : Store D M)
      → (delete_sensors m store).cell a ≡ left_at a m (store.cell a)
  unfolding delete_sensors delete_sensor
  cell-delete_sensors a [] store = refl
  cell-delete_sensors a ((id, s) ∷ m) store =
      cell-delete_sensors a m (delete_sensor s store) ∙ elim (Bool-cases (a == s.scene)) [
        | inl hit ↦
            let own : (s.scene == a) ≡ true = eq→== s.scene a (sym (==→eq a s.scene hit)) in
            let counted : (1 + uses a m == 0) ≡ false = ground arith in
            rw (hit, own, counted) (left_at-none a m)
        | inr miss ↦
            let other : (s.scene == a) ≡ false = ground arith in
            let same : 0 + uses a m ≡ uses a m = omega arith in rw (miss, other, same) refl
      ]

  -- The viewport after the client of an identifier has gone.
  pub record Departed (id : ℕ) (c : Client) (v v' : Viewport D M) : Type 0 where
    pub owned : IsOwned v'
    pub clients :
        (j : ℕ)
        → at j v'.clients.raw_client_list
          ≡ (if id == j then none else at j v.clients.raw_client_list)
    pub scenes : (a : ℕ) → v'.store.cell a ≡ left_at a c.sensors (v.store.cell a)
    pub ordered : v'.ordered_scenes ≡ unused c.sensors v.ordered_scenes
    pub set : v'.scenes_set ≡ unused c.sensors v.scenes_set
    pub same_global : v'.global_scene ≡ v.global_scene

  -- With valid identifiers, and if no two sensors have one scene and the scene of every sensor is live,
  -- removing a client returns. Its identifier then finds no client and every other finds the same as
  -- before; nothing lives at the addresses of its sensors' scenes and every other address holds what it
  -- held; the order and the set of the scenes are without these addresses and otherwise the same; the
  -- global scene is the same; and still no two sensors have one scene and the scene of every sensor is
  -- live.
  pub deregister_client-Departed :
      (id : ℕ) (v : Viewport D M) {c : Client}
      → Ids.IsValid v.clients
      → IsOwned v
      → at id v.clients.raw_client_list ≡ some c
      → (v' : Viewport D M) × (deregister_client id v ≡ ok v') × Departed id c v v'
  unfolding deregister_client delete_client
  deregister_client-Departed id v {c} h o found =
      let (w, done, owned) = deregister_client-IsOwned id v h o found in
      let (rest, removed, valid, queued, lookups) = remove_client-found id c v.clients h found in
      let v' : Viewport D M = record v {
        clients = rest;
        store = delete_sensors c.sensors v.store;
        ordered_scenes = erase_scenes c.sensors v.ordered_scenes;
        scenes_set = erase_scenes c.sensors v.scenes_set;
      } in
      let done' : deregister_client id v ≡ ok v' = rw (deregister_client, found, removed) refl in
      (
        v',
        done',
        record {
          owned = subst IsOwned (ok-injective (sym done ∙ done')) owned;
          clients = lookups;
          scenes = λ a. cell-delete_sensors a c.sensors v.store;
          ordered = erase_scenes-unused c.sensors v.ordered_scenes;
          set = erase_scenes-unused c.sensors v.scenes_set;
          same_global = refl;
        },
      )
