-- ===== src/Algorithms/Viewport/Ownership/Dangling.antt =====
-- The links that `DeregisterClient` leaves, and the merge that follows one.
use minority_viewport.Base.{
  ℕ, ◌≤◌, Bool, true, false, List, [], ◌∷◌, Bytes, none, some, ok, err, bad_pointer, ◌==◌, ==→eq,
  eq→==, ◌≡◌, refl, sym, ◌∙◌, arith, Bool-cases, inl, inr,
}
use minority_viewport.Data.Matrix.{Matrices}
use minority_viewport.Data.Scene.{Scene, to}
use minority_viewport.Data.Sensor.{Sensor, Store, delete_sensor}
use minority_viewport.Data.Client.{Client, delete_sensors, delete_client}
use minority_viewport.Data.ClientsList.{at}
use minority_viewport.Data.ClientsList.Ids
use minority_viewport.Data.ClientsList.Removal.{remove_client-splits}
use minority_viewport.Algorithms.Viewport.{Viewport, deregister_client, erase_scenes}
use minority_viewport.Algorithms.Viewport.Ownership.{uses}
use minority_viewport.Algorithms.Viewport.Ownership.Allocation.{delete_sensors-dead}
use minority_viewport.Algorithms.Viewport.Merging.{Merge, combine, merge_beside, merge_scene}

module _ {D M : Type 0} where
  delete_sensors-gone :
      (a : ℕ) (m : List (Bytes × Sensor)) (store : Store D M)
      → 1 ≤ uses a m
      → (delete_sensors m store).cell a ≡ none
  unfolding delete_sensors delete_sensor
  delete_sensors-gone a [] store h = absurd (omega (arith, h))
  delete_sensors-gone a ((id, s) ∷ m) store h = elim (Bool-cases (a == s.scene)) [
    | inl same ↦ delete_sensors-dead m (delete_sensor s store) a (rw same refl)
    | inr other ↦
        let apart : (s.scene == a) ≡ false = ground arith in
        delete_sensors-gone a m (delete_sensor s store) (omega (arith, rw apart at h))
  ]

  delete_sensors-kept :
      (a : ℕ) (m : List (Bytes × Sensor)) (store : Store D M)
      → uses a m ≡ 0
      → (delete_sensors m store).cell a ≡ store.cell a
  unfolding delete_sensors delete_sensor
  delete_sensors-kept a [] store h = refl
  delete_sensors-kept a ((id, s) ∷ m) store h = elim (Bool-cases (a == s.scene)) [
    | inl same ↦
        let own : (s.scene == a) ≡ true = eq→== s.scene a (sym (==→eq a s.scene same)) in
        absurd (omega (arith, rw own at h))
    | inr other ↦ delete_sensors-kept a m (delete_sensor s store) (omega (arith, h)) ∙ rw other refl
  ]

module _ {D : Type 0} (C : Matrices D) (near : D → D → Bool) (rand now : ℕ → ℕ) where
  open C use {Mat, multiply, add}

  -- When a client is removed, a calibrated scene of another client whose left neighbour was a scene of
  -- the removed client stays linked to it, although that scene is gone: if that scene comes first in
  -- the order then, and its matrices can be combined, a merge that comes to it follows a bad pointer.
  pub merge_scene_dangling :
      (id a b : ℕ) (v : Viewport D Mat) (p : Merge D Mat) {c : Client} {s : Scene D Mat} {r t : Mat}
      → Ids.IsValid v.clients
      → at id v.clients.raw_client_list ≡ some c
      → 1 ≤ uses a c.sensors
      → uses b c.sensors ≡ 0
      → v.store.cell b ≡ some s
      → s.calibrated ≡ true
      → s.left ≡ to a
      → multiply C.eye s.r_matrix ≡ ok r
      → add C.zero_column s.t_matrix ≡ ok t
      → (v' : Viewport D Mat) × (deregister_client id v ≡ ok v')
        × (v'.store.cell b ≡ some s)
        × (v'.store.cell a ≡ none)
        × (merge_scene C near rand now b [] (record p { store = v'.store }) ≡ err bad_pointer)
  unfolding deregister_client delete_client merge_scene merge_beside combine
  merge_scene_dangling id a b v p {c} {s} valid found mine other live calibrated left r_ok t_ok =
      let (front, back, rest, before, removed, after) =
        remove_client-splits id c v.clients valid found in
      let kept = delete_sensors-kept b c.sensors v.store other ∙ live in
      let gone = delete_sensors-gone a c.sensors v.store mine in
      (
        record v {
          clients = rest;
          store = delete_sensors c.sensors v.store;
          ordered_scenes = erase_scenes c.sensors v.ordered_scenes;
          scenes_set = erase_scenes c.sensors v.scenes_set;
        },
        rw (deregister_client, found, removed) refl,
        kept,
        gone,
        rw (kept, calibrated, left, r_ok, t_ok) (rw gone refl),
      )
