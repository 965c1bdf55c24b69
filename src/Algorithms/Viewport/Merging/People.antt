-- ===== src/Algorithms/Viewport/Merging/People.antt =====
-- What a merge leaves of the people in the scenes.
use mathlib.Core.List.{reverse}
use minority_viewport.Base.{
  ℕ, suc, ◌%◌, Bool, List, [], ◌∷◌, Option, none, some, Result, ok, ok-injective, >>=-eq-ok, ◌≡◌,
  refl, subst, Bool-cases, inl, inr,
}
use minority_viewport.Base.OrderedMap.{number_order}
use minority_viewport.Data.Matrix.{Matrices}
use minority_viewport.Data.Skeleton.{Skeleton, set_shared, unset_shared}
use minority_viewport.Data.Scene.{Scene, Link, to, null, wild, remove}
use minority_viewport.Data.Scene.Capacity.{IsValid, manual_clear-IsValid}
use minority_viewport.Data.Sensor.{Store, fetch, modify}
use minority_viewport.Algorithms.Viewport.{Viewport}
use minority_viewport.Algorithms.Viewport.SensorData.Loading.{AreValid}
use minority_viewport.Algorithms.Viewport.Merging.{
  Merge, moved, combine, show_global, merge_first, merge_alone, find_match, merge_match, merge_both,
  merge_beside, merge_scene, merge_list, start_merge, merge_scenes,
}
use minority_viewport.Algorithms.Viewport.Merging.Pruning.{
  ArePruned, IsPrunedCell-refl, Merged, show_global-Merged, removed-Merged,
}

module _ {D : Type 0} (C : Matrices D) (near : D → D → Bool) (rand now : ℕ → ℕ)
    {start : Store D C.Mat} where
  open C use {Mat}

  pub merge_first-Merged :
      (id : ℕ) (m : List (ℕ × Skeleton D)) (p : Merge D Mat)
      → Merged start p
      → Merged start (merge_first now id m p)
  unfolding merge_first
  merge_first-Merged id [] p h = h
  merge_first-Merged id ((k, person) ∷ m) p h =
      merge_first-Merged id m (show_global now id (unset_shared person) p)
        (show_global-Merged (now p.updates) id (unset_shared person) p _ _ h)

  pub merge_alone-Merged :
      (id : ℕ) (rt : Mat × Mat) (m : List (ℕ × Skeleton D)) (p : Merge D Mat) {q : Merge D Mat}
      → Merged start p
      → merge_alone C now id rt m p ≡ ok q
      → Merged start q
  unfolding merge_alone
  merge_alone-Merged id rt [] p h e = subst (Merged start) (ok-injective e) h
  merge_alone-Merged id rt ((k, person) ∷ m) p h e =
      let (person', g, f) = >>=-eq-ok _ (moved C rt.0 rt.1 (unset_shared person)) e in
      merge_alone-Merged id rt m (show_global now id person' p)
        (show_global-Merged (now p.updates) id person' p _ _ h) f

  pub merge_match-Merged :
      (id : ℕ) (rt : Mat × Mat) (left : ℕ) (person : Skeleton D) (found : Option ℕ)
      (p : Merge D Mat) {q : Merge D Mat}
      → Merged start p
      → merge_match C now id rt left person found p ≡ ok q
      → Merged start q
  unfolding merge_match
  merge_match-Merged id rt left person none p h e = subst (Merged start) (ok-injective e) h
  merge_match-Merged id rt left person (some k) p h e =
      let (store, g, f) = >>=-eq-ok _ (modify left (remove k) p.store) e in
      let (person', i, j) = >>=-eq-ok _ (moved C rt.0 rt.1 (set_shared person)) f in
      subst (Merged start) (ok-injective j) (
        show_global-Merged (now p.updates) id person' (record p { store = store }) _ _
          (removed-Merged k left p h g))

  pub merge_both-Merged :
      (id : ℕ) (rt : Mat × Mat) (left : ℕ) (refs : List (ℕ × Skeleton D)) (own : Mat × Mat)
      (m : List (ℕ × Skeleton D)) (p : Merge D Mat) {q : Merge D Mat}
      → Merged start p
      → merge_both C near now id rt left refs own m p ≡ ok q
      → Merged start q
  unfolding merge_both
  merge_both-Merged id rt left refs own [] p h e = subst (Merged start) (ok-injective e) h
  merge_both-Merged id rt left refs own ((k, person) ∷ m) p h e =
      let (matching, g, f) = >>=-eq-ok _ (moved C own.0 own.1 person) e in
      let found = find_match near matching refs in
      let (p', i, j) = >>=-eq-ok _ (merge_match C now id rt left person found p) f in
      merge_both-Merged id rt left refs own m p' (merge_match-Merged id rt left person found p h i)
        j

  beside_left-Merged :
      (id : ℕ) (rt : Mat × Mat) (s : Scene D Mat) (left : ℕ) (refs : List (ℕ × Skeleton D))
      (p : Merge D Mat) {q : Merge D Mat}
      → Merged start p
      → (elim refs as (λ _. Result (Merge D Mat)) [
        | [] ↦ merge_alone C now id rt s.skeletons p
        | e ∷ refs' ↦
            merge_both C near now id rt left (e ∷ refs') (s.r_matrix, s.t_matrix) s.skeletons p
      ])
        ≡ ok q
      → Merged start q
  beside_left-Merged id rt s left [] p h e = merge_alone-Merged id rt s.skeletons p h e
  beside_left-Merged id rt s left (x ∷ refs) p h e =
      merge_both-Merged id rt left (x ∷ refs) (s.r_matrix, s.t_matrix) s.skeletons p h e

  pub merge_beside-Merged :
      (id : ℕ) (rt : Mat × Mat) (s : Scene D Mat) (l : Link) (p : Merge D Mat) {q : Merge D Mat}
      → Merged start p
      → merge_beside C near now id rt s l p ≡ ok q
      → Merged start q
  unfolding merge_beside
  merge_beside-Merged id rt s null p h e =
      subst (Merged start) (ok-injective e) (merge_first-Merged id s.skeletons p h)
  merge_beside-Merged id rt s wild p h e = cc
  merge_beside-Merged id rt s (to left) p h e =
      let (l, g, f) = >>=-eq-ok _ (fetch left p.store) e in
      beside_left-Merged id rt s left l.skeletons p h f

  pub merge_scene-Merged :
      (a : ℕ) (left_of : List ℕ) (p : Merge D Mat) {q : Merge D Mat}
      → Merged start p
      → merge_scene C near rand now a left_of p ≡ ok q
      → Merged start q
  unfolding merge_scene
  merge_scene-Merged a left_of p {q} h e =
      let (s, g, f) = >>=-eq-ok _ (fetch a p.store) e in
      elim (Bool-cases s.calibrated) [
        | inl calibrated ↦
            let (rt, i, j) =
              >>=-eq-ok _ (combine C p.store (a ∷ left_of) (C.eye, C.zero_column))
                (rw calibrated at f) in
            merge_beside-Merged (rand p.drawn % 100) rt s s.left (record p { drawn = suc p.drawn })
              (record {
                global_valid = h.global_valid;
                are_valid = h.are_valid;
                are_pruned = h.are_pruned;
              })
              j
        | inr other ↦ subst (Merged start) (ok-injective (rw other at f)) h
      ]

  merge_list-Merged :
      (as' : List ℕ) (p : Merge D Mat) {q : Merge D Mat}
      → Merged start p
      → merge_list C near rand now as' p ≡ ok q
      → Merged start q
  unfolding merge_list
  merge_list-Merged [] p h e = subst (Merged start) (ok-injective e) h
  merge_list-Merged (a ∷ as') p h e =
      let (p', g, f) = >>=-eq-ok _ (merge_scene C near rand now a as' p) e in
      merge_list-Merged as' p' (merge_scene-Merged a as' p h g) f

-- The viewport after a merge: the global scene is valid, every live scene is, each scene has lost
-- people at most, and the clients and the order of the scenes are the same.
pub record IsMerged {D M : Type 0} (v v' : Viewport D M) : Type 0 where
  pub global_valid : IsValid v'.global_scene
  pub are_valid : AreValid v'.store
  pub are_pruned : ArePruned v.store v'.store
  pub same_clients : v'.clients ≡ v.clients
  pub same_order : v'.ordered_scenes ≡ v.ordered_scenes

-- A merge that ends without a fault shows at most three people in the global scene, each under its
-- own identifier, and changes nothing else but that people may be gone from other scenes, which stay
-- valid if all live scenes were valid.
pub merge_scenes-IsMerged :
    {D : Type 0} (C : Matrices D) (near : D → D → Bool) (rand now : ℕ → ℕ) (v : Viewport D C.Mat)
    {v' : Viewport D C.Mat}
    → AreValid v.store
    → merge_scenes C near rand now v ≡ ok v'
    → IsMerged v v'
unfolding merge_scenes
merge_scenes-IsMerged C near rand now v {v'} a e =
    let (p, g, f) =
      >>=-eq-ok _ (merge_list C near rand now (reverse v.ordered_scenes) (start_merge v)) e in
    let start : Merged v.store (start_merge v) = record {
      global_valid = manual_clear-IsValid v.global_scene;
      are_valid = a;
      are_pruned = λ b. IsPrunedCell-refl (v.store.cell b);
    } in
    let h = merge_list-Merged C near rand now (reverse v.ordered_scenes) (start_merge v) start g in
    subst (IsMerged v) (ok-injective f) (record {
      global_valid = h.global_valid;
      are_valid = h.are_valid;
      are_pruned = h.are_pruned;
      same_clients = refl;
      same_order = refl;
    })
