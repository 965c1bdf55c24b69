-- ===== src/Algorithms/Viewport/Merging/Returning.antt =====
-- Each loop of a merge returns, if the scenes fit.
use minority_viewport.Base.{
  ℕ, suc, ◌%◌, Bool, List, [], ◌∷◌, Option, none, some, Result, ok, ◌≡◌, refl, sym, subst,
  Bool-cases, inl, inr,
}
use minority_viewport.Base.OrderedMap.{number_order}
use minority_viewport.Data.Matrix.{Matrices}
use minority_viewport.Data.Matrix.Sizes.{Returns, >>=-Returns, SizeLaws}
use minority_viewport.Data.Skeleton.{Skeleton, set_shared, unset_shared}
use minority_viewport.Data.Scene.{Scene, Link, to, null, wild, remove}
use minority_viewport.Data.Sensor.{Store, write}
use minority_viewport.Algorithms.Viewport.Merging.{
  Merge, moved, show_global, merge_first, merge_alone, find_match, merge_match, merge_both,
  merge_beside, merge_scene, merge_list,
}
use minority_viewport.Algorithms.Viewport.Merging.Sizes.{AreFloats, moved-Returns}
use minority_viewport.Algorithms.Viewport.Merging.Pruning.{Merged, show_global-Merged}
use minority_viewport.Algorithms.Viewport.Merging.People.{merge_match-Merged, merge_first-Merged}
use minority_viewport.Algorithms.Viewport.Merging.Fitting.{
  Fits, AllFit, eye-AreFloats, live-pruned, AllFit-pruned, combine-Returns,
}

module _ {D : Type 0} (C : Matrices D) (L : SizeLaws C) (near : D → D → Bool) (rand now : ℕ → ℕ)
    {start : Store D C.Mat} where
  open C use {Mat}

  merge_alone-Returns :
      (id : ℕ) (rt : Mat × Mat) (m : List (ℕ × Skeleton D)) (p : Merge D Mat)
      → AreFloats C L rt
      → Merged start p
      → Returns (merge_alone C now id rt m p) (Merged start)
  unfolding merge_alone
  merge_alone-Returns id rt [] p f h = (p, refl, h)
  merge_alone-Returns id rt ((k, person) ∷ m) p f h =
      >>=-Returns (moved C rt.0 rt.1 (unset_shared person)) _
        (moved-Returns C L rt (unset_shared person) f)
        (λ person' g.
          merge_alone-Returns id rt m (show_global now id person' p) f
            (show_global-Merged (now p.updates) id person' p _ _ h))

  merge_match-Returns :
      (id : ℕ) (rt : Mat × Mat) (left : ℕ) (person : Skeleton D) (found : Option ℕ)
      (p : Merge D Mat) {s : Scene D Mat}
      → start.cell left ≡ some s
      → AreFloats C L rt
      → Merged start p
      → Returns (merge_match C now id rt left person found p) (Merged start)
  unfolding merge_match
  merge_match-Returns id rt left person none p live f h = (p, refl, h)
  merge_match-Returns id rt left person (some k) p live f h =
      let (t, here, same) = live-pruned C L start p.store h.are_pruned left live in
      let (person', e, l) = moved-Returns C L rt (set_shared person) f in
      let q : Merge D Mat =
        show_global now id person' (record p { store = write left (some (remove k t)) p.store }) in
      let returned : merge_match C now id rt left person (some k) p ≡ ok q = rw (here, e) refl in
      (q, returned, merge_match-Merged C near rand now id rt left person (some k) p h returned)

  merge_both-Returns :
      (id : ℕ) (rt : Mat × Mat) (left : ℕ) (refs : List (ℕ × Skeleton D)) (own : Mat × Mat)
      (m : List (ℕ × Skeleton D)) (p : Merge D Mat) {s : Scene D Mat}
      → start.cell left ≡ some s
      → AreFloats C L rt
      → AreFloats C L own
      → Merged start p
      → Returns (merge_both C near now id rt left refs own m p) (Merged start)
  unfolding merge_both
  merge_both-Returns id rt left refs own [] p live f g h = (p, refl, h)
  merge_both-Returns id rt left refs own ((k, person) ∷ m) p live f g h =
      >>=-Returns (moved C own.0 own.1 person) _ (moved-Returns C L own person g) (λ matching l.
        >>=-Returns (merge_match C now id rt left person (find_match near matching refs) p) _
          (merge_match-Returns id rt left person (find_match near matching refs) p live f h)
          (λ p' h'. merge_both-Returns id rt left refs own m p' live f g h'))

  merge_beside-Returns :
      (id : ℕ) (rt : Mat × Mat) (s : Scene D Mat) (l : Link) (p : Merge D Mat)
      → Fits C L start l (s.r_matrix, s.t_matrix)
      → AreFloats C L rt
      → Merged start p
      → Returns (merge_beside C near now id rt s l p) (Merged start)
  unfolding merge_beside
  merge_beside-Returns id rt s null p f g h = (
    merge_first now id s.skeletons p,
    refl,
    merge_first-Merged C near rand now id s.skeletons p h,
  )
  merge_beside-Returns id rt s wild p f g h = elim f [ ]
  merge_beside-Returns id rt s (to left) p f g h =
      let (t, here, same) = live-pruned C L start p.store h.are_pruned left f.0.1 in
      rw here (by_people t.skeletons)
    where
      by_people :
          (refs : List (ℕ × Skeleton D))
          → Returns
              (elim refs as (λ _. Result (Merge D Mat)) [
                | [] ↦ merge_alone C now id rt s.skeletons p
                | e ∷ refs' ↦
                    merge_both C near now id rt left
                      (e ∷ refs')
                      (s.r_matrix, s.t_matrix)
                      s.skeletons
                      p
              ])
              (Merged start)
      by_people [] = merge_alone-Returns id rt s.skeletons p g h
      by_people (e ∷ refs) =
          merge_both-Returns id rt left (e ∷ refs) (s.r_matrix, s.t_matrix) s.skeletons p f.0.1 g
            f.1 h

  merge_scene-Returns :
      (a : ℕ) (left_of : List ℕ) (p : Merge D Mat)
      → AllFit C L start (a ∷ left_of)
      → Merged start p
      → Returns (merge_scene C near rand now a left_of p) (Merged start)
  unfolding merge_scene
  merge_scene-Returns a left_of p f h =
      let (t, here, same) = live-pruned C L start p.store h.are_pruned a f.0.live in
      let p' : Merge D Mat = record p { drawn = suc p.drawn } in
      let (rt, e, g) =
        combine-Returns C L p.store (a ∷ left_of) (C.eye, C.zero_column)
          (AllFit-pruned C L start p.store h.are_pruned (a ∷ left_of) f) (eye-AreFloats C L) in
      let fits =
        subst (λ (x : Scene D Mat). Fits C L start x.left (x.r_matrix, x.t_matrix)) (sym same)
          f.0.fits in
      let (q, k, m) = merge_beside-Returns (rand p.drawn % 100) rt t t.left p' fits g (record {
        global_valid = h.global_valid;
        are_valid = h.are_valid;
        are_pruned = h.are_pruned;
      }) in
      elim (Bool-cases t.calibrated) [
        | inl calibrated ↦ (q, rw (here, calibrated, (rw here at e)) k, m)
        | inr other ↦ (p, rw (here, other) refl, h)
      ]

  pub merge_list-Returns :
      (xs : List ℕ) (p : Merge D Mat)
      → AllFit C L start xs
      → Merged start p
      → Returns (merge_list C near rand now xs p) (Merged start)
  unfolding merge_list
  merge_list-Returns [] p f h = (p, refl, h)
  merge_list-Returns (a ∷ left_of) p f h =
      >>=-Returns (merge_scene C near rand now a left_of p) _ (merge_scene-Returns a left_of p f h)
        (λ p' h'. merge_list-Returns left_of p' f.1 h')
