-- ===== src/Algorithms/Viewport/Merging/Fitting.antt =====
-- Scenes whose links and matrices fit: what a merge may take them for, and that their matrices combine.
use minority_viewport.Base.{
  All, ℕ, if◌then◌else◌, List, [], ◌∷◌, Option, none, some, Result, ok, ◌>>=◌, ◌≡◌, refl, sym,
  subst,
}
use minority_viewport.Base.OrderedMap.{number_order}
use minority_viewport.Data.Matrix.{Matrices}
use minority_viewport.Data.Matrix.Sizes.{Returns, SizeLaws}
use minority_viewport.Data.Scene.{Scene, Link, to, null, wild}
use minority_viewport.Data.Sensor.{Store}
use minority_viewport.Algorithms.Viewport.Merging.{is_leftmost, combine}
use minority_viewport.Algorithms.Viewport.Merging.Sizes.{AreFloats}
use minority_viewport.Algorithms.Viewport.Merging.Pruning.{IsPrunedCell, ArePruned}

module _ {D : Type 0} (C : Matrices D) (L : SizeLaws C) where
  open C use {Mat}

  -- A scene without one to the left needs no matrices; the link of another points to a live scene, and
  -- its matrices are a rotation and a translation in floats.
  abbrev pub Fits : Store D Mat → Link → Mat × Mat → Type 0
  Fits store null rt = Unit {0}
  Fits store wild rt = ⊥
  Fits store (to l) rt = ((s : Scene D Mat) × (store.cell l ≡ some s)) × AreFloats C L rt

  pub record FitsAt (store : Store D Mat) (a : ℕ) : Type 0 where
    pub scene : Scene D Mat
    pub live : store.cell a ≡ some scene
    pub fits : Fits store scene.left (scene.r_matrix, scene.t_matrix)

  abbrev pub AllFit : Store D Mat → List ℕ → Type 0
  AllFit store xs = All (FitsAt store) xs

  pub eye-AreFloats : AreFloats C L (C.eye, C.zero_column)
  eye-AreFloats = record { rotation = L.sized_eye; translation = L.sized_column }

  pruned-live :
      (s : Scene D Mat) (c : Option (Scene D Mat))
      → IsPrunedCell (some s) c
      → (t : Scene D Mat) × (c ≡ some t) × (t ≡ record s { skeletons = t.skeletons })
  pruned-live s none p = elim p [ ]
  pruned-live s (some t) p = (t, refl, p.0)

  module _ (start store : Store D Mat) (p : ArePruned start store) where
    pub live-pruned :
        (a : ℕ) {s : Scene D Mat}
        → start.cell a ≡ some s
        → (t : Scene D Mat) × (store.cell a ≡ some t) × (t ≡ record s { skeletons = t.skeletons })
    live-pruned a {s} live =
        pruned-live s (store.cell a) (subst (λ c. IsPrunedCell c (store.cell a)) live (p a))

    Fits-pruned : (l : Link) (rt : Mat × Mat) → Fits start l rt → Fits store l rt
    Fits-pruned null rt f = tt
    Fits-pruned wild rt f = f
    Fits-pruned (to l) rt f = let (t, live, same) = live-pruned l f.0.1 in ((t, live), f.1)

    -- Scenes that lose people still fit.
    FitsAt-pruned : (a : ℕ) → FitsAt start a → FitsAt store a
    FitsAt-pruned a f =
        let (t, live, same) = live-pruned a f.live in
        record {
          scene = t;
          live = live;
          fits =
              subst (λ (x : Scene D Mat). Fits store x.left (x.r_matrix, x.t_matrix)) (sym same)
                (Fits-pruned f.scene.left (f.scene.r_matrix, f.scene.t_matrix) f.fits);
        }

    pub AllFit-pruned : (xs : List ℕ) → AllFit start xs → AllFit store xs
    AllFit-pruned [] f = tt
    AllFit-pruned (a ∷ as') f = (FitsAt-pruned a f.0, AllFit-pruned as' f.1)

  combine_link-Returns :
      {X : Type 0} {P : X → Type 0} (store : Store D Mat) (l : Link) (own rt : Mat × Mat)
      (k : Mat × Mat → Result X)
      → Fits store l own
      → AreFloats C L rt
      → ((rt' : Mat × Mat) → AreFloats C L rt' → Returns (k rt') P)
      → Returns
          (do
            leftmost ← is_leftmost l
            rt' ←
                (if leftmost
                  then ok rt
                  else (do r ← C.multiply rt.0 own.0; t ← C.add rt.1 own.1; ok (r, t)))
            k rt')
          P
  combine_link-Returns store null own rt k f h next = next rt h
  combine_link-Returns store wild own rt k f h next = elim f [ ]
  combine_link-Returns store (to l) own rt k f h next =
      let (r, e, s) = L.multiply_sized rt.0 own.0 h.rotation f.1.rotation in
      let (t, e', s') = L.add_sized rt.1 own.1 h.translation f.1.translation in
      rw (e, e') (next (r, t) (record { rotation = s; translation = s' }))

  pub combine-Returns :
      (store : Store D Mat) (xs : List ℕ) (rt : Mat × Mat)
      → AllFit store xs
      → AreFloats C L rt
      → Returns (combine C store xs rt) (AreFloats C L)
  unfolding combine
  combine-Returns store [] rt f h = (rt, refl, h)
  combine-Returns store (a ∷ as') rt f h = rw f.0.live (
      combine_link-Returns store f.0.scene.left (f.0.scene.r_matrix, f.0.scene.t_matrix) rt
        (combine C store as') f.0.fits h (λ rt' g. combine-Returns store as' rt' f.1 g))
