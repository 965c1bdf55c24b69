-- ===== src/Algorithms/Viewport/Merging/Chained.antt =====
-- A merge of scenes that are linked to their neighbours.
use mathlib.Core.List.{reverse}
use mathlib.Core.Option.{some-injective}
use minority_viewport.Base.{
  All, All-reverse, drop, ◌+◌, ℕ, Bool, List, [], ◌∷◌, some, ok, ◌≡◌, refl, ap, Option-cases, inl,
  inr,
}
use minority_viewport.Base.OrderedMap.{number_order}
use minority_viewport.Data.Matrix.{Matrices}
use minority_viewport.Data.Matrix.Sizes.{SizeLaws}
use minority_viewport.Data.Scene.{Scene, to, null}
use minority_viewport.Data.Scene.Capacity.{manual_clear-IsValid}
use minority_viewport.Data.Sensor.{Store}
use minority_viewport.Algorithms.Viewport.{Viewport}
use minority_viewport.Algorithms.Viewport.Chain.Places.{IsChain}
use minority_viewport.Algorithms.Viewport.SensorData.Loading.{AreValid}
use minority_viewport.Algorithms.Viewport.Merging.{start_merge, merge_scenes}
use minority_viewport.Algorithms.Viewport.Merging.Sizes.{AreFloats}
use minority_viewport.Algorithms.Viewport.Merging.Pruning.{IsPrunedCell-refl}
use minority_viewport.Algorithms.Viewport.Merging.People.{IsMerged, merge_scenes-IsMerged}
use minority_viewport.Algorithms.Viewport.Merging.Fitting.{FitsAt, AllFit}
use minority_viewport.Algorithms.Viewport.Merging.Returning.{merge_list-Returns}

module _ {D : Type 0} (C : Matrices D) (L : SizeLaws C) where
  -- The matrices of the scene, if it lives, are a rotation and a translation in floats.
  abbrev pub FloatsAt : Store D C.Mat → ℕ → Type 0
  FloatsAt store a =
      (s : Scene D C.Mat) → store.cell a ≡ some s → AreFloats C L (s.r_matrix, s.t_matrix)

  chain-AllFit :
      (n a : ℕ) (xs : List ℕ) (store : Store D C.Mat) {s : Scene D C.Mat}
      → store.cell a ≡ some s
      → IsChain n (to a) xs store
      → All (FloatsAt store) xs
      → AllFit C L store xs
  chain-AllFit n a [] store live c f = tt
  chain-AllFit n a (b ∷ bs) store live c f = elim (Option-cases (store.cell b)) [
    | inl dead ↦ cc (rw dead at c.0)
    | inr (t, here) ↦
        let left : t.left ≡ to a = ap (λ x. x.1) (some-injective _ _ (rw here at c.0)) in
        (
          record { scene = t; live = here; fits = rw left ((_, live), f.0 t here) },
          chain-AllFit (n + 1) b bs store here c.1 f.1,
        )
  ]

  first-AllFit :
      (n : ℕ) (xs : List ℕ) (store : Store D C.Mat)
      → IsChain n null xs store
      → All (FloatsAt store) (drop 1 xs)
      → AllFit C L store xs
  first-AllFit n [] store c f = tt
  first-AllFit n (a ∷ as') store c f = elim (Option-cases (store.cell a)) [
    | inl dead ↦ cc (rw dead at c.0)
    | inr (t, here) ↦
        let left : t.left ≡ null = ap (λ x. x.1) (some-injective _ _ (rw here at c.0)) in
        (
          record { scene = t; live = here; fits = rw left tt },
          chain-AllFit (n + 1) a as' store here c.1 f,
        )
  ]

  -- If the ordered scenes are numbered in their order and each is linked to its neighbours, the first
  -- and the last to none on their outer sides, the matrices of all but the first are a rotation and a
  -- translation in floats, and every live scene is valid, then a merge of however many scenes,
  -- calibrated or not, returns. It leaves a global scene of at most three people, each under its own
  -- identifier, and changes nothing of the other scenes but that people may be gone from them: those who
  -- stay are as they were, under their identifiers and in their order. Every live scene stays valid, and
  -- the clients and the order stay as they were.
  pub merge_scenes-IsMerged_chained :
      (near : D → D → Bool) (rand now : ℕ → ℕ) (n : ℕ) (v : Viewport D C.Mat)
      → AreValid v.store
      → IsChain n null v.ordered_scenes v.store
      → All (FloatsAt v.store) (drop 1 v.ordered_scenes)
      → (v' : Viewport D C.Mat) × (merge_scenes C near rand now v ≡ ok v') × IsMerged v v'
  unfolding merge_scenes
  merge_scenes-IsMerged_chained near rand now n v valid chain floats =
      let fit = first-AllFit n v.ordered_scenes v.store chain floats in
      let (p, e, m) =
        merge_list-Returns C L near rand now (reverse v.ordered_scenes) (start_merge v)
          (All-reverse (FitsAt C L v.store) v.ordered_scenes fit)
          (record {
            global_valid = manual_clear-IsValid v.global_scene;
            are_valid = valid;
            are_pruned = λ b. IsPrunedCell-refl (v.store.cell b);
          }) in
      let v' : Viewport D C.Mat = record v { global_scene = p.global; store = p.store } in
      let returned : merge_scenes C near rand now v ≡ ok v' = rw e refl in
      (v', returned, merge_scenes-IsMerged C near rand now v valid returned)
