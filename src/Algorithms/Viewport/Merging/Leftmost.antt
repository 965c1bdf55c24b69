-- ===== src/Algorithms/Viewport/Merging/Leftmost.antt =====
-- What the leftmost scene adds to the global scene: all its people are shown under one identifier.
use minority_viewport.Base.{
  ℕ, suc, ◌%◌, Bool, true, List, [], ◌∷◌, ◌++◌, none, some, ok, if◌then◌else◌, ◌==◌, ◌≡◌, refl, ◌∙◌,
  Bool-cases, inl, inr,
}
use minority_viewport.Base.OrderedMap.{find, number_order}
use minority_viewport.Data.Matrix.{Matrices}
use minority_viewport.Data.Skeleton.{Skeleton, unset_shared}
use minority_viewport.Data.Scene.{Scene, null}
use minority_viewport.Data.Scene.Capacity.{
  IsValid, has_room, update-IsValid, find-update, has_room-update,
}
use minority_viewport.Algorithms.Viewport.Merging.{
  Merge, show_global, merge_first, merge_beside, merge_scene,
}

module _ {D M : Type 0} (now : ℕ → ℕ) where
  -- The map of a scene into which people were shown under one identifier, the last of them `person`.
  abbrev Shows : ℕ → Skeleton D → Scene D M → Scene D M → Type 0
  Shows id person s t =
      (j : ℕ)
      → find j t.skeletons
        ≡ (if id == j then (if has_room id s then some person else none) else find j s.skeletons)

  merge_first-Shows :
      (id k : ℕ) (person : Skeleton D) (m : List (ℕ × Skeleton D)) (p : Merge D M)
      → IsValid p.global
      → Shows id
          (unset_shared person)
          p.global
          (merge_first now id (m ++ (k, person) ∷ []) p).global
  unfolding merge_first
  merge_first-Shows id k person [] p v j =
      find-update (now p.updates) id j (unset_shared person) p.global v
  merge_first-Shows id k person ((i, other) ∷ m) p v j =
      let p' = show_global now id (unset_shared other) p in
      let ih =
        merge_first-Shows id k person m p'
          (update-IsValid (now p.updates) id (unset_shared other) p.global v) j in
      let room = has_room-update (now p.updates) id (unset_shared other) p.global v in
      let same = find-update (now p.updates) id j (unset_shared other) p.global v in
      elim (Bool-cases (id == j)) [
        | inl e ↦ ih ∙ rw (e, room) refl
        | inr e ↦ ih ∙ rw e (same ∙ rw e refl)
      ]

  merge_first-store :
      (id : ℕ) (m : List (ℕ × Skeleton D)) (p : Merge D M)
      → (merge_first now id m p).store ≡ p.store
  unfolding merge_first
  merge_first-store id [] p = refl
  merge_first-store id ((k, person) ∷ m) p =
      merge_first-store id m (show_global now id (unset_shared person) p)

module _ {D : Type 0} (C : Matrices D) (near : D → D → Bool) (rand now : ℕ → ℕ) where
  open C use {Mat}

  -- However many people the leftmost scene has, when its turn comes, which cannot fail then, the
  -- global scene gains the last of them at most, under the identifier drawn for the scene, if there is
  -- room for it; all other identifiers stay as they were, and so do the other scenes.
  pub merge_scene_leftmost :
      (a k j : ℕ) (person : Skeleton D) (m : List (ℕ × Skeleton D)) (p : Merge D Mat)
      {s : Scene D Mat}
      → p.store.cell a ≡ some s
      → s.calibrated ≡ true
      → s.left ≡ null
      → s.skeletons ≡ m ++ (k, person) ∷ []
      → IsValid p.global
      → (q : Merge D Mat) × (merge_scene C near rand now a [] p ≡ ok q)
        × (find j q.global.skeletons ≡ (
            if (rand p.drawn % 100) == j
            then (if has_room (rand p.drawn % 100) p.global
                then some (unset_shared person)
                else none)
            else find j p.global.skeletons))
        × (q.store ≡ p.store)
  unfolding merge_scene merge_beside
  merge_scene_leftmost a k j person m p {s} live calibrated leftmost people v =
      let id = rand p.drawn % 100 in
      let p' : Merge D Mat = record p { drawn = suc p.drawn } in
      (
        merge_first now id (m ++ (k, person) ∷ []) p',
        rw (live, calibrated, leftmost, people) refl,
        merge_first-Shows now id k person m p' v j,
        merge_first-store now id (m ++ (k, person) ∷ []) p',
      )
