-- ===== src/Algorithms/Viewport/Merging/Pair.antt =====
-- What a merge of two neighbouring scenes shows.
use minority_viewport.Base.{ℕ, ◌%◌, false, List, none, some, ◌==◌, if◌then◌else◌, ◌≡◌}
use minority_viewport.Base.OrderedMap.{find, number_order}
use minority_viewport.Data.Skeleton.{Skeleton}
use minority_viewport.Data.Scene.{Scene}
use minority_viewport.Algorithms.Viewport.{Viewport}
use minority_viewport.Algorithms.Viewport.Merging.Matching.{leave, latest}
use minority_viewport.Algorithms.Viewport.Merging.Shown.{unshared, alone}

module _ {D M : Type 0} (rand : ℕ → ℕ) where
  -- What the global scene and the two scenes are after the merge of the left scene `a` and the right
  -- scene `b`, with the matches `ms`.
  pub record IsPaired (a : ℕ) (s : Scene D M) (ms : List (ℕ × Skeleton D)) (v v' : Viewport D M)
      : Type 0 where
    pub global :
        (j : ℕ)
        → find j v'.global_scene.skeletons ≡ (
            let matched = find j (alone (rand 0 % 100) (latest none ms)) in
            if rand 1 % 100 == j then latest matched (unshared (leave ms s.skeletons)) else matched)
    pub left_scene : v'.store.cell a ≡ some (record s { skeletons = leave ms s.skeletons })
    pub others : (i : ℕ) → (i == a) ≡ false → v'.store.cell i ≡ v.store.cell i
    pub same_order : v'.ordered_scenes ≡ v.ordered_scenes
    pub same_clients : v'.clients ≡ v.clients
