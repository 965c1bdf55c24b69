-- ===== src/Algorithms/Viewport/Merging.antt =====
-- Algorithms/MinorityViewportAlgo.cpp, `MergeScenes`, `TransformSkeletonMatrix` and `GetGlobalScene`.
-- `near a b` is the test that |a - b| is below the threshold, 0.04; `rand k` is the k-th answer of
-- `rand()` in the call, and `now k` the timer's reading at the k-th update of the global scene.
pub mod Matching
pub mod Shown
pub mod Pair
pub mod Pruning
pub mod Sizes
pub mod People
pub mod Fitting
pub mod Returning
pub mod Chained
pub mod Leftmost
use mathlib.Core.List.{reverse}
use minority_viewport.Base.{
  ℕ, zero, suc, ◌+◌, ◌-◌, ◌%◌, Bool, true, false, ◌||◌, List, [], ◌∷◌, Option, none, some, Result,
  ok, err, undefined, ◌>>=◌, if◌then◌else◌,
}
use minority_viewport.Data.Matrix.{Matrices}
use minority_viewport.Data.Skeleton.{Skeleton, set_shared, unset_shared}
use minority_viewport.Data.Skeleton.Points.{
  get_complete_points_vector_matrix, convert_vector_matrix_to_skeleton_points,
}
use minority_viewport.Data.Scene.{Scene, Link, to, null, wild, update, remove, manual_clear}
use minority_viewport.Data.Sensor.{Store, fetch, modify}
use minority_viewport.Algorithms.Viewport.{Viewport}

-- `GetLeftFrame()==NULL`, undefined for a pointer that was never initialised.
abbrev pub is_leftmost : Link → Result Bool
is_leftmost (to a) = ok false
is_leftmost null = ok true
is_leftmost wild = err undefined

module _ (D M : Type 0) where
  -- Where the merge stands: the global scene, the other scenes, and how many answers of `rand()` and
  -- updates there were.
  pub record Merge : Type 0 where
    pub global : Scene D M
    pub store : Store D M
    pub drawn : ℕ
    pub updates : ℕ

module _ {D : Type 0} (C : Matrices D) where
  open C use {Mat, cols, transpose, multiply, add, push_back}

  abbrev pub repeat_row : ℕ → Mat → Mat → Result Mat
  repeat_row zero row m = ok m
  repeat_row (suc n) row m = do m' ← push_back m row; repeat_row n row m'

  unfoldable pub transform_skeleton_matrix : Mat → Mat → Mat → Result Mat
  transform_skeleton_matrix m r t = do
    let bt = transpose m
    resized ← repeat_row (cols bt - 1) (transpose t) (transpose t)
    product ← multiply r bt
    transformed ← add product (transpose resized)
    ok (transpose transformed)

  -- The skeleton moved by a rotation and a translation.
  unfoldable pub moved : Mat → Mat → Skeleton D → Result (Skeleton D)
  unfolding transform_skeleton_matrix
  moved r t s = do
    m ← get_complete_points_vector_matrix C s
    m' ← transform_skeleton_matrix m r t
    convert_vector_matrix_to_skeleton_points C m' s

  -- The product of the rotations and the sum of the translations from a scene on to the left.
  unfoldable pub combine : Store D Mat → List ℕ → Mat × Mat → Result (Mat × Mat)
  combine store [] rt = ok rt
  combine store (a ∷ as') rt = do
    s ← fetch a store
    leftmost ← is_leftmost s.left
    rt' ←
        (if leftmost
          then ok rt
          else (do r ← multiply rt.0 s.r_matrix; t ← add rt.1 s.t_matrix; ok (r, t)))
    combine store as' rt'

module _ {D M : Type 0} (now : ℕ → ℕ) where
  abbrev pub show_global : ℕ → Skeleton D → Merge D M → Merge D M
  show_global id person p = record p {
    global = update (now p.updates) id person p.global;
    updates = suc p.updates;
  }

  -- The loop for the leftmost scene.
  unfoldable pub merge_first : ℕ → List (ℕ × Skeleton D) → Merge D M → Merge D M
  merge_first id [] p = p
  merge_first id ((k, person) ∷ m) p = merge_first id m (show_global id (unset_shared person) p)

module _ {D M : Type 0} where
  abbrev pub start_merge : Viewport D M → Merge D M
  start_merge v = record {
    global = manual_clear v.global_scene;
    store = v.store;
    drawn = 0;
    updates = 0;
  }

module _ {D : Type 0} (near : D → D → Bool) where
  -- The first of the left scene's skeletons that is near in one of the coordinates.
  unfoldable pub find_match : Skeleton D → List (ℕ × Skeleton D) → Option ℕ
  find_match s [] = none
  find_match s ((k, ref) ∷ m) =
      if near ref.pos_x s.pos_x || near ref.pos_y s.pos_y || near ref.pos_z s.pos_z
      then some k
      else find_match s m

module _ {D : Type 0} (C : Matrices D) (now : ℕ → ℕ) where
  open C use {Mat}

  -- The loop for a scene with nobody in the scene to the left.
  unfoldable pub merge_alone :
      ℕ → Mat × Mat → List (ℕ × Skeleton D) → Merge D Mat → Result (Merge D Mat)
  unfolding moved
  merge_alone id combined [] p = ok p
  merge_alone id combined ((k, person) ∷ m) p = do
    person' ← moved C combined.0 combined.1 (unset_shared person)
    merge_alone id combined m (show_global now id person' p)

  -- A match is removed from the left scene, and the person is shown.
  unfoldable pub merge_match :
      ℕ → Mat × Mat → ℕ → Skeleton D → Option ℕ → Merge D Mat → Result (Merge D Mat)
  unfolding moved
  merge_match id combined left person none p = ok p
  merge_match id combined left person (some k) p = do
    store ← modify left (remove k) p.store
    person' ← moved C combined.0 combined.1 (set_shared person)
    ok (show_global now id person' (record p { store = store }))

module _ {D : Type 0} (C : Matrices D) (near : D → D → Bool) (now : ℕ → ℕ) where
  open C use {Mat}

  -- The loop for a scene with people in the scene to the left, as they were when it began.
  unfoldable pub merge_both :
      ℕ
      → Mat × Mat
      → ℕ
      → List (ℕ × Skeleton D)
      → Mat × Mat
      → List (ℕ × Skeleton D)
      → Merge D Mat
      → Result (Merge D Mat)
  unfolding moved find_match merge_match
  merge_both id combined left refs own [] p = ok p
  merge_both id combined left refs own ((k, person) ∷ m) p = do
    matching ← moved C own.0 own.1 person
    p' ← merge_match C now id combined left person (find_match near matching refs) p
    merge_both id combined left refs own m p'

  -- A scene, by the scene to its left.
  unfoldable pub merge_beside :
      ℕ → Mat × Mat → Scene D Mat → Link → Merge D Mat → Result (Merge D Mat)
  unfolding merge_first merge_alone merge_both
  merge_beside id combined s null p = ok (merge_first now id s.skeletons p)
  merge_beside id combined s wild p = err undefined
  merge_beside id combined s (to left) p = do
    l ← fetch left p.store
    elim l.skeletons as (λ _. Result (Merge D Mat)) [
      | [] ↦ merge_alone C now id combined s.skeletons p
      | e ∷ refs ↦ merge_both id combined left (e ∷ refs) (s.r_matrix, s.t_matrix) s.skeletons p
    ]

module _ {D : Type 0} (C : Matrices D) (near : D → D → Bool) (rand now : ℕ → ℕ) where
  open C use {Mat}

  -- The body of the loop over the scenes; `left_of` are those that the loop has before it.
  unfoldable pub merge_scene : ℕ → List ℕ → Merge D Mat → Result (Merge D Mat)
  unfolding combine merge_beside
  merge_scene a left_of p = do
    s ← fetch a p.store
    if s.calibrated
        then (do
          combined ← combine C p.store (a ∷ left_of) (C.eye, C.zero_column)
          merge_beside C near now (rand p.drawn % 100) combined s s.left
              (record p { drawn = suc p.drawn }))
        else ok p

  -- The loop, from the right to the left.
  unfoldable pub merge_list : List ℕ → Merge D Mat → Result (Merge D Mat)
  unfolding merge_scene
  merge_list [] p = ok p
  merge_list (a ∷ as') p = do p' ← merge_scene a as' p; merge_list as' p'

  unfoldable pub merge_scenes : Viewport D Mat → Result (Viewport D Mat)
  unfolding merge_list
  merge_scenes v = do
    p ← merge_list (reverse v.ordered_scenes) (start_merge v)
    ok (record v { global_scene = p.global; store = p.store })

  -- `none` is the null pointer.
  unfoldable pub get_global_scene : Viewport D Mat → Result (Option (Scene D Mat) × Viewport D Mat)
  unfolding merge_scenes
  get_global_scene v = elim v.ordered_scenes [
    | [] ↦ ok (none, v)
    | a ∷ as' ↦ do v' ← merge_scenes v; ok (some v'.global_scene, v')
  ]
