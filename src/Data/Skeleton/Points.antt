-- ===== src/Data/Skeleton/Points.antt =====
-- Data/Skeleton.cpp, `GetCompletePointsVectorMatrix` and `ConvertVectorMatrixtoSkeletonPoints`. No
-- caller asks for the points to be written to a file.
pub mod Trip
pub mod Sizes
use mathlib.Core.Option
use minority_viewport.Base.{
  ℕ, zero, suc, ◌+◌, List, [], ◌∷◌, Option, none, some, Result, ok, out_of_range, or_fault, ◌>>=◌,
}
use minority_viewport.Data.Matrix.{Matrices}
use minority_viewport.Data.Skeleton.{Joint, Skeleton}

module _ {D : Type 0} where
  -- Write to `joints.at(i)`, which throws from the end on.
  abbrev pub move_joint : ℕ → D → D → D → List (Joint D) → Option (List (Joint D))
  move_joint i x y z [] = none
  move_joint zero x y z (j ∷ js) = some (record j { x = x; y = y; z = z } ∷ js)
  move_joint (suc i) x y z (j ∷ js) = Option.map (◌∷◌ j) (move_joint i x y z js)

module _ {D : Type 0} (C : Matrices D) where
  open C use {Mat, rows, at}

  -- The loop over the joints.
  unfoldable pub push_joints : List (Joint D) → Mat → Result Mat
  push_joints [] m = ok m
  push_joints (j ∷ js) m = do m' ← C.push_back m (C.row j.x j.y j.z); push_joints js m'

  unfoldable pub get_complete_points_vector_matrix : Skeleton D → Result Mat
  unfolding push_joints
  get_complete_points_vector_matrix s = do
    m ← push_joints s.joints (C.row s.pos_x s.pos_y s.pos_z)
    ok (C.to_float m)

  -- The body of the loop over the rows.
  unfoldable pub place_row : Mat → ℕ → Skeleton D → Result (Skeleton D)
  place_row m zero s = ok (record s { pos_x = at m 0 0; pos_y = at m 0 1; pos_z = at m 0 2 })
  place_row m (suc i) s = do
    js ←
        or_fault (move_joint i (at m (suc i) 0) (at m (suc i) 1) (at m (suc i) 2) s.joints)
          out_of_range
    ok (record s { joints = js })

  -- The loop, from a row on for a number of rounds.
  unfoldable pub place_rows : Mat → ℕ → ℕ → Skeleton D → Result (Skeleton D)
  unfolding place_row
  place_rows m zero i s = ok s
  place_rows m (suc n) i s = do s' ← place_row m i s; place_rows m n (suc i) s'

  unfoldable pub convert_vector_matrix_to_skeleton_points : Mat → Skeleton D → Result (Skeleton D)
  unfolding place_rows
  convert_vector_matrix_to_skeleton_points m s = place_rows (C.to_double m) (rows m) 0 s
