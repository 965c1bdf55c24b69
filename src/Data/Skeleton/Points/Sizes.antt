-- ===== src/Data/Skeleton/Points/Sizes.antt =====
-- The points of a skeleton in a matrix, and back: the calls return.
use minority_viewport.Base.{
  ℕ, zero, suc, ◌+◌, ◌<◌, ◌≤◌, List, [], ◌∷◌, length, some, ok, ◌≡◌, refl, subst, ◌∙◌, ap, arith,
}
use minority_viewport.Data.Matrix.{Matrices}
use minority_viewport.Data.Matrix.Sizes.{Depth, Returns, >>=-Returns, SizeLaws}
use minority_viewport.Data.Skeleton.{Joint, Skeleton}
use minority_viewport.Data.Skeleton.Points.{
  move_joint, push_joints, get_complete_points_vector_matrix, place_row, place_rows,
  convert_vector_matrix_to_skeleton_points,
}

module _ {D : Type 0} where
  move_joint-inside :
      (i : ℕ) (x y z : D) (js : List (Joint D))
      → i < length js
      → (js' : List (Joint D)) × (move_joint i x y z js ≡ some js') × (length js' ≡ length js)
  move_joint-inside i x y z [] h = absurd (omega arith)
  move_joint-inside zero x y z (j ∷ js) h = (_, refl, refl)
  move_joint-inside (suc i) x y z (j ∷ js) h =
      let (js', e, l) = move_joint-inside i x y z js (omega arith) in (j ∷ js', rw e refl, ap suc l)

module _ {D : Type 0} (C : Matrices D) (L : SizeLaws C) where
  open C use {Mat}
  open L use {Sized}

  push_joints-Sized :
      (js : List (Joint D)) (r : ℕ) (m : Mat)
      → Sized Depth.double r 3 m
      → Returns (push_joints C js m) (Sized Depth.double (length js + r) 3)
  unfolding push_joints
  push_joints-Sized [] r m h = (m, refl, subst (λ n. Sized Depth.double n 3 m) (omega arith) h)
  push_joints-Sized (j ∷ js) r m h =
      >>=-Returns (C.push_back m (C.row j.x j.y j.z)) (push_joints C js)
        (L.push_sized m (C.row j.x j.y j.z) h (L.sized_row j.x j.y j.z))
        (λ m' g.
          subst (λ n. Returns (push_joints C js m') (Sized Depth.double n 3)) (omega arith)
            (push_joints-Sized js (suc r) m' g))

  pub get_complete_points-Sized :
      (s : Skeleton D)
      → Returns
          (get_complete_points_vector_matrix C s)
          (Sized Depth.single (suc (length s.joints)) 3)
  unfolding get_complete_points_vector_matrix
  get_complete_points-Sized s =
      let base = C.row s.pos_x s.pos_y s.pos_z in
      >>=-Returns (push_joints C s.joints base) (λ m. ok (C.to_float m))
        (push_joints-Sized s.joints 1 base (L.sized_row s.pos_x s.pos_y s.pos_z))
        (λ m h. (
          C.to_float m,
          refl,
          subst (λ n. Sized Depth.single n 3 (C.to_float m)) (omega arith) (L.sized_float m h),
        ))

  place_row-inside :
      (m : Mat) (i : ℕ) (s : Skeleton D)
      → i ≤ length s.joints
      → Returns (place_row C m i s) (λ s'. length s'.joints ≡ length s.joints)
  unfolding place_row
  place_row-inside m zero s h = (_, refl, refl)
  place_row-inside m (suc i) s h =
      let (js, e, l) =
        move_joint-inside i (C.at m (suc i) 0) (C.at m (suc i) 1) (C.at m (suc i) 2) s.joints
          (omega arith) in
      (record s { joints = js }, rw e refl, l)

  place_rows-inside :
      (m : Mat) (n i : ℕ) (s : Skeleton D)
      → n + i ≤ suc (length s.joints)
      → Returns (place_rows C m n i s) (λ s'. length s'.joints ≡ length s.joints)
  unfolding place_rows
  place_rows-inside m zero i s h = (s, refl, refl)
  place_rows-inside m (suc n) i s h =
      >>=-Returns (place_row C m i s) (place_rows C m n (suc i))
        (place_row-inside m i s (omega arith))
        (λ s' l. let (t, e, k) = place_rows-inside m n (suc i) s' (omega arith) in (t, e, k ∙ l))

  -- A matrix with a row for the place and one for each joint fits the skeleton.
  pub convert-inside :
      {d : Depth} (m : Mat) (s : Skeleton D)
      → Sized d (suc (length s.joints)) 3 m
      → Returns
          (convert_vector_matrix_to_skeleton_points C m s)
          (λ s'. length s'.joints ≡ length s.joints)
  unfolding convert_vector_matrix_to_skeleton_points
  convert-inside m s h =
      let rows = L.sized_rows m h in place_rows-inside (C.to_double m) (C.rows m) 0 s (omega arith)
