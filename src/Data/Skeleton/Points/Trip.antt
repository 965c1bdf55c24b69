-- ===== src/Data/Skeleton/Points/Trip.antt =====
-- The points of a skeleton in a matrix, and back.
use minority_viewport.Base.{
  ℕ, suc, ◌+◌, ◌<◌, List, [], ◌∷◌, ◌++◌, append_assoc, map, length, length-append, some, ok, ◌≡◌,
  refl, subst, ◌∙◌, arith,
}
use minority_viewport.Data.Matrix.{Matrices}
use minority_viewport.Data.Skeleton.{Joint, Skeleton}
use minority_viewport.Data.Skeleton.Points.{
  move_joint, push_joints, get_complete_points_vector_matrix, place_row, place_rows,
  convert_vector_matrix_to_skeleton_points,
}

-- A matrix with one more row. `Doubles r m`: a `CV_64F` matrix of `r` rows and three columns.
pub record HasRow {D : Type 0} (C : Matrices D) (Doubles : ℕ → C.Mat → Type 0) (r : ℕ)
    (m m' : C.Mat) (x y z : D) : Type 0 where
  pub pushed : C.push_back m (C.row x y z) ≡ ok m'
  pub doubles : Doubles (suc r) m'
  pub old_rows : (i c : ℕ) → i < r → c < 3 → C.at m' i c ≡ C.at m i c
  pub new_x : C.at m' r 0 ≡ x
  pub new_y : C.at m' r 1 ≡ y
  pub new_z : C.at m' r 2 ≡ z

-- What OpenCV documents of matrices of doubles with three columns, and of their conversion to floats
-- and back, which rounds each element. Elements are read inside the matrix only.
pub record RowLaws {D : Type 0} (C : Matrices D) (round : D → D) : Type 1 where
  pub Doubles : ℕ → C.Mat → Type 0
  pub doubles_row : (x y z : D) → Doubles 1 (C.row x y z)
  pub at_x : (x y z : D) → C.at (C.row x y z) 0 0 ≡ x
  pub at_y : (x y z : D) → C.at (C.row x y z) 0 1 ≡ y
  pub at_z : (x y z : D) → C.at (C.row x y z) 0 2 ≡ z
  pub push_row :
      (r : ℕ) (m : C.Mat) (x y z : D) → Doubles r m → (m' : C.Mat) × HasRow C Doubles r m m' x y z
  pub rows_float : (r : ℕ) (m : C.Mat) → Doubles r m → C.rows (C.to_float m) ≡ r
  pub at_float :
      (r : ℕ) (m : C.Mat) (i c : ℕ)
      → Doubles r m
      → i < r
      → c < 3
      → C.at (C.to_double (C.to_float m)) i c ≡ round (C.at m i c)

module _ {D : Type 0} (C : Matrices D) (round : D → D) where
  -- From row `i` on, the rows hold the coordinates of the joints.
  abbrev HasJoints : C.Mat → ℕ → List (Joint D) → Type 0
  HasJoints m i [] = Unit {0}
  HasJoints m i (j ∷ js) =
      ((C.at m i 0 ≡ j.x) × (C.at m i 1 ≡ j.y) × (C.at m i 2 ≡ j.z)) × HasJoints m (suc i) js

  -- The joints were pushed, and the rows before them are the same.
  record Pushed (Doubles : ℕ → C.Mat → Type 0) (r : ℕ) (m : C.Mat) (js : List (Joint D))
      : Type 0 where
    result : C.Mat
    returned : push_joints C js m ≡ ok result
    doubles : Doubles (r + length js) result
    old_rows : (i c : ℕ) → i < r → c < 3 → C.at result i c ≡ C.at m i c
    has_joints : HasJoints result r js

  abbrev pub rounded_joint : Joint D → Joint D
  rounded_joint j = record j { x = round j.x; y = round j.y; z = round j.z }

  -- Every coordinate is rounded, and nothing else changes.
  abbrev pub rounded : Skeleton D → Skeleton D
  rounded s = record s {
    pos_x = round s.pos_x;
    pos_y = round s.pos_y;
    pos_z = round s.pos_z;
    joints = map rounded_joint s.joints;
  }

  module _ (L : RowLaws C round) where
    push_joints-Pushed :
        (js : List (Joint D)) (r : ℕ) (m : C.Mat) → L.Doubles r m → Pushed L.Doubles r m js
    unfolding push_joints
    push_joints-Pushed [] r m h = record {
      result = m;
      returned = refl;
      doubles = subst (λ n. L.Doubles n m) (omega arith) h;
      old_rows = λ i c h l. refl;
      has_joints = tt;
    }
    push_joints-Pushed (j ∷ js) r m h =
        let (m', one) = L.push_row r m j.x j.y j.z h in
        let ih = push_joints-Pushed js (suc r) m' one.doubles in
        let inside : r < suc r = omega arith in
        record {
          result = ih.result;
          returned = rw (one.pushed) ih.returned;
          doubles = subst (λ n. L.Doubles n ih.result) (omega arith) ih.doubles;
          old_rows = λ i c h l. ih.old_rows i c (omega arith) l ∙ one.old_rows i c h l;
          has_joints = (
            (
              ih.old_rows r 0 inside (omega arith) ∙ one.new_x,
              ih.old_rows r 1 inside (omega arith) ∙ one.new_y,
              ih.old_rows r 2 inside (omega arith) ∙ one.new_z,
            ),
            ih.has_joints,
          );
        }

    move_joint-append :
        (done js : List (Joint D)) (j : Joint D) (x y z : D)
        → move_joint (length done) x y z (done ++ j ∷ js)
          ≡ some (done ++ record j { x = x; y = y; z = z } ∷ js)
    move_joint-append [] js j x y z = refl
    move_joint-append (d ∷ done) js j x y z = rw (move_joint-append done js j x y z) refl

    place_rows-HasJoints :
        (r : ℕ) (m : C.Mat) (done js : List (Joint D)) (s : Skeleton D)
        → L.Doubles r m
        → length done + length js < r
        → HasJoints m (suc (length done)) js
        → place_rows C
            (C.to_double (C.to_float m))
            (length js)
            (suc (length done))
            (record s { joints = done ++ js })
          ≡ ok (record s { joints = done ++ map rounded_joint js })
    unfolding place_rows
    place_rows-HasJoints r m done [] s d b h = refl
    place_rows-HasJoints r m done (j ∷ js) s d b h =
        let i = suc (length done) in
        let inside : i < r = omega arith in
        let j' = rounded_joint j in
        let next : suc (length done) ≡ length (done ++ rounded_joint j ∷ []) =
          omega (arith, length-append done (rounded_joint j ∷ [])) in
        rw
          (
            L.at_float r m i 0 d inside (omega arith),
            L.at_float r m i 1 d inside (omega arith),
            L.at_float r m i 2 d inside (omega arith),
            h.0.0,
            h.0.1,
            h.0.2,
            move_joint-append done js j (round j.x) (round j.y) (round j.z),
          )
          (rw
            (
              ← next,
              append_assoc done (j' ∷ []) js,
              append_assoc done (j' ∷ []) (map rounded_joint js),
            )
            at
            (place_rows-HasJoints r m (done ++ j' ∷ []) js s d (omega (arith, next, b))
              (rw (← next) h.1)))

    -- The matrix of a skeleton's points, put back into the skeleton, gives it with every coordinate
    -- rounded to a float, and with all else as it was; neither call fails.
    pub convert-get_complete_points :
        (s : Skeleton D)
        → (m : C.Mat) × (get_complete_points_vector_matrix C s ≡ ok m)
          × (convert_vector_matrix_to_skeleton_points C m s ≡ ok (rounded s))
    unfolding get_complete_points_vector_matrix convert_vector_matrix_to_skeleton_points place_rows
        place_row
    convert-get_complete_points s =
        let base = C.row s.pos_x s.pos_y s.pos_z in
        let p = push_joints-Pushed s.joints 1 base (L.doubles_row s.pos_x s.pos_y s.pos_z) in
        let n = 1 + length s.joints in
        let count : C.rows (C.to_float p.result) ≡ suc (length s.joints) =
          omega (arith, L.rows_float n p.result p.doubles) in
        let inside : 0 < n = omega arith in
        (
          C.to_float p.result,
          rw (p.returned),
          rw
              (
                count,
                L.at_float n p.result 0 0 p.doubles inside (omega arith),
                L.at_float n p.result 0 1 p.doubles inside (omega arith),
                L.at_float n p.result 0 2 p.doubles inside (omega arith),
                p.old_rows 0 0 (omega arith) (omega arith),
                p.old_rows 0 1 (omega arith) (omega arith),
                p.old_rows 0 2 (omega arith) (omega arith),
                L.at_x s.pos_x s.pos_y s.pos_z,
                L.at_y s.pos_x s.pos_y s.pos_z,
                L.at_z s.pos_x s.pos_y s.pos_z,
              )
              (place_rows-HasJoints n p.result [] s.joints
                (record (rounded s) { joints = s.joints }) p.doubles (omega arith) p.has_joints),
        )
