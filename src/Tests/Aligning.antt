-- ===== src/Tests/Aligning.antt =====
-- Algorithms/: aligning two scenes by what their sensors saw, at concrete inputs.
use minority_viewport.Base.{ℕ, true, List, [], ◌∷◌, codes, none, some, ok, ◌==◌, ◌≡◌, refl, arith}
use minority_viewport.Base.OrderedMap.{number_order}
use minority_viewport.Base.Texts.{bytes_eq}
use minority_viewport.Data.Skeleton.{Skeleton, check_full_set_of_joints}
use minority_viewport.Data.Skeleton.Points.{get_complete_points_vector_matrix}
use minority_viewport.Data.Skeleton.Reading.{new_skeleton, read_joints, read_tracking}
use minority_viewport.Data.Scene.{set_calibration, set_r_and_t}
use minority_viewport.Algorithms.Viewport.{Viewport}
use minority_viewport.Algorithms.Viewport.Alignment.{align, stack, calibrate_scenes}
use minority_viewport.Algorithms.Viewport.Alignment.Frames.{
  AreRead, calibrate_scenes-flip, calibrate_scenes-align,
}
use minority_viewport.Tests.World.{Rows, json, readers, matrices}
use minority_viewport.Tests.Scenes.{hall, lab, visitor, gallery}

-- What both texts give.
abbrev seen : List (Skeleton ℕ)
seen = visitor 4 ∷ []

seen-AreRead : AreRead json readers matrices (λ d. d == 0) (codes "{}") (codes "[]") seen seen
unfolding new_skeleton read_joints read_tracking bytes_eq
seen-AreRead = record {
  root_a = 1;
  root_b = 1;
  values_a = 1;
  values_b = 1;
  parse_a = refl;
  parse_b = refl;
  member_a = refl;
  member_b = refl;
  size_a = refl;
  size_b = refl;
  same_length = refl;
  short = omega arith;
  reads_a = (refl, tt);
  reads_b = (refl, tt);
}

calibrate_scenes-flip_example :
    calibrate_scenes json readers matrices (λ d. d == 0) 2 (codes "[]") 1 (codes "{}") gallery
    ≡ calibrate_scenes json readers matrices (λ d. d == 0) 1 (codes "{}") 2 (codes "[]") gallery
calibrate_scenes-flip_example =
    calibrate_scenes-flip json readers matrices (λ d. d == 0) 1 2 (codes "{}") (codes "[]") seen
      seen gallery refl seen-AreRead (omega arith)

calibrate_scenes-align_example :
    (v' : Viewport ℕ Rows) × (calibrate_scenes json readers matrices
        (λ d. d == 0)
        1
        (codes "{}")
        2
        (codes "[]")
        gallery
      ≡ ok (true, v'))
    × (v'.store.cell 20 ≡ some (set_calibration true hall))
    × (v'.store.cell 30
        ≡ some (set_calibration true (set_r_and_t ((4, 4, 4) ∷ []) ((4, 4, 4) ∷ []) lab)))
    × (v'.store.cell 40 ≡ none)
    × (v'.ordered_scenes ≡ 20 ∷ 30 ∷ [])
    × (v'.clients ≡ gallery.clients)
unfolding align stack get_complete_points_vector_matrix check_full_set_of_joints
calibrate_scenes-align_example =
    calibrate_scenes-align json readers matrices (λ d. d == 0) 1 2 20 30 40 (codes "{}")
      (codes "[]") seen seen gallery refl seen-AreRead (omega arith) refl refl refl refl refl
      (omega arith) (omega arith) (omega arith)
