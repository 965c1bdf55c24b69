-- ===== src/Tests/Writing.antt =====
-- Data/ and Misc/: what is written of scenes and clients, and the timer, at concrete inputs.
use minority_viewport.Base.{
  ℕ, ◌+◌, ◌-◌, true, [], ◌∷◌, ◌++◌, Bytes, codes, none, ok, ◌≡◌, refl, arith,
}
use minority_viewport.Data.Escape.{backslash, escape}
use minority_viewport.Data.Escape.Reading.{quote, escape_of, read_string, read_string_pair}
use minority_viewport.Data.Skeleton.{Skeleton, Tracking}
use minority_viewport.Data.Skeleton.Points.{
  get_complete_points_vector_matrix, convert_vector_matrix_to_skeleton_points,
}
use minority_viewport.Data.Skeleton.Points.Trip.{rounded, convert-get_complete_points}
use minority_viewport.Data.Scene.{Scene, new_scene}
use minority_viewport.Misc.Timer.{new_timer, start, reset, get_ticks_ms}
use minority_viewport.Misc.Timer.Ticks.{get_ticks_ms-start}
use minority_viewport.Tests.World.{Rows, matrices, matrices-RowLaws}

abbrev kinect : Bytes
kinect = codes "USB\\VID_045E\\6"

-- Every backslash is doubled.
escape-kinect : escape kinect ≡ ok (codes "USB\\\\VID_045E\\\\6")
unfolding escape
escape-kinect = refl

read_string_pair_example :
    (t : Bytes) × (escape (codes "A" ++ backslash ∷ backslash ∷ b'B' ∷ codes "C") ≡ ok t)
    × (read_string (t ++ quote ∷ codes "}") ≡ none)
unfolding escape_of
read_string_pair_example =
    read_string_pair (codes "A") (codes "C") (codes "}") b'B' ((refl, refl), tt) (refl, refl) refl
      (omega arith)

abbrev guest : Skeleton ℕ
guest = record {
  client_id = 4;
  skeleton_id = 6;
  sensor_id = codes "b";
  time_stamp = 0;
  shared = true;
  pos_x = 1;
  pos_y = 0;
  pos_z = 2;
  tracking = Tracking.tracked;
  joints = record { type = 0; x = 3; y = 4; z = 5; mode = none } ∷ [];
}

abbrev room : Scene ℕ Rows
room = record empty { skeletons = (6, guest) ∷ [] }
  where
    empty : Scene ℕ Rows
    empty = new_scene [] kinect

convert-get_complete_points_example :
    (m : Rows) × (get_complete_points_vector_matrix matrices guest ≡ ok m)
    × (convert_vector_matrix_to_skeleton_points matrices m guest
        ≡ ok (rounded matrices (λ d. d) guest))
convert-get_complete_points_example =
    convert-get_complete_points matrices (λ d. d) matrices-RowLaws guest

get_ticks_ms-start_example :
    (get_ticks_ms 70 (new_timer 1000) ≡ ok 0)
    × (get_ticks_ms 70 (start 60 (start 50 (new_timer 1000))) ≡ ok (1000 + (70 - 50)))
    × (get_ticks_ms 70 (reset 65 (start 50 (new_timer 1000))) ≡ ok (65 + (70 - 50)))
get_ticks_ms-start_example =
    get_ticks_ms-start 1000 50 60 65 70 (omega arith) (omega arith) (omega arith) (omega arith)
