-- ===== src/Data/Skeleton/Reading.antt =====
-- Data/Skeleton.cpp, the constructor. What it calls of the JSON library besides `Json` is `Readers`:
-- `operator==` on values, `asUInt`, `asDouble`, which throw at a value of another kind, the value made
-- from a text, `operator[]` with a key, which throws where there are no members, and the conversion of
-- a `double` to a `long`, which is undefined out of range.
use minority_viewport.Base.{
  ℕ, zero, suc, ◌+◌, ◌%◌, ◌^◌, Bool, false, List, [], ◌∷◌, Bytes, codes, Option, none, some, Result,
  ok, err, no_fuel, ◌>>=◌, ltb, if◌then◌else◌,
}
use minority_viewport.Base.Texts.{bytes_eq}
use minority_viewport.Data.Json.{Json}
use minority_viewport.Data.Skeleton.{JointType, Mode, Tracking, Joint, Skeleton}

pub record Readers (J : Json) (D : Type 0) : Type 0 where
  pub equal : J.Value → J.Value → Bool
  pub as_uint : J.Value → Result ℕ
  pub as_double : J.Value → Result D
  pub of_string : Bytes → J.Value
  pub member : J.Value → Bytes → Result J.Value
  -- the pattern of a `long` of 32 bits
  pub to_long : D → Result ℕ

-- The texts for the modes; with another text the mode is not initialised.
abbrev pub mode_of : Bytes → Option Mode
mode_of text =
    if bytes_eq text (codes "Tracked")
    then some Mode.tracked
    else if bytes_eq text (codes "NotTracked")
    then some Mode.not_tracked
    else if bytes_eq text (codes "Inferred")
    then some Mode.inferred
    else none

abbrev pub tracking_of : Bytes → Tracking
tracking_of text =
    if bytes_eq text (codes "Tracked") then Tracking.tracked else Tracking.position_only

module _ (J : Json) {D : Type 0} (R : Readers J D) where
  open J use {Value, null_value, get, at, size, as_string}
  open R use {equal, as_uint, as_double}

  abbrev pub member_or_null : Value → Bytes → Value
  member_or_null v key = get v key null_value

  unfoldable pub read_mode : Value → Result (Option Mode)
  read_mode v =
      if equal v null_value
      then ok (some Mode.not_tracked)
      else (do text ← as_string v; ok (mode_of text))

  -- The body of the loop over the joints.
  unfoldable pub read_joint : JointType → Value → Result (Joint D)
  unfolding read_mode
  read_joint type v = do
    mode ← read_mode (member_or_null v (codes "trackedMode"))
    x ← as_double (member_or_null v (codes "X"))
    y ← as_double (member_or_null v (codes "Y"))
    z ← as_double (member_or_null v (codes "Z"))
    ok (record { type = type; x = x; y = y; z = z; mode = mode })

  -- The loop, from index `i` on for a number of rounds.
  unfoldable pub read_joints : ℕ → ℕ → Value → Result (List (Joint D))
  read_joints zero i joints = ok []
  read_joints (suc n) i joints = do
    j ← read_joint i (at joints i)
    js ← read_joints n (i + 1) joints
    ok (j ∷ js)

  unfoldable pub read_tracking : Value → Result Tracking
  read_tracking v =
      if equal v null_value
      then ok Tracking.position_only
      else (do text ← as_string v; ok (tracking_of text))

  -- The constructor. The counter of the loop is an `unsigned short`.
  unfoldable pub new_skeleton : Value → ℕ → Result (Skeleton D)
  unfolding read_joints read_tracking
  new_skeleton v time_stamp =
      let joints_json = member_or_null v (codes "joints") in
      let n = size joints_json in
      if ltb n (2 ^ 16)
      then (do
        joints ← read_joints n 0 joints_json
        tracking ← read_tracking (member_or_null v (codes "trackingMode"))
        client_id ← as_uint (member_or_null v (codes "client_id"))
        pos_x ← as_double (member_or_null v (codes "pos_x"))
        pos_y ← as_double (member_or_null v (codes "pos_y"))
        pos_z ← as_double (member_or_null v (codes "pos_z"))
        skeleton_id ← as_uint (member_or_null v (codes "skeleton_id"))
        sensor_id ← as_string (member_or_null v (codes "sensor_id"))
        ok (record {
          client_id = client_id;
          skeleton_id = skeleton_id % 2 ^ 16;
          sensor_id = sensor_id;
          time_stamp = time_stamp;
          shared = false;
          pos_x = pos_x;
          pos_y = pos_y;
          pos_z = pos_z;
          tracking = tracking;
          joints = joints;
        }))
      else err no_fuel
