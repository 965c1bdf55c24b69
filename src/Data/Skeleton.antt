-- ===== src/Data/Skeleton.antt =====
-- Data/Joint.h, Data/Joint.cpp, Data/Skeleton.h and Data/Skeleton.cpp: the data and the accessors.
-- The type of `double` is a parameter `D`; where a coordinate is compared with 0, so is the test.
pub mod Reading
pub mod Points
pub mod Writing
use minority_viewport.Base.{
  ℕ, Bool, true, false, ◌||◌, List, [], ◌∷◌, Bytes, Option, none, get_elem?, Result, ok, undefined,
  or_fault, if◌then◌else◌,
}

-- `Joint::JointType`; a joint made from JSON has its index for a type, whatever the index is.
abbrev pub JointType : Type 0
JointType = ℕ

-- The last enumerator, `None`, after the twenty joints.
abbrev pub none_type : JointType
none_type = 20

-- `Joint::Mode`.
pub data Mode : Type 0 where
  tracked not_tracked inferred : Mode

-- `Skeleton::TrackingMode`.
pub data Tracking : Type 0 where
  position_only tracked : Tracking

module _ (D : Type 0) where
  pub record Joint : Type 0 where
    pub type : JointType
    pub x : D
    pub y : D
    pub z : D
    -- not initialised in a joint made by default
    pub mode : Option Mode

  pub record Skeleton : Type 0 where
    pub client_id : ℕ
    pub skeleton_id : ℕ
    pub sensor_id : Bytes
    -- a `long` of 32 bits, by its pattern
    pub time_stamp : ℕ
    pub shared : Bool
    pub pos_x : D
    pub pos_y : D
    pub pos_z : D
    pub tracking : Tracking
    pub joints : List Joint

module _ {D : Type 0} where
  -- `Joint::Joint()`, at the zero of `double`.
  abbrev pub no_joint : D → Joint D
  no_joint zero = record { type = none_type; x = zero; y = zero; z = zero; mode = none }

  unfoldable pub set_shared : Skeleton D → Skeleton D
  set_shared s = record s { shared = true }

  unfoldable pub unset_shared : Skeleton D → Skeleton D
  unset_shared s = record s { shared = false }

  unfoldable pub set_joints : List (Joint D) → Skeleton D → Skeleton D
  set_joints js s = record s { joints = js }

  -- Has any of the joints a coordinate that is 0?
  abbrev pub all_placed : (D → Bool) → List (Joint D) → Bool
  all_placed is_zero [] = true
  all_placed is_zero (j ∷ js) =
      if is_zero j.x || is_zero j.y || is_zero j.z then false else all_placed is_zero js

  unfoldable pub check_full_set_of_joints : (D → Bool) → Skeleton D → Bool
  check_full_set_of_joints is_zero s = all_placed is_zero s.joints

  -- An index beyond the joints of a list that is not empty is undefined.
  unfoldable pub get_joint : D → JointType → Skeleton D → Result (Joint D)
  get_joint zero type s = elim s.joints [
    | [] ↦ ok (no_joint zero)
    | j ∷ js ↦ or_fault (get_elem? (j ∷ js) type) undefined
  ]
