-- ===== src/Algorithms/Viewport/Alignment.antt =====
-- Algorithms/MinorityViewportAlgo.cpp, `CalibrateScenes`. The files that it writes for a look at the
-- matrices are left out, as nothing reads them.
pub mod Frames
use minority_viewport.Base.{
  ℕ, zero, suc, ◌+◌, ◌-◌, ◌%◌, ◌^◌, Bool, true, false, ◌&&◌, List, [], ◌∷◌, Bytes, codes, Option,
  none, some, Result, ok, err, no_fuel, out_of_range, or_fault, ◌>>=◌, ltb, get_elem?,
  if◌then◌else◌,
}
use minority_viewport.Data.Json.{Json}
use minority_viewport.Data.Matrix.{Matrices}
use minority_viewport.Data.Skeleton.{Skeleton, check_full_set_of_joints}
use minority_viewport.Data.Skeleton.Points.{get_complete_points_vector_matrix}
use minority_viewport.Data.Skeleton.Reading.{Readers, new_skeleton}
use minority_viewport.Data.Scene.{set_r_and_t, set_calibration}
use minority_viewport.Data.Sensor.{Store, modify}
use minority_viewport.Algorithms.Viewport.{Viewport}

module _ {D : Type 0} (C : Matrices D) where
  open C use {Mat, rows, transpose, negate, push_back, multiply, add, subtract, average, decompose}

  -- The skeletons of one scene and then of the other, as two lists with the last pair first.
  abbrev pub Pairs : Type 0
  Pairs = List (Skeleton D) × List (Skeleton D)

  unfoldable pub stack : List (Skeleton D) → Mat → Result Mat
  stack [] m = ok m
  stack (s ∷ ss) m = do
    points ← get_complete_points_vector_matrix C s
    m' ← push_back m points
    stack ss m'

  abbrev pub repeat_average : ℕ → Mat → Mat → Result Mat
  repeat_average zero row m = ok m
  repeat_average (suc n) row m = do m' ← push_back m row; repeat_average n row m'

  -- The rotation and the translation from the body frame to the reference frame.
  unfoldable pub align : List (Skeleton D) → List (Skeleton D) → Result (Mat × Mat)
  unfolding stack
  align references bodies = do
    a_float ← stack references C.empty
    b_float ← stack bodies C.empty
    a_average ← average a_float
    b_average ← average b_float
    let a = C.to_double a_float
    let b = C.to_double b_float
    let a_row = C.to_double a_average
    let b_row = C.to_double b_average
    a_centroid ← repeat_average (rows a - 1) a_row a_row
    b_centroid ← repeat_average (rows a - 1) b_row b_row
    first ← subtract b b_centroid
    second ← subtract a a_centroid
    h ← multiply (transpose first) second
    (u, vt) ← decompose h
    product ← multiply (transpose vt) (transpose u)
    let rotation = C.to_float product
    temp ← multiply (negate rotation) (transpose (C.to_float b_row))
    translation ← add temp (transpose a_row)
    ok (rotation, translation)

-- The scene with the lower order is the reference frame: the reference's order and skeletons, and the
-- body's.
abbrev pub frames {ℓ} : {A : Type ℓ} → ℕ → A → ℕ → A → (ℕ × A) × (ℕ × A)
frames order_a a order_b b =
    if ltb order_a order_b then ((order_a, a), (order_b, b)) else ((order_b, b), (order_a, a))

-- `_orderedScenes.at(order-1)`, in 32 bits.
abbrev pub scene_at : ℕ → List ℕ → Result ℕ
scene_at order scenes = or_fault (get_elem? scenes ((order + 2 ^ 32 - 1) % 2 ^ 32)) out_of_range

module _ {D M : Type 0} where
  -- What the computed matrices are written to.
  unfoldable pub assign_frames : ℕ → ℕ → M × M → Viewport D M → Result (Viewport D M)
  assign_frames ref_order body_order rt v = do
    body ← scene_at body_order v.ordered_scenes
    store ← modify body (set_r_and_t rt.0 rt.1) v.store
    ref ← scene_at ref_order v.ordered_scenes
    store' ← modify body (set_calibration true) store
    store'' ← modify ref (set_calibration true) store'
    ok (record v { store = store'' })

module _ {D : Type 0} (C : Matrices D) where
  open C use {Mat}

  unfoldable pub calibrate_pairs : ℕ → ℕ → Pairs C → Viewport D Mat → Result (Viewport D Mat)
  unfolding assign_frames
  calibrate_pairs order_a order_b (as', bs) v = do
    let ((ref_order, references), (body_order, bodies)) = frames order_a as' order_b bs
    rt ← align C references bodies
    assign_frames ref_order body_order rt v

module _ {D : Type 0} (C : Matrices D) (is_zero : D → Bool) where
  -- A pair is kept if both have a full set of joints.
  abbrev pub keep_full : Skeleton D → Skeleton D → Pairs C → Pairs C
  keep_full a b (as', bs) =
      if check_full_set_of_joints is_zero a && check_full_set_of_joints is_zero b
      then (a ∷ as', b ∷ bs)
      else (as', bs)

module _ (J : Json) {D : Type 0} (R : Readers J D) (C : Matrices D) (is_zero : D → Bool) where
  open J use {Value, parse, size}
  open R use {member}
  open C use {Mat}

  -- The loop over both arrays, from index `i` on for a number of rounds.
  unfoldable pub read_pairs : ℕ → ℕ → Value → Value → Pairs C → Result (Pairs C)
  read_pairs zero i values_a values_b kept = ok kept
  read_pairs (suc n) i values_a values_b kept = do
    a ← new_skeleton J R (J.at values_a i) 0
    b ← new_skeleton J R (J.at values_b i) 0
    read_pairs n (i + 1) values_a values_b (keep_full C is_zero a b kept)

  abbrev pub read_arrays : Value → Value → Result (Pairs C)
  read_arrays root_a root_b = do
    values_a ← member root_a (codes "skeletons")
    values_b ← member root_b (codes "skeletons")
    if ltb (size values_a) (2 ^ 16)
        then read_pairs (size values_a) 0 values_a values_b ([], [])
        else err no_fuel

  abbrev pub calibrate_parsed :
      ℕ → Option Value → ℕ → Option Value → Viewport D Mat → Result (Bool × Viewport D Mat)
  calibrate_parsed order_a (some root_a) order_b (some root_b) v = do
    pairs ← read_arrays root_a root_b
    v' ← calibrate_pairs C order_a order_b pairs v
    ok (true, v')
  calibrate_parsed order_a _ order_b _ v = ok (false, v)

  unfoldable pub calibrate_scenes :
      ℕ → Bytes → ℕ → Bytes → Viewport D Mat → Result (Bool × Viewport D Mat)
  unfolding calibrate_pairs read_pairs
  calibrate_scenes order_a json_a order_b json_b v = elim v.ordered_scenes [
    | [] ↦ ok (false, v)
    | a ∷ as' ↦ calibrate_parsed order_a (parse json_a) order_b (parse json_b) v
  ]
