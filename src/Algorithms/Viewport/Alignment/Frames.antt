-- ===== src/Algorithms/Viewport/Alignment/Frames.antt =====
-- Which scene becomes the reference, and what the calibration changes.
use minority_viewport.Base.{
  ℕ, ◌+◌, ◌^◌, ◌<◌, Bool, true, false, List, [], ◌∷◌, Bytes, codes, some, ok, ◌>>=◌, lt→ltb, length,
  ◌==◌, eq→==, ◌≡◌, ◌≢◌, refl, sym, ◌∙◌, arith,
}
use minority_viewport.Data.Json.{Json}
use minority_viewport.Data.Matrix.{Matrices}
use minority_viewport.Data.Skeleton.{Skeleton}
use minority_viewport.Data.Skeleton.Reading.{Readers}
use minority_viewport.Data.Scene.{Scene, set_r_and_t, set_calibration}
use minority_viewport.Data.Sensor.{Store, write}
use minority_viewport.Algorithms.Viewport.{Viewport}
use minority_viewport.Algorithms.Viewport.SensorData.Arrays.{Reads}
use minority_viewport.Algorithms.Viewport.Alignment.{
  Pairs, align, frames, scene_at, keep_full, read_pairs, read_arrays, assign_frames,
  calibrate_pairs, calibrate_scenes,
}

abbrev flip {ℓ} : {A : Type ℓ} → A × A → A × A
flip (a, b) = (b, a)

frames-flip {ℓ} : {A : Type ℓ} (m n : ℕ) (a b : A) → m ≢ n → frames m a n b ≡ frames n b m a
frames-flip m n a b h = ground arith

module _ {D M : Type 0} where
  -- The scenes after a calibration with the rotation and the translation `rt`.
  abbrev pub aligned : ℕ → ℕ → M × M → Scene D M → Scene D M → Store D M → Store D M
  aligned ref body rt s t store = write ref (some (set_calibration true s)) (
      write body (some (set_calibration true (set_r_and_t rt.0 rt.1 t)))
        (write body (some (set_r_and_t rt.0 rt.1 t)) store))

  assign_frames-live :
      (m n ref body : ℕ) (rt : M × M) (v : Viewport D M) {s t : Scene D M}
      → scene_at m v.ordered_scenes ≡ ok ref
      → scene_at n v.ordered_scenes ≡ ok body
      → v.store.cell ref ≡ some s
      → v.store.cell body ≡ some t
      → ref ≢ body
      → assign_frames m n rt v ≡ ok (record v { store = aligned ref body rt s t v.store })
  unfolding assign_frames
  assign_frames-live m n ref body rt v at_ref at_body live_ref live_body ne =
      let apart : (ref == body) ≡ false = ground arith in
      rw (at_body, live_body, at_ref, eq→== body body refl, apart, live_ref) refl

module _ {D : Type 0} (C : Matrices D) where
  open C use {Mat}

  calibrate_pairs-lt :
      (m n : ℕ) (pairs : Pairs C) (v : Viewport D Mat)
      → m < n
      → calibrate_pairs C m n pairs v ≡ (align C pairs.0 pairs.1 >>= λ rt. assign_frames m n rt v)
  unfolding calibrate_pairs
  calibrate_pairs-lt m n (as', bs) v h = rw (lt→ltb m n h) refl

  calibrate_pairs-flip :
      (m n : ℕ) (pairs : Pairs C) (v : Viewport D Mat)
      → m ≢ n
      → calibrate_pairs C n m (flip pairs) v ≡ calibrate_pairs C m n pairs v
  unfolding calibrate_pairs
  calibrate_pairs-flip m n (as', bs) v h = rw (frames-flip m n as' bs h) refl

module _ {D : Type 0} (C : Matrices D) (is_zero : D → Bool) where
  -- The pairs that are kept of two lists of skeletons.
  abbrev pub kept_pairs : List (Skeleton D) → List (Skeleton D) → Pairs C → Pairs C
  kept_pairs (a ∷ as') (b ∷ bs) kept = kept_pairs as' bs (keep_full C is_zero a b kept)
  kept_pairs _ _ kept = kept

  keep_full-flip :
      (a b : Skeleton D) (kept : Pairs C)
      → keep_full C is_zero b a (flip kept) ≡ flip (keep_full C is_zero a b kept)
  keep_full-flip a b (as', bs) = ground arith

  kept_pairs-flip :
      (as' bs : List (Skeleton D)) (kept : Pairs C)
      → kept_pairs bs as' (flip kept) ≡ flip (kept_pairs as' bs kept)
  kept_pairs-flip [] [] kept = refl
  kept_pairs-flip [] (b ∷ bs) kept = refl
  kept_pairs-flip (a ∷ as') [] kept = refl
  kept_pairs-flip (a ∷ as') (b ∷ bs) kept =
      rw (keep_full-flip a b kept) (kept_pairs-flip as' bs (keep_full C is_zero a b kept))

module _ (J : Json) {D : Type 0} (R : Readers J D) (C : Matrices D) (is_zero : D → Bool) where
  open J use {Value, parse, size}
  open R use {member}
  open C use {Mat}

  read_pairs-Reads :
      (i : ℕ) (values_a values_b : Value) (as' bs : List (Skeleton D)) (kept : Pairs C)
      → Reads J R i 0 values_a as'
      → Reads J R i 0 values_b bs
      → length as' ≡ length bs
      → read_pairs J R C is_zero (length as') i values_a values_b kept
        ≡ ok (kept_pairs C is_zero as' bs kept)
  unfolding read_pairs
  read_pairs-Reads i values_a values_b [] bs kept r s h = refl
  read_pairs-Reads i values_a values_b (a ∷ as') [] kept r s h = absurd (omega arith)
  read_pairs-Reads i values_a values_b (a ∷ as') (b ∷ bs) kept r s h =
      rw (r.0, s.0)
        (read_pairs-Reads (i + 1) values_a values_b as' bs (keep_full C is_zero a b kept) r.1 s.1
          (omega arith))

  -- The two texts parse, each has an array of as many skeletons as the other, fewer than 2^16, and
  -- all of them can be read: those of the one are `as'`, those of the other `bs`.
  pub record AreRead (json_a json_b : Bytes) (as' bs : List (Skeleton D)) : Type 0 where
    pub root_a : Value
    pub root_b : Value
    pub values_a : Value
    pub values_b : Value
    pub parse_a : parse json_a ≡ some root_a
    pub parse_b : parse json_b ≡ some root_b
    pub member_a : member root_a (codes "skeletons") ≡ ok values_a
    pub member_b : member root_b (codes "skeletons") ≡ ok values_b
    pub size_a : size values_a ≡ length as'
    pub size_b : size values_b ≡ length bs
    pub same_length : length as' ≡ length bs
    pub short : length as' < 2 ^ 16
    pub reads_a : Reads J R 0 0 values_a as'
    pub reads_b : Reads J R 0 0 values_b bs

  AreRead-flip :
      {json_a json_b : Bytes} {as' bs : List (Skeleton D)}
      → AreRead json_a json_b as' bs
      → AreRead json_b json_a bs as'
  AreRead-flip r = record {
    root_a = r.root_b;
    root_b = r.root_a;
    values_a = r.values_b;
    values_b = r.values_a;
    parse_a = r.parse_b;
    parse_b = r.parse_a;
    member_a = r.member_b;
    member_b = r.member_a;
    size_a = r.size_b;
    size_b = r.size_a;
    same_length = sym r.same_length;
    short = omega (arith, r.short, r.same_length);
    reads_a = r.reads_b;
    reads_b = r.reads_a;
  }

  read_arrays-AreRead :
      {json_a json_b : Bytes} {as' bs : List (Skeleton D)} (r : AreRead json_a json_b as' bs)
      → read_arrays J R C is_zero r.root_a r.root_b ≡ ok (kept_pairs C is_zero as' bs ([], []))
  read_arrays-AreRead {json_a} {json_b} {as'} {bs} r =
      rw (r.member_a, r.member_b, r.size_a, lt→ltb (length as') (2 ^ 16) r.short)
        (read_pairs-Reads 0 r.values_a r.values_b as' bs ([], []) r.reads_a r.reads_b r.same_length)

  calibrate_scenes-AreRead :
      (m n : ℕ) {json_a json_b : Bytes} (as' bs : List (Skeleton D)) (v : Viewport D Mat) {a : ℕ}
      {others : List ℕ}
      → v.ordered_scenes ≡ a ∷ others
      → AreRead json_a json_b as' bs
      → calibrate_scenes J R C is_zero m json_a n json_b v
        ≡ (calibrate_pairs C m n (kept_pairs C is_zero as' bs ([], [])) v >>= λ v'. ok (true, v'))
  unfolding calibrate_scenes
  calibrate_scenes-AreRead m n as' bs v e r =
      rw e (rw (r.parse_a, r.parse_b) (rw (read_arrays-AreRead r) refl))

  -- It does not matter which scene is named first: with their orders and texts exchanged the
  -- calibration does the same, if both texts give the same number of skeletons and the orders differ.
  pub calibrate_scenes-flip :
      (m n : ℕ) (json_a json_b : Bytes) (as' bs : List (Skeleton D)) (v : Viewport D Mat) {a : ℕ}
      {others : List ℕ}
      → v.ordered_scenes ≡ a ∷ others
      → AreRead json_a json_b as' bs
      → m ≢ n
      → calibrate_scenes J R C is_zero n json_b m json_a v
        ≡ calibrate_scenes J R C is_zero m json_a n json_b v
  calibrate_scenes-flip m n json_a json_b as' bs v e r h =
      calibrate_scenes-AreRead n m bs as' v e (AreRead-flip r)
      ∙ rw
          (
            kept_pairs-flip C is_zero as' bs ([], []),
            calibrate_pairs-flip C m n (kept_pairs C is_zero as' bs ([], [])) v h,
          )
          refl
      ∙ sym (calibrate_scenes-AreRead m n as' bs v e r)

  -- If the texts are read, the skeletons with a full set of joints on both sides give a rotation and a
  -- translation, and the orders, the first below the second, are those of two live scenes, the
  -- calibration succeeds: the scene with the lower order is the reference and keeps its matrices, the
  -- other gets these, both are calibrated, and no other scene, client or order changes.
  pub calibrate_scenes-align :
      (m n ref body other : ℕ) (json_a json_b : Bytes) (as' bs : List (Skeleton D))
      (v : Viewport D Mat) {rt : Mat × Mat} {s t : Scene D Mat} {a : ℕ} {others : List ℕ}
      → v.ordered_scenes ≡ a ∷ others
      → AreRead json_a json_b as' bs
      → m < n
      → align C (kept_pairs C is_zero as' bs ([], [])).0 (kept_pairs C is_zero as' bs ([], [])).1
        ≡ ok rt
      → scene_at m v.ordered_scenes ≡ ok ref
      → scene_at n v.ordered_scenes ≡ ok body
      → v.store.cell ref ≡ some s
      → v.store.cell body ≡ some t
      → ref ≢ body
      → other ≢ ref
      → other ≢ body
      → (v' : Viewport D Mat) × (calibrate_scenes J R C is_zero m json_a n json_b v ≡ ok (true, v'))
        × (v'.store.cell ref ≡ some (set_calibration true s))
        × (v'.store.cell body ≡ some (set_calibration true (set_r_and_t rt.0 rt.1 t)))
        × (v'.store.cell other ≡ v.store.cell other)
        × (v'.ordered_scenes ≡ v.ordered_scenes)
        × (v'.clients ≡ v.clients)
  calibrate_scenes-align m n ref body other json_a json_b as' bs v {rt} {s} {t} e r lt found at_ref
        at_body live_ref live_body ne not_ref not_body =
      (
        record v { store = aligned ref body rt s t v.store },
        calibrate_scenes-AreRead m n as' bs v e r
            ∙ rw (calibrate_pairs-lt C m n (kept_pairs C is_zero as' bs ([], [])) v lt, found)
                (rw (assign_frames-live m n ref body rt v at_ref at_body live_ref live_body ne)
                  refl),
        ground arith,
        ground arith,
        ground arith,
        refl,
        refl,
      )
