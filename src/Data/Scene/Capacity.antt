-- ===== src/Data/Scene/Capacity.antt =====
-- The map of skeletons of a scene, under any sequence of calls.
use minority_viewport.Base.{
  ◌∙◌, sym, refl, ap, Bool, ℕ, ◌≤◌, Bool, true, false, List, [], ◌∷◌, Bytes, length, none, some,
  ltb, ◌==◌, if◌then◌else◌, ◌≡◌, arith, Bool-cases, inl, inr, Option-cases, eq→==, ==→eq,
}
use minority_viewport.Base.OrderedMap.{
  find, erase, number_order, IsSorted, insert-IsSorted, erase-IsSorted, find-erase_self,
  find-insert_self, find-insert_ne, find-erase_ne, length-erase, length-erase_found, erase_absent,
  length-insert,
}
use minority_viewport.Data.Skeleton.{Skeleton}
use minority_viewport.Data.Scene.{
  Scene, Link, update, remove, manual_clear, set_ordering, set_calibration, set_r_and_t,
  set_dimensions, set_left_right_scene, set_calibration_skeleton, new_scene, insert_below,
}

module _ (D M : Type 0) where
  -- The calls that change a scene.
  pub data Call : Type 0 where
    updates : ℕ → ℕ → Skeleton D → Call
    removes : ℕ → Call
    clears : Call
    orders : ℕ → Call
    calibrates : Bool → Call
    places : M → M → Call
    resizes : ℕ → ℕ → ℕ → Call
    links : Link → Link → Call
    calibrates_by : Link → Call

module _ {D M : Type 0} where
  pub record IsValid (s : Scene D M) : Type 0 where
    pub sorted : IsSorted s.skeletons
    pub bounded : length s.skeletons ≤ 3

  unfoldable pub apply : Call D M → Scene D M → Scene D M
  apply (updates now id person) s = update now id person s
  apply (removes id) s = remove id s
  apply clears s = manual_clear s
  apply (orders n) s = set_ordering n s
  apply (calibrates b) s = set_calibration b s
  apply (places r t) s = set_r_and_t r t s
  apply (resizes x y z) s = set_dimensions x y z s
  apply (links l r) s = set_left_right_scene l r s
  apply (calibrates_by skeleton) s = set_calibration_skeleton skeleton s

  unfoldable pub run : List (Call D M) → Scene D M → Scene D M
  run [] s = s
  run (c ∷ cs) s = run cs (apply c s)

module _ {D : Type 0} where
  insert_below-IsSorted :
      (n id : ℕ) (p : Skeleton D) (m : List (ℕ × Skeleton D))
      → IsSorted m
      → IsSorted (insert_below n id p m)
  insert_below-IsSorted n id p m s = ground (arith, insert-IsSorted id p m s)

  length-insert_below :
      (n id : ℕ) (p : Skeleton D) (m : List (ℕ × Skeleton D))
      → length m ≤ n
      → length (insert_below n id p m) ≤ n
  length-insert_below n id p m h = ground (arith, length-insert id p m)

  find-insert_below_ne :
      (n id j : ℕ) (p : Skeleton D) (m : List (ℕ × Skeleton D))
      → IsSorted m
      → (id == j) ≡ false
      → find j (insert_below n id p (erase id m)) ≡ find j m
  find-insert_below_ne n id j p m s e = ground (
    arith,
    find-insert_ne id j p (erase id m),
    find-erase_ne id j m s (λ h. cc (e, eq→== id j h)),
  )

  find-insert_below_self :
      (id : ℕ) (p : Skeleton D) (m : List (ℕ × Skeleton D))
      → IsSorted m
      → length m ≤ 3
      → find id (insert_below 3 id p (erase id m))
        ≡ (if (elim (find id m) [ some q ↦ true | none ↦ ltb (length m) 3 ]) then some p else none)
  find-insert_below_self id p m s h = elim (Option-cases (find id m)) [
    | inl e ↦ rw (e, erase_absent id m e) (ground (arith, find-insert_self id p m e))
    | inr (q, e) ↦ rw e (
        ground (
          arith,
          find-insert_self id p (erase id m) (find-erase_self id m s),
          length-erase_found id q m e,
        ))
  ]

module _ {D M : Type 0} where
  pub update-IsValid :
      (now id : ℕ) (p : Skeleton D) (s : Scene D M) → IsValid s → IsValid (update now id p s)
  unfolding update
  update-IsValid now id p s v = record {
    sorted = insert_below-IsSorted 3 id p _ (erase-IsSorted id s.skeletons v.sorted);
    bounded =
        length-insert_below 3 id p (erase id s.skeletons)
          (omega (arith, length-erase id s.skeletons, v.bounded));
  }

  pub remove-IsValid : (id : ℕ) (s : Scene D M) → IsValid s → IsValid (remove id s)
  unfolding remove
  remove-IsValid id s v = record {
    sorted = erase-IsSorted id s.skeletons v.sorted;
    bounded = omega (arith, length-erase id s.skeletons, v.bounded);
  }

  pub manual_clear-IsValid : (s : Scene D M) → IsValid (manual_clear s)
  unfolding manual_clear
  manual_clear-IsValid s = record { sorted = tt; bounded = omega arith }

  apply-IsValid : (c : Call D M) (s : Scene D M) → IsValid s → IsValid (apply c s)
  unfolding apply set_ordering set_calibration set_r_and_t set_dimensions set_left_right_scene
      set_calibration_skeleton
  apply-IsValid (updates now id p) s v = update-IsValid now id p s v
  apply-IsValid (removes id) s v = remove-IsValid id s v
  apply-IsValid clears s v = manual_clear-IsValid s
  apply-IsValid _ s v = record { sorted = v.sorted; bounded = v.bounded }

  run-IsValid : (cs : List (Call D M)) (s : Scene D M) → IsValid s → IsValid (run cs s)
  unfolding run
  run-IsValid [] s v = v
  run-IsValid (c ∷ cs) s v = run-IsValid cs (apply c s) (apply-IsValid c s v)

  -- After any sequence of calls on a new scene its skeletons are at most three, each under its own
  -- identifier, in the order of the identifiers.
  pub run-new_scene-IsValid :
      (empty : M) (sensor_id : Bytes) (cs : List (Call D M))
      → IsValid (run cs (new_scene empty sensor_id))
  unfolding new_scene
  run-new_scene-IsValid empty sensor_id cs =
      run-IsValid cs _ (record { sorted = tt; bounded = omega arith })

  -- Is there room for this identifier: was it there before, or are there fewer than three people?
  unfoldable pub has_room : ℕ → Scene D M → Bool
  has_room id s = elim (find id s.skeletons) [ some p ↦ true | none ↦ ltb (length s.skeletons) 3 ]

  -- An update of a valid scene leaves all other identifiers alone. Its own identifier has the new
  -- person if it was there before or there were fewer than three people; a fourth is not let in.
  pub find-update :
      (now id j : ℕ) (p : Skeleton D) (s : Scene D M)
      → IsValid s
      → find j (update now id p s).skeletons
        ≡ (if id == j then (if has_room id s then some p else none) else find j s.skeletons)
  unfolding update has_room
  find-update now id j p s v = elim (Bool-cases (id == j)) [
    | inl same ↦
        rw (same, ← ==→eq id j same) (find-insert_below_self id p s.skeletons v.sorted v.bounded)
    | inr other ↦ rw other (find-insert_below_ne 3 id j p s.skeletons v.sorted other)
  ]

  has_room-find :
      (id : ℕ) (s : Scene D M) {p : Skeleton D}
      → find id s.skeletons ≡ some p
      → has_room id s ≡ true
  unfolding has_room
  has_room-find id s e = rw (e, has_room) refl

  update_full :
      (now id : ℕ) (p : Skeleton D) (s : Scene D M)
      → has_room id s ≡ false
      → (update now id p s).skeletons ≡ s.skeletons
  unfolding update has_room
  update_full now id p s h = elim (Option-cases (find id s.skeletons)) [
    | inl e ↦ rw (erase_absent id s.skeletons e) (ground (arith, e))
    | inr (q, e) ↦ cc (rw (e, has_room) at h)
  ]

  -- There is room for an identifier after an update under it exactly if there was before.
  pub has_room-update :
      (now id : ℕ) (p : Skeleton D) (s : Scene D M)
      → IsValid s
      → has_room id (update now id p s) ≡ has_room id s
  unfolding has_room
  has_room-update now id p s v = elim (Bool-cases (has_room id s)) [
    | inl room ↦
        has_room-find id (update now id p s) {p = p}
          (find-update now id id p s v ∙ rw (eq→== id id refl, room) refl)
        ∙ sym room
    | inr full ↦
        ap
          (λ (m : List (ℕ × Skeleton D)). elim (find id m) as (λ _. Bool) [
            | some q ↦ true
            | none ↦ ltb (length m) 3
          ])
          (update_full now id p s full)
  ]
