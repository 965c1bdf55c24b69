-- ===== src/Algorithms/Viewport/Chain/Linked.antt =====
-- The order and the neighbours of the scenes after `CalibrateSceneOrder`.
use Prim.Native.Nat.{◌*◌}
use minority_viewport.Base.{
  ℕ, zero, suc, ◌≤◌, ◌<◌, Bool, true, false, List, [], ◌∷◌, map, length, some, ok, ok-injective,
  ◌==◌, ◌≡◌, refl, sym, ap, subst, ◌∙◌, arith, All,
}
use minority_viewport.Base.Distinct.{Fresh, Distinct}
use minority_viewport.Data.Scene.{null}
use minority_viewport.Data.Sensor.{Store}
use minority_viewport.Algorithms.Viewport.{
  Viewport, Pass, sort, order_scenes, calibrate_scene_order, link_ordered,
}
use minority_viewport.Algorithms.Viewport.Order.{
  count, count-sort, count-at_times, at_times, All-at_times,
}
use minority_viewport.Algorithms.Viewport.Passes.{Timed, Timed-Agree, reset_orders-Timed, seen_at}
use minority_viewport.Algorithms.Viewport.Chain.{
  number_all, number_all-Agree, ordered-number_all, linked, assign_times-number_all,
  link_scenes-linked,
}
use minority_viewport.Algorithms.Viewport.Chain.Places.{
  IsChain, number_all-IsNumbered, linked-IsChain,
}
use minority_viewport.Algorithms.Viewport.Calibration.{
  scenes, cleared, IsOrdered, calibrate_scene_order-order_scenes, order_scenes-IsOrdered,
}

count-Fresh : (a : ℕ) (xs : List ℕ) → Fresh a xs → count a xs ≡ 0
count-Fresh a [] h = refl
count-Fresh a (x ∷ xs) h = ground (arith, count-Fresh a xs h.1)

count-Distinct : (a : ℕ) (xs : List ℕ) → Distinct xs → count a xs ≤ 1
count-Distinct a [] d = omega arith
count-Distinct a (x ∷ xs) d = ground (arith, count-Distinct a xs d.1, count-Fresh a xs)

Fresh-count : (a : ℕ) (xs : List ℕ) → count a xs ≡ 0 → Fresh a xs
Fresh-count a [] e = tt
Fresh-count a (x ∷ xs) e = ground (arith, Fresh-count a xs)

-- What is counted at most once is distinct.
Distinct-count : (xs : List ℕ) → ((a : ℕ) → count a xs ≤ 1) → Distinct xs
Distinct-count [] h = tt
Distinct-count (x ∷ xs) h =
    (Fresh-count x xs (ground (arith, h x)), Distinct-count xs (λ a. ground (arith, h a)))

Fresh-map : (f : ℕ → ℕ) (a : ℕ) (xs : List ℕ) → Fresh (f a) (map f xs) → Fresh a xs
Fresh-map f a [] h = tt
Fresh-map f a (x ∷ xs) h = (ground (arith, ap f, h.0), Fresh-map f a xs h.1)

Distinct-map : (f : ℕ → ℕ) (xs : List ℕ) → Distinct (map f xs) → Distinct xs
Distinct-map f [] d = tt
Distinct-map f (x ∷ xs) d = (Fresh-map f x xs d.0, Distinct-map f xs d.1)

times_le : (m n : ℕ) → m ≤ 1 → n ≤ 1 → m * n ≤ 1
times_le zero n h k = omega arith
times_le (suc zero) n h k = omega arith
times_le (suc (suc m)) n h k = omega arith

times_pos : (m n : ℕ) → 1 ≤ m → 1 ≤ n → 1 ≤ m * n
times_pos (suc m) (suc n) h k = omega arith
times_pos zero n h k = omega arith
times_pos (suc m) zero h k = omega arith

-- Two numbers that differ are in no list of one.
two_elements :
    (a b : ℕ) (xs : List ℕ) → (b == a) ≡ false → 1 ≤ count a xs → 1 ≤ count b xs → 2 ≤ length xs
two_elements a b [] e h k = omega arith
two_elements a b (x ∷ []) e h k = ground arith
two_elements a b (x ∷ y ∷ xs) e h k = omega arith

link_ordered-linked :
    {D M : Type 0} (f : ℕ → ℕ) (xs : List ℕ) (store : Store D M)
    → 2 ≤ length xs
    → Timed f store xs
    → link_ordered xs store ≡ ok (linked null xs store)
link_ordered-linked f [] store h w = refl
link_ordered-linked f (a ∷ []) store h w = absurd (omega arith)
link_ordered-linked f (a ∷ b ∷ bs) store h w = link_scenes-linked f null (a ∷ b ∷ bs) store w

module _ (f : ℕ → ℕ) (set : List ℕ) (d : Distinct (map f set)) where
  abbrev by_time : List ℕ
  by_time = at_times f (sort (map f set)) set

  count-by_time : (a : ℕ) → count a by_time ≡ count (f a) (map f set) * count a set
  count-by_time a =
      count-at_times f a _ set ∙ ap (λ n. n * count a set) (count-sort (f a) (map f set))

  by_time-Distinct : Distinct by_time
  by_time-Distinct = Distinct-count by_time (λ a.
      rw (count-by_time a)
        (times_le _ _ (count-Distinct (f a) _ d) (count-Distinct a set (Distinct-map f set d))))

  count_pos : (a : ℕ) → 1 ≤ count a set → 1 ≤ count (f a) (map f set) → 1 ≤ count a by_time
  count_pos a h k = rw (count-by_time a) (times_pos _ _ k h)

module _ (f : ℕ → ℕ) where
  count-head : (a : ℕ) (xs : List ℕ) → 1 ≤ count a (a ∷ xs)
  count-head a xs = ground arith

  count-second : (a b : ℕ) (xs : List ℕ) → 1 ≤ count b (a ∷ b ∷ xs)
  count-second a b xs = ground arith

  -- Of two scenes or more with different times all are ordered.
  length-by_time :
      (set : List ℕ) → (d : Distinct (map f set)) → 2 ≤ length set → 2 ≤ length (by_time f set d)
  length-by_time [] d h = omega arith
  length-by_time (a ∷ []) d h = omega arith
  length-by_time (a ∷ b ∷ bs) d h =
      let set = a ∷ b ∷ bs in
      two_elements a b (by_time f set d) ((Distinct-map f set d).0.0)
        (count_pos f set d a (count-head a (b ∷ bs)) (count-head (f a) (f b ∷ map f bs)))
        (count_pos f set d b (count-second a b bs) (count-second (f a) (f b) (map f bs)))

module _ {D M : Type 0} (f : ℕ → ℕ) (v : Viewport D M) where
  order_scenes-IsChain :
      Timed f v.store (scenes f v)
      → Distinct (map f (scenes f v))
      → 2 ≤ length (scenes f v)
      → (v' : Viewport D M) × (order_scenes (cleared f v) ≡ ok (true, v'))
        × Distinct v'.ordered_scenes
        × IsChain 1 null v'.ordered_scenes v'.store
  unfolding order_scenes
  order_scenes-IsChain t d l =
      let set = scenes f v in
      let (s₁, e₁, g₁) = reset_orders-Timed f set v.store [] t in
      let t₁ = Timed-Agree f v.store s₁ set g₁ t in
      let xs = by_time f set d in
      let q : Pass D M = record { order = 1; store = s₁; ordered = [] } in
      let t₂ : Timed f s₁ xs =
        All-at_times f (λ a. seen_at s₁ a ≡ some (f a)) (sort (map f set)) set t₁ in
      let n = number_all-IsNumbered f xs q t₂ (by_time-Distinct f set d) in
      let p = number_all xs q in
      let w = Timed-Agree f s₁ p.store xs (number_all-Agree f xs q t₂) t₂ in
      (
        record v {
          store = linked null p.ordered p.store;
          ordered_scenes = p.ordered;
          scenes_set = [];
        },
        rw
            (
              e₁,
              assign_times-number_all f (sort (map f set)) set q t₁,
              ordered-number_all xs q,
              link_ordered-linked f xs p.store (length-by_time f set d l) w,
            )
            refl,
        rw (ordered-number_all xs q) (by_time-Distinct f set d),
        rw (ordered-number_all xs q)
            (linked-IsChain 1 null xs p.store n (by_time-Distinct f set d)),
      )

  -- If all scenes of the clients' sensors are live, each has seen somebody, no two at the same time, and
  -- there are at least two, the calibration succeeds: the scenes are ordered by their times, each once,
  -- and every scene has its position, counted from one, as its order, and its neighbours in the order as
  -- its left and right scenes, the first no left and the last no right one.
  pub calibrate_scene_order_linked :
      Timed f v.store (scenes f v)
      → All (λ a. 0 < f a) (scenes f v)
      → Distinct (map f (scenes f v))
      → 2 ≤ length (scenes f v)
      → (v' : Viewport D M) × (calibrate_scene_order v ≡ ok (true, v'))
        × IsOrdered f v v'
        × Distinct v'.ordered_scenes
        × IsChain 1 null v'.ordered_scenes v'.store
  calibrate_scene_order_linked t p d l =
      let (v', e, o) = order_scenes-IsOrdered f v t in
      let (u, e', k, c) = order_scenes-IsChain t d l in
      let same : u ≡ v' = ap (λ (r : Bool × Viewport D M). r.1) (ok-injective (sym e' ∙ e)) in
      (
        v',
        calibrate_scene_order-order_scenes f v t p ∙ e,
        o,
        subst (λ (w : Viewport D M). Distinct w.ordered_scenes) same k,
        subst (λ (w : Viewport D M). IsChain 1 null w.ordered_scenes w.store) same c,
      )
