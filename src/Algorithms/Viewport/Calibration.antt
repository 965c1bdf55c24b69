-- ===== src/Algorithms/Viewport/Calibration.antt =====
-- `CalibrateSceneOrder` as a whole.
use Prim.Native.Nat.{◌*◌}
use minority_viewport.Base.{
  ℕ, ◌≤◌, ◌<◌, true, false, List, [], ◌∷◌, ◌++◌, map, length, ok, lt→ltb, ◌≡◌, refl, ap, ◌∙◌, arith,
  All, some,
}
use minority_viewport.Base.OrderedMap.{ltb_irrefl}
use minority_viewport.Algorithms.Viewport.{
  Viewport, sort, all_scenes, order_scenes, calibrate_scene_order,
}
use minority_viewport.Algorithms.Viewport.Order.{
  count, count-sort, IsSorted, sort-IsSorted, count-at_times, at_times-IsSorted, All-at_times,
}
use minority_viewport.Algorithms.Viewport.Passes.{
  Timed, Timed-Agree, Agree, Agree-trans, observed, count_calibrated-Timed, reset_orders-Timed,
  assign_times-Extends, link_ordered-Agree, seen_at,
}

observed-All : (f : ℕ → ℕ) (set : List ℕ) → All (λ a. 0 < f a) set → observed f set ≡ length set
observed-All f [] p = refl
observed-All f (a ∷ set) p = ground (arith, observed-All f set p.1)

observed-le : (f : ℕ → ℕ) (set : List ℕ) → observed f set ≤ length set
observed-le f [] = omega arith
observed-le f (a ∷ set) = ground (arith, observed-le f set)

observed-lt :
    (f : ℕ → ℕ) (a : ℕ) (xs ys : List ℕ)
    → f a ≡ 0
    → observed f (xs ++ a ∷ ys) < length (xs ++ a ∷ ys)
observed-lt f a [] ys e = ground (arith, observed-le f ys)
observed-lt f a (x ∷ xs) ys e = ground (arith, observed-lt f a xs ys e)

module _ {D M : Type 0} (f : ℕ → ℕ) (v : Viewport D M) where
  -- The scenes of all sensors of all clients.
  abbrev pub scenes : List ℕ
  scenes = all_scenes v.clients.raw_client_list []

  abbrev pub cleared : Viewport D M
  cleared = record v { ordered_scenes = []; scenes_set = scenes }

  -- The scenes are in the order of the times at which they first saw somebody, and a scene comes as
  -- often as there are scenes with its time.
  pub record IsOrdered (v' : Viewport D M) : Type 0 where
    pub by_time : IsSorted (map f v'.ordered_scenes)
    pub multiplicity :
        (a : ℕ) → count a v'.ordered_scenes ≡ count (f a) (map f scenes) * count a scenes
    pub set_is_empty : v'.scenes_set ≡ []
    pub times_stay : Agree v.store v'.store
    pub clients_stay : v'.clients ≡ v.clients

  pub order_scenes-IsOrdered :
      Timed f v.store scenes
      → (v' : Viewport D M) × (order_scenes cleared ≡ ok (true, v')) × IsOrdered v'
  unfolding order_scenes
  order_scenes-IsOrdered t =
      let (s₁, e₁, g₁) = reset_orders-Timed f scenes v.store [] t in
      let t₁ = Timed-Agree f v.store s₁ scenes g₁ t in
      let (p, e₂, o, g₂) =
        assign_times-Extends f (sort (map f scenes)) scenes
          (record { order = 1; store = s₁; ordered = [] }) t₁ in
      let (s₃, e₃, g₃) = link_ordered-Agree f p.ordered p.store (
        rw o (
          All-at_times f (λ a. seen_at p.store a ≡ some (f a)) (sort (map f scenes)) scenes
            (Timed-Agree f s₁ p.store scenes g₂ t₁))) in
      (
        record v { store = s₃; ordered_scenes = p.ordered; scenes_set = [] },
        rw (e₁, e₂, e₃) refl,
        record {
          by_time = rw o (at_times-IsSorted f _ scenes (sort-IsSorted (map f scenes)));
          multiplicity = λ a. rw o (
              count-at_times f a _ scenes
              ∙ ap (λ n. n * count a scenes) (count-sort (f a) (map f scenes)));
          set_is_empty = refl;
          times_stay = Agree-trans v.store s₁ s₃ g₁ (Agree-trans s₁ p.store s₃ g₂ g₃);
          clients_stay = refl;
        },
      )

  pub calibrate_scene_order-order_scenes :
      Timed f v.store scenes
      → All (λ a. 0 < f a) scenes
      → calibrate_scene_order v ≡ order_scenes cleared
  unfolding calibrate_scene_order
  calibrate_scene_order-order_scenes t p =
      rw
        (
          count_calibrated-Timed f v.store scenes t,
          observed-All f scenes p,
          ltb_irrefl (length scenes),
        )
        refl

  -- If all scenes of the clients' sensors are live and each has seen somebody, the calibration
  -- succeeds: the ordered scenes are sorted by the time of their first observation, each scene of the
  -- clients occurs among them once for every scene with its time (itself included) and no other occurs,
  -- the set of scenes is emptied, and the scenes' times and the clients stay as they were.
  pub calibrate_scene_order_observed :
      Timed f v.store scenes
      → All (λ a. 0 < f a) scenes
      → (v' : Viewport D M) × (calibrate_scene_order v ≡ ok (true, v')) × IsOrdered v'
  calibrate_scene_order_observed t p =
      let (v', e, w) = order_scenes-IsOrdered t in
      (v', calibrate_scene_order-order_scenes t p ∙ e, w)

  -- If a scene has not seen anybody yet, the calibration answers false and the order that was there is
  -- gone: no scene is ordered, and the set holds all scenes.
  pub calibrate_scene_order_unobserved :
      (a : ℕ) (xs ys : List ℕ)
      → Timed f v.store scenes
      → scenes ≡ xs ++ a ∷ ys
      → f a ≡ 0
      → calibrate_scene_order v ≡ ok (false, cleared)
  unfolding calibrate_scene_order
  calibrate_scene_order_unobserved a xs ys t e z =
      rw
        (
          count_calibrated-Timed f v.store scenes t,
          lt→ltb (observed f scenes) (length scenes) (rw e (observed-lt f a xs ys z)),
        )
        refl
