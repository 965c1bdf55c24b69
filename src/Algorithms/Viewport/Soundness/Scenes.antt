-- ===== src/Algorithms/Viewport/Soundness/Scenes.antt =====
-- The order of the scenes.
use minority_viewport.Base.{
  ℕ, Bool, List, [], ◌∷◌, ◌++◌, length, ok, ok-injective, >>=-eq-ok, ltb, ◌≡◌, subst, ◌==◌,
  Bool-cases, inl, inr,
}
use minority_viewport.Data.Scene.{Scene, Link, to, null, set_ordering, set_left_right_scene}
use minority_viewport.Data.Scene.Capacity.{IsValid}
use minority_viewport.Data.Sensor.{Store, fetch, modify}
use minority_viewport.Algorithms.Viewport.{
  Viewport, Pass, refresh_scenes_set, count_calibrated, reset_orders, assign_scene, assign_scenes,
  sort, assign_times, link_scenes, link_ordered, order_scenes, calibrate_scene_order,
}
use minority_viewport.Algorithms.Viewport.Soundness.{
  IsSound, IsKept, IsKept-refl, stored-IsSound, modify-IsKept,
}

module _ {D M : Type 0} where
  set_ordering-IsValid : (order : ℕ) (s : Scene D M) → IsValid s → IsValid (set_ordering order s)
  unfolding set_ordering
  set_ordering-IsValid order s v = record { sorted = v.sorted; bounded = v.bounded }

  set_left_right-IsValid :
      (l r : Link) (s : Scene D M) → IsValid s → IsValid (set_left_right_scene l r s)
  unfolding set_left_right_scene
  set_left_right-IsValid l r s v = record { sorted = v.sorted; bounded = v.bounded }

module _ {D M : Type 0} {start : Store D M} where
  reset_orders-IsKept :
      (set : List ℕ) (store : Store D M) (times : List ℕ) {q : Store D M × List ℕ}
      → IsKept start store
      → reset_orders set store times ≡ ok q
      → IsKept start q.0
  unfolding reset_orders
  reset_orders-IsKept [] store times all e =
      subst (λ (q : Store D M × List ℕ). IsKept start q.0) (ok-injective e) all
  reset_orders-IsKept (a ∷ set) store times all e =
      let (store', g, f) = >>=-eq-ok _ (modify a (set_ordering 0) store) e in
      let (s, i, j) = >>=-eq-ok _ (fetch a store') f in
      reset_orders-IsKept set store' (times ++ s.first_skeleton_observed_time_ms ∷ [])
        (modify-IsKept a (set_ordering 0) store (set_ordering-IsValid 0) all g) j

  assign_scene-IsKept :
      (time a : ℕ) (p : Pass D M) {q : Pass D M}
      → IsKept start p.store
      → assign_scene time a p ≡ ok q
      → IsKept start q.store
  assign_scene-IsKept time a p all e =
      let (s, i, j) = >>=-eq-ok _ (fetch a p.store) e in
      elim (Bool-cases (s.first_skeleton_observed_time_ms == time)) [
        | inl same ↦
            let (store, g, f) =
              >>=-eq-ok _ (modify a (set_ordering p.order) p.store) (rw same at j) in
            subst (λ (q : Pass D M). IsKept start q.store) (ok-injective f)
              (modify-IsKept a (set_ordering p.order) p.store (set_ordering-IsValid p.order) all g)
        | inr other ↦
            subst (λ (q : Pass D M). IsKept start q.store) (ok-injective (rw other at j)) all
      ]

  assign_scenes-IsKept :
      (time : ℕ) (set : List ℕ) (p : Pass D M) {q : Pass D M}
      → IsKept start p.store
      → assign_scenes time set p ≡ ok q
      → IsKept start q.store
  unfolding assign_scenes
  assign_scenes-IsKept time [] p all e =
      subst (λ (q : Pass D M). IsKept start q.store) (ok-injective e) all
  assign_scenes-IsKept time (a ∷ set) p all e =
      let (p', g, f) = >>=-eq-ok _ (assign_scene time a p) e in
      assign_scenes-IsKept time set p' (assign_scene-IsKept time a p all g) f

  assign_times-IsKept :
      (times set : List ℕ) (p : Pass D M) {q : Pass D M}
      → IsKept start p.store
      → assign_times times set p ≡ ok q
      → IsKept start q.store
  unfolding assign_times
  assign_times-IsKept [] set p all e =
      subst (λ (q : Pass D M). IsKept start q.store) (ok-injective e) all
  assign_times-IsKept (time ∷ times) set p all e =
      let (p', g, f) = >>=-eq-ok _ (assign_scenes time set p) e in
      assign_times-IsKept times set p' (assign_scenes-IsKept time set p all g) f

  link_scenes-IsKept :
      (prev : Link) (as' : List ℕ) (store : Store D M) {store' : Store D M}
      → IsKept start store
      → link_scenes prev as' store ≡ ok store'
      → IsKept start store'
  unfolding link_scenes
  link_scenes-IsKept prev [] store all e = subst (IsKept start) (ok-injective e) all
  link_scenes-IsKept prev (a ∷ []) store all e =
      modify-IsKept a (set_left_right_scene prev null) store (set_left_right-IsValid prev null) all
        e
  link_scenes-IsKept prev (a ∷ b ∷ bs) store all e =
      let (store', g, f) = >>=-eq-ok _ (modify a (set_left_right_scene prev (to b)) store) e in
      link_scenes-IsKept (to a) (b ∷ bs) store'
        (modify-IsKept a (set_left_right_scene prev (to b)) store
          (set_left_right-IsValid prev (to b)) all g)
        f

  link_ordered-IsKept :
      (as' : List ℕ) (store : Store D M) {store' : Store D M}
      → IsKept start store
      → link_ordered as' store ≡ ok store'
      → IsKept start store'
  link_ordered-IsKept [] store all e = subst (IsKept start) (ok-injective e) all
  link_ordered-IsKept (a ∷ []) store all e = subst (IsKept start) (ok-injective e) all
  link_ordered-IsKept (a ∷ b ∷ bs) store all e = link_scenes-IsKept null (a ∷ b ∷ bs) store all e

module _ {D M : Type 0} where
  order_scenes-IsSound :
      (v : Viewport D M) {r : Bool × Viewport D M} → IsSound v → order_scenes v ≡ ok r → IsSound r.1
  unfolding order_scenes
  order_scenes-IsSound v h e =
      let (q, g, f) = >>=-eq-ok _ (reset_orders v.scenes_set v.store []) e in
      let begun : Pass D M = record { order = 1; store = q.0; ordered = [] } in
      let (p, i, j) = >>=-eq-ok _ (assign_times (sort q.1) v.scenes_set begun) f in
      let (store, k, l) = >>=-eq-ok _ (link_ordered p.ordered p.store) j in
      let reset = reset_orders-IsKept v.scenes_set v.store [] (IsKept-refl v h) g in
      let assigned = assign_times-IsKept (sort q.1) v.scenes_set begun reset i in
      subst (λ (r : Bool × Viewport D M). IsSound r.1) (ok-injective l)
        (stored-IsSound v store p.ordered [] h (link_ordered-IsKept p.ordered p.store assigned k))

  pub calibrate_scene_order-IsSound :
      (v : Viewport D M) {r : Bool × Viewport D M}
      → IsSound v
      → calibrate_scene_order v ≡ ok r
      → IsSound r.1
  unfolding calibrate_scene_order refresh_scenes_set
  calibrate_scene_order-IsSound v h e =
      let v1 : Viewport D M = record (refresh_scenes_set v) { ordered_scenes = [] } in
      let sound : IsSound v1 = stored-IsSound v v.store [] v1.scenes_set h (IsKept-refl v h) in
      let (n, g, f) = >>=-eq-ok _ (count_calibrated v1.store v1.scenes_set) e in
      elim (Bool-cases (ltb n (length v1.scenes_set))) [
        | inl fewer ↦
            subst (λ (r : Bool × Viewport D M). IsSound r.1) (ok-injective (rw fewer at f)) sound
        | inr full ↦ order_scenes-IsSound v1 sound (rw full at f)
      ]
