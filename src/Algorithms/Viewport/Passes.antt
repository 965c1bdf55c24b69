-- ===== src/Algorithms/Viewport/Passes.antt =====
-- The loops of `CalibrateSceneOrder` over a store in which all scenes of the set are live.
use mathlib.Core.Option
use minority_viewport.Base.{
  ℕ, suc, List, [], ◌∷◌, ◌++◌, map, append_assoc, append-nil, Option, some, Result, ok, ltb, ◌==◌,
  ==→eq, if◌then◌else◌, ◌≡◌, refl, ap, ◌∙◌, All, Bool-cases, Option-cases, inl, inr,
}
use minority_viewport.Data.Scene.{Scene, Link, to, null, set_ordering, set_left_right_scene}
use minority_viewport.Data.Sensor.{Store, modify, write}
use minority_viewport.Algorithms.Viewport.{
  Pass, count_calibrated, reset_orders, take_order, assign_scene, assign_scenes, assign_times,
  link_scenes, link_ordered,
}
use minority_viewport.Algorithms.Viewport.Order.{at_time, at_times, at_time-cons}

-- How many of the times are not zero.
abbrev pub observed : (ℕ → ℕ) → List ℕ → ℕ
observed f [] = 0
observed f (a ∷ set) = if ltb 0 (f a) then suc (observed f set) else observed f set

module _ {D M : Type 0} where
  -- The time of the first observation of the scene at an address, if one lives there.
  abbrev pub seen_at : Store D M → ℕ → Option ℕ
  seen_at store a = Option.map (λ (s : Scene D M). s.first_skeleton_observed_time_ms) (store.cell a)

  -- The same scenes live in both, observed at the same times.
  abbrev pub Agree : Store D M → Store D M → Type 0
  Agree store store' = (a : ℕ) → seen_at store' a ≡ seen_at store a

  abbrev pub KeepsTime : (Scene D M → Scene D M) → Type 0
  KeepsTime g =
      (s : Scene D M) → (g s).first_skeleton_observed_time_ms ≡ s.first_skeleton_observed_time_ms

  pub seen_live :
      (store : Store D M) (a t : ℕ)
      → seen_at store a ≡ some t
      → (s : Scene D M) × (store.cell a ≡ some s) × (s.first_skeleton_observed_time_ms ≡ t)
  seen_live store a t e = elim (Option-cases (store.cell a)) [
    | inl n ↦ cc (rw n at e)
    | inr (s, c) ↦
        (s, c, (let e' : some s.first_skeleton_observed_time_ms ≡ some t = rw c at e in cc))
  ]

  pub write-Agree :
      (a : ℕ) (g : Scene D M → Scene D M) (store : Store D M) (s : Scene D M)
      → KeepsTime g
      → store.cell a ≡ some s
      → Agree store (write a (some (g s)) store)
  write-Agree a g store s k c b = elim (Bool-cases (b == a)) [
    | inl same ↦ rw (same, ==→eq b a same, c) (ap some (k s))
    | inr other ↦ rw other refl
  ]

  modify-Agree :
      (a t : ℕ) (g : Scene D M → Scene D M) (store : Store D M)
      → KeepsTime g
      → seen_at store a ≡ some t
      → (store' : Store D M) × (modify a g store ≡ ok store') × Agree store store'
  modify-Agree a t g store k e =
      let (s, c, h) = seen_live store a t e in
      (write a (some (g s)) store, rw c refl, write-Agree a g store s k c)

  pub set_ordering-KeepsTime : (n : ℕ) → KeepsTime (set_ordering n)
  unfolding set_ordering
  set_ordering-KeepsTime n s = refl

  pub set_left_right_scene-KeepsTime : (l r : Link) → KeepsTime (set_left_right_scene l r)
  unfolding set_left_right_scene
  set_left_right_scene-KeepsTime l r s = refl

  -- All scenes of a list are live, and `f` gives their times.
  abbrev pub Timed : (ℕ → ℕ) → Store D M → List ℕ → Type 0
  Timed f store = All (λ a. seen_at store a ≡ some (f a))

  pub Timed-Agree :
      (f : ℕ → ℕ) (store store' : Store D M) (set : List ℕ)
      → Agree store store'
      → Timed f store set
      → Timed f store' set
  Timed-Agree f store store' [] g t = tt
  Timed-Agree f store store' (a ∷ set) g t = (g a ∙ t.0, Timed-Agree f store store' set g t.1)

  pub Agree-trans : (s t u : Store D M) → Agree s t → Agree t u → Agree s u
  Agree-trans s t u g h a = h a ∙ g a

module _ {D M : Type 0} (f : ℕ → ℕ) where
  pub count_calibrated-Timed :
      (store : Store D M) (set : List ℕ)
      → Timed f store set
      → count_calibrated store set ≡ ok (observed f set)
  unfolding count_calibrated
  count_calibrated-Timed store [] t = refl
  count_calibrated-Timed store (a ∷ set) t =
      let (s, c, h) = seen_live store a (f a) t.0 in
      rw (c, count_calibrated-Timed store set t.1, h) refl

  pub reset_orders-Timed :
      (set : List ℕ) (store : Store D M) (times : List ℕ)
      → Timed f store set
      → (store' : Store D M) × (reset_orders set store times ≡ ok (store', times ++ map f set))
        × Agree store store'
  unfolding reset_orders
  reset_orders-Timed [] store times t = (store, rw append-nil refl, λ a. refl)
  reset_orders-Timed (a ∷ set) store times t =
      let (store₁, e, g) =
        modify-Agree a (f a) (set_ordering 0) store (set_ordering-KeepsTime 0) t.0 in
      let (s, c, h) = seen_live store₁ a (f a) (g a ∙ t.0) in
      let (store₂, e₂, g₂) =
        reset_orders-Timed set store₁ (times ++ f a ∷ []) (Timed-Agree f store store₁ set g t.1) in
      (
        store₂,
        rw (e, c, h, e₂) (ap (λ l. ok (store₂, l)) (append_assoc times (f a ∷ []) (map f set))),
        Agree-trans store store₁ store₂ g g₂,
      )

  -- What a pass does: it ends, the new scenes come behind those that were there, and the store agrees.
  abbrev pub Extends : Pass D M → Result (Pass D M) → List ℕ → Type 0
  Extends p r added =
      (p' : Pass D M) × (r ≡ ok p') × (p'.ordered ≡ p.ordered ++ added) × Agree p.store p'.store

  assign_scene-Extends :
      (t a : ℕ) (p : Pass D M)
      → seen_at p.store a ≡ some (f a)
      → Extends p (assign_scene t a p) (if f a == t then a ∷ [] else [])
  assign_scene-Extends t a p e =
      let (s, c, h) = seen_live p.store a (f a) e in
      let store' : Store D M = write a (some (set_ordering p.order s)) p.store in
      elim (Bool-cases (f a == t)) [
        | inl hit ↦ (
          take_order a store' p,
          rw (c, h, hit) refl,
          rw hit refl,
          write-Agree a (set_ordering p.order) p.store s (set_ordering-KeepsTime p.order) c,
        )
        | inr miss ↦ (p, rw (c, h, miss) refl, rw (miss, append-nil) refl, λ b. refl)
      ]

  assign_scenes-Extends :
      (t : ℕ) (set : List ℕ) (p : Pass D M)
      → Timed f p.store set
      → Extends p (assign_scenes t set p) (at_time f t set)
  unfolding assign_scenes
  assign_scenes-Extends t [] p w = (p, refl, rw append-nil refl, λ a. refl)
  assign_scenes-Extends t (a ∷ set) p w =
      let (q, e, o, g) = assign_scene-Extends t a p w.0 in
      let (r, e', o', g') =
        assign_scenes-Extends t set q (Timed-Agree f p.store q.store set g w.1) in
      (
        r,
        rw e e',
        o' ∙ ap (λ l. l ++ at_time f t set) o ∙ at_time-cons f t a p.ordered set,
        Agree-trans p.store q.store r.store g g',
      )

  pub assign_times-Extends :
      (ts set : List ℕ) (p : Pass D M)
      → Timed f p.store set
      → Extends p (assign_times ts set p) (at_times f ts set)
  unfolding assign_times
  assign_times-Extends [] set p w = (p, refl, rw append-nil refl, λ a. refl)
  assign_times-Extends (t ∷ ts) set p w =
      let (q, e, o, g) = assign_scenes-Extends t set p w in
      let (r, e', o', g') = assign_times-Extends ts set q (Timed-Agree f p.store q.store set g w) in
      (
        r,
        rw e e',
        rw (o', o) (append_assoc p.ordered _ _),
        Agree-trans p.store q.store r.store g g',
      )

  link_scenes-Agree :
      (prev : Link) (xs : List ℕ) (store : Store D M)
      → Timed f store xs
      → (store' : Store D M) × (link_scenes prev xs store ≡ ok store') × Agree store store'
  unfolding link_scenes
  link_scenes-Agree prev [] store w = (store, refl, λ a. refl)
  link_scenes-Agree prev (a ∷ []) store w =
      modify-Agree a (f a) (set_left_right_scene prev null) store
        (set_left_right_scene-KeepsTime _ _) w.0
  link_scenes-Agree prev (a ∷ b ∷ bs) store w =
      let (s₁, e, g) =
        modify-Agree a (f a) (set_left_right_scene prev (to b)) store
          (set_left_right_scene-KeepsTime _ _) w.0 in
      let (s₂, e₂, g₂) =
        link_scenes-Agree (to a) (b ∷ bs) s₁ (Timed-Agree f store s₁ (b ∷ bs) g w.1) in
      (s₂, rw e e₂, Agree-trans store s₁ s₂ g g₂)

  pub link_ordered-Agree :
      (xs : List ℕ) (store : Store D M)
      → Timed f store xs
      → (store' : Store D M) × (link_ordered xs store ≡ ok store') × Agree store store'
  link_ordered-Agree [] store w = (store, refl, λ a. refl)
  link_ordered-Agree (a ∷ []) store w = (store, refl, λ a. refl)
  link_ordered-Agree (a ∷ b ∷ bs) store w = link_scenes-Agree null (a ∷ b ∷ bs) store w
