-- ===== src/Algorithms/Viewport/Chain.antt =====
-- The loops of `CalibrateSceneOrder` as plain functions: the nested loops that give the orders are one
-- loop over the scenes in the order of their times, and no pointer is missed.
pub mod Places
pub mod Linked
use mathlib.Core.Option
use minority_viewport.Base.{
  ℕ, ◌+◌, List, [], ◌∷◌, ◌++◌, append_assoc, append-nil, Option, some, ok, ◌==◌, ==→eq,
  if◌then◌else◌, ◌≡◌, refl, sym, ap, ◌∙◌, Bool-cases, Option-cases, inl, inr, true, false,
}
use minority_viewport.Data.Scene.{Scene, Link, to, null, set_ordering, set_left_right_scene}
use minority_viewport.Data.Sensor.{Store, write, modify}
use minority_viewport.Algorithms.Viewport.{
  Pass, take_order, assign_scene, assign_scenes, assign_times, link_scenes,
}
use minority_viewport.Algorithms.Viewport.Order.{at_time, at_times}
use minority_viewport.Algorithms.Viewport.Passes.{
  Agree, KeepsTime, Timed, Timed-Agree, seen_at, seen_live, write-Agree, set_ordering-KeepsTime,
  set_left_right_scene-KeepsTime,
}

-- The link to the first scene of a list.
abbrev pub first_link : List ℕ → Link
first_link [] = null
first_link (a ∷ as') = to a

module _ {D M : Type 0} where
  -- A change of the scene at an address, if one lives there.
  abbrev pub alter : ℕ → (Scene D M → Scene D M) → Store D M → Store D M
  alter a g store = write a (Option.map g (store.cell a)) store

  -- The scene takes the next order.
  abbrev pub number : ℕ → Pass D M → Pass D M
  number a p = take_order a (alter a (set_ordering p.order) p.store) p

  abbrev pub number_all : List ℕ → Pass D M → Pass D M
  number_all [] p = p
  number_all (a ∷ as') p = number_all as' (number a p)

  abbrev pub linked : Link → List ℕ → Store D M → Store D M
  linked prev [] store = store
  linked prev (a ∷ as') store =
      linked (to a) as' (alter a (set_left_right_scene prev (first_link as')) store)

  modify-alter :
      (a t : ℕ) (g : Scene D M → Scene D M) (store : Store D M)
      → seen_at store a ≡ some t
      → modify a g store ≡ ok (alter a g store)
  modify-alter a t g store e = let (s, c, h) = seen_live store a t e in rw c refl

  pub alter-Agree :
      (a t : ℕ) (g : Scene D M → Scene D M) (store : Store D M)
      → KeepsTime g
      → seen_at store a ≡ some t
      → Agree store (alter a g store)
  alter-Agree a t g store k e =
      let (s, c, h) = seen_live store a t e in rw c (write-Agree a g store s k c)

  number_all-append :
      (xs ys : List ℕ) (p : Pass D M) → number_all (xs ++ ys) p ≡ number_all ys (number_all xs p)
  number_all-append [] ys p = refl
  number_all-append (x ∷ xs) ys p = number_all-append xs ys (number x p)

  pub ordered-number_all :
      (xs : List ℕ) (p : Pass D M) → (number_all xs p).ordered ≡ p.ordered ++ xs
  ordered-number_all [] p = sym (append-nil p.ordered)
  ordered-number_all (x ∷ xs) p =
      ordered-number_all xs (number x p) ∙ append_assoc p.ordered (x ∷ []) xs

module _ {D M : Type 0} (f : ℕ → ℕ) where
  pub number-Agree :
      (a : ℕ) (p : Pass D M) → seen_at p.store a ≡ some (f a) → Agree p.store (number a p).store
  number-Agree a p =
      alter-Agree a (f a) (set_ordering p.order) p.store (set_ordering-KeepsTime p.order)

  pub number_all-Agree :
      (xs : List ℕ) (p : Pass D M) → Timed f p.store xs → Agree p.store (number_all xs p).store
  number_all-Agree [] p w a = refl
  number_all-Agree (x ∷ xs) p w a =
      let g = number-Agree x p w.0 in
      number_all-Agree xs (number x p) (Timed-Agree f p.store (number x p).store xs g w.1) a ∙ g a

  assign_scene-hit :
      (t a : ℕ) (p : Pass D M)
      → seen_at p.store a ≡ some (f a)
      → (f a == t) ≡ true
      → assign_scene t a p ≡ ok (number a p)
  assign_scene-hit t a p w hit = let (s, c, h) = seen_live p.store a (f a) w in rw (c, h, hit) refl

  assign_scene-miss :
      (t a : ℕ) (p : Pass D M)
      → seen_at p.store a ≡ some (f a)
      → (f a == t) ≡ false
      → assign_scene t a p ≡ ok p
  assign_scene-miss t a p w miss =
      let (s, c, h) = seen_live p.store a (f a) w in rw (c, h, miss) refl

  -- The inner loop numbers the scenes of its time.
  assign_scenes-number_all :
      (t : ℕ) (set : List ℕ) (p : Pass D M)
      → Timed f p.store set
      → (assign_scenes t set p ≡ ok (number_all (at_time f t set) p))
        × Agree p.store (number_all (at_time f t set) p).store
  unfolding assign_scenes
  assign_scenes-number_all t [] p w = (refl, λ a. refl)
  assign_scenes-number_all t (a ∷ set) p w = elim (Bool-cases (f a == t)) [
    | inl hit ↦
        let g = number-Agree a p w.0 in
        let (e, g') =
          assign_scenes-number_all t set (number a p)
            (Timed-Agree f p.store (number a p).store set g w.1) in
        (rw (assign_scene-hit t a p w.0 hit, hit) e, rw (at_time, hit) (λ b. g' b ∙ g b))
    | inr miss ↦
        let (e, g) = assign_scenes-number_all t set p w.1 in
        (rw (assign_scene-miss t a p w.0 miss, miss) e, rw (at_time, miss) g)
  ]

  -- The two loops together number the scenes in the order of the times.
  pub assign_times-number_all :
      (ts set : List ℕ) (p : Pass D M)
      → Timed f p.store set
      → assign_times ts set p ≡ ok (number_all (at_times f ts set) p)
  unfolding assign_times
  assign_times-number_all [] set p w = refl
  assign_times-number_all (t ∷ ts) set p w =
      let (e, g) = assign_scenes-number_all t set p w in
      let q = number_all (at_time f t set) p in
      rw (e, number_all-append (at_time f t set) (at_times f ts set) p)
        (assign_times-number_all ts set q (Timed-Agree f p.store q.store set g w))

  pub link_scenes-linked :
      (prev : Link) (xs : List ℕ) (store : Store D M)
      → Timed f store xs
      → link_scenes prev xs store ≡ ok (linked prev xs store)
  unfolding link_scenes
  link_scenes-linked prev [] store w = refl
  link_scenes-linked prev (a ∷ []) store w =
      modify-alter a (f a) (set_left_right_scene prev null) store w.0
  link_scenes-linked prev (a ∷ b ∷ bs) store w =
      let g = set_left_right_scene prev (to b) in
      rw (modify-alter a (f a) g store w.0) (
        link_scenes-linked (to a) (b ∷ bs) (alter a g store) (
          Timed-Agree f store (alter a g store) (b ∷ bs)
            (alter-Agree a (f a) g store (set_left_right_scene-KeepsTime _ _) w.0) w.1))
