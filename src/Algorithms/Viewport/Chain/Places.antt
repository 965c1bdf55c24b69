-- ===== src/Algorithms/Viewport/Chain/Places.antt =====
-- Which order and which neighbours the loops of `CalibrateSceneOrder` leave a scene with.
use mathlib.Core.Option
use minority_viewport.Base.{
  ℕ, ◌+◌, List, [], ◌∷◌, Option, some, Option-cases, Bool-cases, inl, inr, ◌==◌, ==→eq, false, ◌≡◌,
  refl, ap, ◌∙◌, arith,
}
use minority_viewport.Base.Distinct.{Fresh, Distinct}
use minority_viewport.Data.Scene.{Scene, Link, to, set_ordering, set_left_right_scene}
use minority_viewport.Data.Sensor.{Store}
use minority_viewport.Algorithms.Viewport.{Pass}
use minority_viewport.Algorithms.Viewport.Passes.{seen_at, seen_live, Timed, Timed-Agree}
use minority_viewport.Algorithms.Viewport.Chain.{
  alter, number, number_all, first_link, linked, number-Agree,
}

-- Where a scene stands: its order and its neighbours.
abbrev pub place : {D M : Type 0} → ℕ → Store D M → Option (ℕ × Link × Link)
place a store = Option.map (λ s. (s.ordering, s.left, s.right)) (store.cell a)

module _ {D M : Type 0} where
  -- From the n-th on: each scene has its position as order and its neighbours in the list as links.
  abbrev pub IsChain : ℕ → Link → List ℕ → Store D M → Type 0
  IsChain n prev [] store = Unit {0}
  IsChain n prev (a ∷ as') store =
      (place a store ≡ some (n, prev, first_link as')) × IsChain (n + 1) (to a) as' store

  abbrev pub order_at : Store D M → ℕ → Option ℕ
  order_at store a = Option.map (λ (s : Scene D M). s.ordering) (store.cell a)

  -- The orders alone.
  abbrev pub IsNumbered : ℕ → List ℕ → Store D M → Type 0
  IsNumbered n [] store = Unit {0}
  IsNumbered n (a ∷ as') store = (order_at store a ≡ some n) × IsNumbered (n + 1) as' store

  pub alter-other :
      (a b : ℕ) (g : Scene D M → Scene D M) (store : Store D M)
      → (b == a) ≡ false
      → (alter a g store).cell b ≡ store.cell b
  alter-other a b g store e = rw e refl

  pub alter-same :
      (a : ℕ) (g : Scene D M → Scene D M) (store : Store D M)
      → (alter a g store).cell a ≡ Option.map g (store.cell a)
  alter-same a g store = ground arith

  number_all-Fresh :
      (a : ℕ) (xs : List ℕ) (p : Pass D M)
      → Fresh a xs
      → (number_all xs p).store.cell a ≡ p.store.cell a
  number_all-Fresh a [] p h = refl
  number_all-Fresh a (x ∷ xs) p h =
      number_all-Fresh a xs (number x p) h.1
      ∙ alter-other x a (set_ordering p.order) p.store (ground (arith, h.0))

  linked-Fresh :
      (a : ℕ) (prev : Link) (xs : List ℕ) (store : Store D M)
      → Fresh a xs
      → (linked prev xs store).cell a ≡ store.cell a
  linked-Fresh a prev [] store h = refl
  linked-Fresh a prev (x ∷ xs) store h =
      linked-Fresh a (to x) xs (alter x (set_left_right_scene prev (first_link xs)) store) h.1
      ∙ alter-other x a (set_left_right_scene prev (first_link xs)) store (ground (arith, h.0))

  order-number :
      (a t : ℕ) (p : Pass D M)
      → seen_at p.store a ≡ some t
      → order_at (number a p).store a ≡ some p.order
  unfolding set_ordering
  order-number a t p e =
      let (s, c, h) = seen_live p.store a t e in
      rw (alter-same a (set_ordering p.order) p.store, c) refl

  order-number_all-Fresh :
      (a : ℕ) (xs : List ℕ) (p : Pass D M)
      → Fresh a xs
      → order_at (number_all xs p).store a ≡ order_at p.store a
  order-number_all-Fresh a xs p h =
      ap (Option.map (λ (s : Scene D M). s.ordering)) (number_all-Fresh a xs p h)

  -- Each of some distinct live scenes gets its position in the list as its order.
  pub number_all-IsNumbered :
      (f : ℕ → ℕ) (xs : List ℕ) (p : Pass D M)
      → Timed f p.store xs
      → Distinct xs
      → IsNumbered p.order xs (number_all xs p).store
  number_all-IsNumbered f [] p w d = tt
  number_all-IsNumbered f (x ∷ xs) p w d = (
    order-number_all-Fresh x xs (number x p) d.0 ∙ order-number x (f x) p w.0,
    number_all-IsNumbered f xs (number x p)
        (Timed-Agree f p.store (number x p).store xs (number-Agree f x p w.0) w.1) d.1,
  )

  -- The order of a scene does not change with its neighbours.
  order-alter :
      (a b : ℕ) (l r : Link) (store : Store D M)
      → order_at (alter a (set_left_right_scene l r) store) b ≡ order_at store b
  unfolding set_left_right_scene
  order-alter a b l r store = elim (Bool-cases (b == a)) [
    | inl same ↦
        rw (same, ==→eq b a same)
          (elim (Option-cases (store.cell a)) [ inl c ↦ rw c refl | inr (s, c) ↦ rw c refl ])
    | inr other ↦ rw other refl
  ]

  IsNumbered-alter :
      (n : ℕ) (xs : List ℕ) (a : ℕ) (l r : Link) (store : Store D M)
      → IsNumbered n xs store
      → IsNumbered n xs (alter a (set_left_right_scene l r) store)
  IsNumbered-alter n [] a l r store w = tt
  IsNumbered-alter n (x ∷ xs) a l r store w =
      (order-alter a x l r store ∙ w.0, IsNumbered-alter (n + 1) xs a l r store w.1)

  place-alter :
      (n a : ℕ) (l r : Link) (store : Store D M)
      → order_at store a ≡ some n
      → place a (alter a (set_left_right_scene l r) store) ≡ some (n, l, r)
  unfolding set_left_right_scene
  place-alter n a l r store e = elim (Option-cases (store.cell a)) [
    | inl c ↦ cc (rw c at e)
    | inr (s, c) ↦
        let e' : some s.ordering ≡ some n = rw c at e in
        rw (alter-same a (set_left_right_scene l r) store, c)
          (let same : s.ordering ≡ n = cc in rw same refl)
  ]

  -- The links of distinct numbered scenes make them a chain.
  pub linked-IsChain :
      (n : ℕ) (prev : Link) (xs : List ℕ) (store : Store D M)
      → IsNumbered n xs store
      → Distinct xs
      → IsChain n prev xs (linked prev xs store)
  linked-IsChain n prev [] store w d = tt
  linked-IsChain n prev (x ∷ xs) store w d =
      let g = set_left_right_scene prev (first_link xs) in
      (
        ap (Option.map (λ (s : Scene D M). (s.ordering, s.left, s.right)))
              (linked-Fresh x (to x) xs (alter x g store) d.0)
            ∙ place-alter n x prev (first_link xs) store w.0,
        linked-IsChain (n + 1) (to x) xs (alter x g store)
            (IsNumbered-alter (n + 1) xs x prev (first_link xs) store w.1) d.1,
      )
