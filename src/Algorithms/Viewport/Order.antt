-- ===== src/Algorithms/Viewport/Order.antt =====
-- The order of the scenes as lists: for each time in turn, the scenes observed at that time.
use Prim.Native.Nat.{◌*◌}
use minority_viewport.Base.{
  ℕ, ◌+◌, ◌≤◌, List, [], ◌∷◌, ◌++◌, map, ◌==◌, if◌then◌else◌, ◌≡◌, refl, ap, ◌∙◌, arith,
  append_assoc, append-nil, All, Bool-cases, inl, inr, ==→eq,
}
use minority_viewport.Algorithms.Viewport.{sort_insert, sort}

abbrev pub count : ℕ → List ℕ → ℕ
count a [] = 0
count a (b ∷ bs) = (if b == a then 1 else 0) + count a bs

-- No later element is smaller.
abbrev pub IsSorted : List ℕ → Type 0
IsSorted [] = Unit {0}
IsSorted (a ∷ bs) = All (λ b. a ≤ b) bs × IsSorted bs

pub count-append :
    (a : ℕ) (front back : List ℕ) → count a (front ++ back) ≡ count a front + count a back
count-append a [] back = omega arith
count-append a (b ∷ front) back = omega (count-append a front back, arith)

count-sort_insert : (a b : ℕ) (xs : List ℕ) → count a (sort_insert b xs) ≡ count a (b ∷ xs)
unfolding sort_insert
count-sort_insert a b [] = refl
count-sort_insert a b (x ∷ xs) = ground (arith, count-sort_insert a b xs)

pub count-sort : (a : ℕ) (xs : List ℕ) → count a (sort xs) ≡ count a xs
unfolding sort
count-sort a [] = refl
count-sort a (x ∷ xs) = omega (arith, count-sort_insert a x (sort xs), count-sort a xs)

above-sort_insert :
    (c b : ℕ) (xs : List ℕ) → c ≤ b → All (λ x. c ≤ x) xs → All (λ x. c ≤ x) (sort_insert b xs)
unfolding sort_insert
above-sort_insert c b [] h p = (h, tt)
above-sort_insert c b (x ∷ xs) h p = ground (arith, above-sort_insert c b xs h p.1)

above_mono : (c b : ℕ) (xs : List ℕ) → c ≤ b → All (λ x. b ≤ x) xs → All (λ x. c ≤ x) xs
above_mono c b [] h p = tt
above_mono c b (x ∷ xs) h p = (omega arith, above_mono c b xs h p.1)

sort_insert-IsSorted : (b : ℕ) (xs : List ℕ) → IsSorted xs → IsSorted (sort_insert b xs)
unfolding sort_insert
sort_insert-IsSorted b [] s = (tt, tt)
sort_insert-IsSorted b (x ∷ xs) s =
    ground (arith, sort_insert-IsSorted b xs s.1, above-sort_insert x b xs, above_mono b x xs)

pub sort-IsSorted : (xs : List ℕ) → IsSorted (sort xs)
unfolding sort
sort-IsSorted [] = tt
sort-IsSorted (x ∷ xs) = sort_insert-IsSorted x (sort xs) (sort-IsSorted xs)

module _ (f : ℕ → ℕ) where
  -- The scenes of one time.
  abbrev pub at_time : ℕ → List ℕ → List ℕ
  at_time t [] = []
  at_time t (a ∷ set) = if f a == t then a ∷ at_time t set else at_time t set

  abbrev pub at_times : List ℕ → List ℕ → List ℕ
  at_times [] set = []
  at_times (t ∷ ts) set = at_time t set ++ at_times ts set

  count-at_time :
      (a t : ℕ) (set : List ℕ) → count a (at_time t set) ≡ (if f a == t then count a set else 0)
  count-at_time a t [] = ground arith
  count-at_time a t (b ∷ set) = ground (arith, count-at_time a t set, ap f, λ (e : b ≡ a). ap f e)

  -- A scene comes once for every time equal to its own.
  pub count-at_times :
      (a : ℕ) (ts set : List ℕ) → count a (at_times ts set) ≡ count (f a) ts * count a set
  count-at_times a [] set = omega arith
  count-at_times a (t ∷ ts) set =
      count-append a (at_time t set) (at_times ts set)
      ∙ grind (arith, count-at_time a t set, count-at_times a ts set)

  -- All scenes of the result were observed at one of the times.
  from_at_time :
      (n t : ℕ) (set ys : List ℕ)
      → n ≤ t
      → All (λ x. n ≤ x) (map f ys)
      → All (λ x. n ≤ x) (map f (at_time t set ++ ys))
  from_at_time n t [] ys h p = p
  from_at_time n t (a ∷ set) ys h p = elim (Bool-cases (f a == t)) [
    | inl e ↦ rw (e, at_time) (rw (==→eq _ _ e) h, from_at_time n t set ys h p)
    | inr e ↦ rw (e, at_time) (from_at_time n t set ys h p)
  ]

  from_at_times :
      (n : ℕ) (ts set : List ℕ) → All (λ x. n ≤ x) ts → All (λ x. n ≤ x) (map f (at_times ts set))
  from_at_times n [] set p = tt
  from_at_times n (t ∷ ts) set p =
      from_at_time n t set (at_times ts set) p.0 (from_at_times n ts set p.1)

  at_time-IsSorted :
      (t : ℕ) (set ys : List ℕ)
      → All (λ x. t ≤ x) (map f ys)
      → IsSorted (map f ys)
      → IsSorted (map f (at_time t set ++ ys))
  at_time-IsSorted t [] ys h s = s
  at_time-IsSorted t (a ∷ set) ys h s = elim (Bool-cases (f a == t)) [
    | inl e ↦
        rw (e, at_time)
          (
            rw (==→eq _ _ e) (from_at_time t t set ys (omega arith) h),
            at_time-IsSorted t set ys h s,
          )
    | inr e ↦ rw (e, at_time) (at_time-IsSorted t set ys h s)
  ]

  -- From sorted times the scenes come in the order of their times.
  pub at_times-IsSorted : (ts set : List ℕ) → IsSorted ts → IsSorted (map f (at_times ts set))
  at_times-IsSorted [] set s = tt
  at_times-IsSorted (t ∷ ts) set s =
      at_time-IsSorted t set (at_times ts set) (from_at_times t ts set s.0)
        (at_times-IsSorted ts set s.1)

  pub at_time-cons :
      (t a : ℕ) (xs set : List ℕ)
      → (xs ++ (if f a == t then a ∷ [] else [])) ++ at_time t set ≡ xs ++ at_time t (a ∷ set)
  at_time-cons t a xs set = elim (Bool-cases (f a == t)) [
    | inl hit ↦ rw (at_time, hit) (append_assoc xs (a ∷ []) (at_time t set))
    | inr miss ↦ rw (at_time, miss, append-nil) refl
  ]

  All-at_time :
      (P : ℕ → Type 0) (t : ℕ) (set ys : List ℕ)
      → All P set
      → All P ys
      → All P (at_time t set ++ ys)
  All-at_time P t [] ys p q = q
  All-at_time P t (a ∷ set) ys p q = elim (Bool-cases (f a == t)) [
    | inl e ↦ rw (at_time, e) (p.0, All-at_time P t set ys p.1 q)
    | inr e ↦ rw (at_time, e) (All-at_time P t set ys p.1 q)
  ]

  pub All-at_times : (P : ℕ → Type 0) (ts set : List ℕ) → All P set → All P (at_times ts set)
  All-at_times P [] set p = tt
  All-at_times P (t ∷ ts) set p = All-at_time P t set (at_times ts set) p (All-at_times P ts set p)
