-- ===== src/Algorithms/Viewport/Merging/Matching.antt =====
-- What a scene adds to the global scene when there are people in the scene to its left: the loop of
-- `MergeScenes` over its people, against the list of the matches.
use minority_viewport.Base.{
  ◌%◌, ℕ, suc, Bool, true, false, List, [], ◌∷◌, Option, none, some, ok, ◌==◌, ◌≡◌, refl, ap, ◌∙◌,
  All, Option-cases, inl, inr,
}
use minority_viewport.Base.OrderedMap.{erase, number_order}
use minority_viewport.Data.Matrix.{Matrices}
use minority_viewport.Data.Skeleton.{Skeleton, set_shared}
use minority_viewport.Data.Scene.{Scene, to, remove}
use minority_viewport.Data.Sensor.{Store}
use minority_viewport.Algorithms.Viewport.Chain.{alter}
use minority_viewport.Algorithms.Viewport.Chain.Places.{alter-same}
use minority_viewport.Algorithms.Viewport.Merging.{
  Merge, moved, show_global, find_match, merge_match, merge_both, combine, merge_beside,
  merge_scene,
}

module _ {D : Type 0} (near : D → D → Bool) (place shown : Skeleton D → Skeleton D) where
  abbrev matched : Option ℕ → Skeleton D → List (ℕ × Skeleton D) → List (ℕ × Skeleton D)
  matched none person ms = ms
  matched (some k) person ms = (k, person) ∷ ms

  -- The keys in the left scene of those who are the same person as one of the right scene's, each with
  -- the person as shown. `place` is where a person of the right scene stands in the left scene's frame.
  abbrev pub matches : List (ℕ × Skeleton D) → List (ℕ × Skeleton D) → List (ℕ × Skeleton D)
  matches refs [] = []
  matches refs ((i, person) ∷ people) =
      matched (find_match near (place person) refs) (shown person) (matches refs people)

module _ {D : Type 0} where
  -- The people whose keys were matched leave.
  abbrev pub leave : List (ℕ × Skeleton D) → List (ℕ × Skeleton D) → List (ℕ × Skeleton D)
  leave [] people = people
  leave ((k, person) ∷ ms) people = leave ms (erase k people)

  -- The last one, or what was there before.
  abbrev pub latest : Option (Skeleton D) → List (ℕ × Skeleton D) → Option (Skeleton D)
  latest before [] = before
  latest before ((k, person) ∷ ms) = latest (some person) ms

module _ {D M : Type 0} where
  abbrev pub remove_all : ℕ → List (ℕ × Skeleton D) → Store D M → Store D M
  remove_all left [] store = store
  remove_all left ((k, person) ∷ ms) store = remove_all left ms (alter left (remove k) store)

  -- The scene in which the matches were found has lost them, and no other scene changed.
  pub remove_all-left :
      (left : ℕ) (ms : List (ℕ × Skeleton D)) (store : Store D M) {s : Scene D M}
      → store.cell left ≡ some s
      → (remove_all left ms store).cell left ≡ some (record s { skeletons = leave ms s.skeletons })
  unfolding remove
  remove_all-left left [] store live = live
  remove_all-left left ((k, person) ∷ ms) store {s} live =
      remove_all-left left ms (alter left (remove k) store) {s = remove k s}
        (rw (alter-same left (remove k) store, live) refl)

  pub remove_all-other :
      (left b : ℕ) (ms : List (ℕ × Skeleton D)) (store : Store D M)
      → (b == left) ≡ false
      → (remove_all left ms store).cell b ≡ store.cell b
  remove_all-other left b [] store e = refl
  remove_all-other left b ((k, person) ∷ ms) store e =
      remove_all-other left b ms (alter left (remove k) store) e ∙ rw e refl

module _ {D M : Type 0} (now : ℕ → ℕ) where
  -- All are shown under one identifier.
  abbrev pub show_all : ℕ → List (ℕ × Skeleton D) → Merge D M → Merge D M
  show_all id [] p = p
  show_all id ((k, person) ∷ ms) p = show_all id ms (show_global now id person p)

  -- The matches are shown, and they leave the left scene.
  abbrev pub absorb : ℕ → ℕ → List (ℕ × Skeleton D) → Merge D M → Merge D M
  absorb id left [] p = p
  absorb id left ((k, person) ∷ ms) p =
      absorb id left ms
        (show_global now id person (record p { store = alter left (remove k) p.store }))

  show_all-store :
      (id : ℕ) (ms : List (ℕ × Skeleton D)) (store : Store D M) (p : Merge D M)
      → show_all id ms (record p { store = store }) ≡ record (show_all id ms p) { store = store }
  show_all-store id [] store p = refl
  show_all-store id ((k, person) ∷ ms) store p =
      show_all-store id ms store (show_global now id person p)

  pub absorb-show_all :
      (id left : ℕ) (ms : List (ℕ × Skeleton D)) (p : Merge D M)
      → absorb id left ms p ≡ record (show_all id ms p) { store = remove_all left ms p.store }
  absorb-show_all id left [] p = refl
  absorb-show_all id left ((k, person) ∷ ms) p =
      let store = alter left (remove k) p.store in
      let p' : Merge D M = show_global now id person (record p { store = store }) in
      absorb-show_all id left ms p'
      ∙ ap (λ (q : Merge D M). record q { store = remove_all left ms store })
          (show_all-store id ms store (show_global now id person p))

module _ {D : Type 0} (C : Matrices D) (place shown : Skeleton D → Skeleton D) where
  open C use {Mat}

  -- The people can be moved: alone, and as shown.
  abbrev pub Moves : Mat × Mat → Mat × Mat → List (ℕ × Skeleton D) → Type 0
  Moves own combined = All (λ (e : ℕ × Skeleton D).
      (moved C own.0 own.1 e.1 ≡ ok (place e.1))
      × (moved C combined.0 combined.1 (set_shared e.1) ≡ ok (shown e.1)))

module _ {D : Type 0} (C : Matrices D) (near : D → D → Bool) (now : ℕ → ℕ)
    (place shown : Skeleton D → Skeleton D) where
  open C use {Mat}

  merge_match-some :
      (id left : ℕ) (combined : Mat × Mat) (k : ℕ) (person : Skeleton D) (p : Merge D Mat)
      {s : Scene D Mat}
      → p.store.cell left ≡ some s
      → moved C combined.0 combined.1 (set_shared person) ≡ ok (shown person)
      → merge_match C now id combined left person (some k) p
        ≡ ok
            (show_global now id (shown person) (record p { store = alter left (remove k) p.store }))
  unfolding merge_match
  merge_match-some id left combined k person p live h = rw (live, h) refl

  pub merge_both-absorb :
      (id left : ℕ) (combined own : Mat × Mat) (refs people : List (ℕ × Skeleton D))
      (p : Merge D Mat) {s : Scene D Mat}
      → p.store.cell left ≡ some s
      → Moves C place shown own combined people
      → merge_both C near now id combined left refs own people p
        ≡ ok (absorb now id left (matches near place shown refs people) p)
  unfolding merge_both
  merge_both-absorb id left combined own refs [] p live h = refl
  merge_both-absorb id left combined own refs ((i, person) ∷ people) p {s} live h =
      elim (Option-cases (find_match near (place person) refs)) [
        | inl miss ↦
            rw (h.0.0, miss) (merge_both-absorb id left combined own refs people p live h.1)
        | inr (k, hit) ↦
            let store : Store D Mat = alter left (remove k) p.store in
            let p' : Merge D Mat = show_global now id (shown person) (record p { store = store }) in
            let gone : store.cell left ≡ some (remove k s) =
              rw (alter-same left (remove k) p.store, live) refl in
            rw (h.0.0, hit, merge_match-some id left combined k person p live h.0.1)
              (merge_both-absorb id left combined own refs people p' {s = remove k s} gone h.1)
      ]

module _ {D : Type 0} (C : Matrices D) (near : D → D → Bool) (rand now : ℕ → ℕ)
    (place shown : Skeleton D → Skeleton D) where
  open C use {Mat}

  -- The turn of a calibrated scene whose left neighbour has people: the people who are near one of those
  -- are shown, all under the identifier drawn for the scene, and their matches leave the left scene.
  -- Whoever is near nobody is not shown at all.
  pub merge_scene_matched :
      (a left : ℕ) (left_of : List ℕ) (combined : Mat × Mat) (p : Merge D Mat) (e : ℕ × Skeleton D)
      (refs : List (ℕ × Skeleton D)) {s l : Scene D Mat}
      → p.store.cell a ≡ some s
      → s.calibrated ≡ true
      → s.left ≡ to left
      → p.store.cell left ≡ some l
      → l.skeletons ≡ e ∷ refs
      → combine C p.store (a ∷ left_of) (C.eye, C.zero_column) ≡ ok combined
      → Moves C place shown (s.r_matrix, s.t_matrix) combined s.skeletons
      → merge_scene C near rand now a left_of p
        ≡ ok (
            absorb now
              (rand p.drawn % 100)
              left
              (matches near place shown l.skeletons s.skeletons)
              (record p { drawn = suc p.drawn }))
  unfolding merge_scene merge_beside
  merge_scene_matched a left left_of combined p e refs {s} {l} live calibrated beside live' people c
        h =
      let p' : Merge D Mat = record p { drawn = suc p.drawn } in
      rw (live, calibrated, beside, (rw (live, beside) at c), live', people)
        (merge_both-absorb C near now place shown (rand p.drawn % 100) left combined
          (s.r_matrix, s.t_matrix) (e ∷ refs) s.skeletons p' {s = l} live' h)
