-- ===== src/Algorithms/Viewport/Merging/Shown.antt =====
-- What a scene has in it after people were shown in it under one identifier.
use minority_viewport.Base.{
  ℕ, true, List, [], ◌∷◌, Option, none, some, ◌==◌, if◌then◌else◌, ◌≡◌, refl, ap, ◌∙◌, arith,
  Bool-cases, inl, inr,
}
use minority_viewport.Base.OrderedMap.{find, erase, insert, number_order}
use minority_viewport.Data.Skeleton.{Skeleton, unset_shared}
use minority_viewport.Data.Scene.{Scene, update}
use minority_viewport.Data.Scene.Capacity.{
  IsValid, has_room, update-IsValid, find-update, has_room-update,
}
use minority_viewport.Algorithms.Viewport.Merging.{Merge, show_global, merge_first}
use minority_viewport.Algorithms.Viewport.Merging.Matching.{latest, show_all}

module _ {D : Type 0} where
  abbrev pub unshared : List (ℕ × Skeleton D) → List (ℕ × Skeleton D)
  unshared [] = []
  unshared ((k, person) ∷ people) = (k, unset_shared person) ∷ unshared people

  -- A map with one key at most.
  abbrev pub alone : ℕ → Option (Skeleton D) → List (ℕ × Skeleton D)
  alone id none = []
  alone id (some person) = (id, person) ∷ []

module _ {D M : Type 0} (now : ℕ → ℕ) where
  update-alone :
      (n id : ℕ) (person : Skeleton D) (before : Option (Skeleton D)) (g : Scene D M)
      → g.skeletons ≡ alone id before
      → (update n id person g).skeletons ≡ alone id (some person)
  unfolding update erase insert
  update-alone n id person none g e = rw e refl
  update-alone n id person (some q) g e = rw e (ground arith)

  pub show_all-alone :
      (id : ℕ) (ms : List (ℕ × Skeleton D)) (before : Option (Skeleton D)) (p : Merge D M)
      → p.global.skeletons ≡ alone id before
      → (show_all now id ms p).global.skeletons ≡ alone id (latest before ms)
  show_all-alone id [] before p e = e
  show_all-alone id ((k, person) ∷ ms) before p e =
      show_all-alone id ms (some person) (show_global now id person p)
        (update-alone (now p.updates) id person before p.global e)

  pub drawn-show_all :
      (id : ℕ) (ms : List (ℕ × Skeleton D)) (p : Merge D M) → (show_all now id ms p).drawn ≡ p.drawn
  drawn-show_all id [] p = refl
  drawn-show_all id ((k, person) ∷ ms) p = drawn-show_all id ms (show_global now id person p)

  pub merge_first-show_all :
      (id : ℕ) (people : List (ℕ × Skeleton D)) (p : Merge D M)
      → merge_first now id people p ≡ show_all now id (unshared people) p
  unfolding merge_first
  merge_first-show_all id [] p = refl
  merge_first-show_all id ((k, person) ∷ people) p =
      merge_first-show_all id people (show_global now id (unset_shared person) p)

  pub store-show_all :
      (id : ℕ) (ms : List (ℕ × Skeleton D)) (p : Merge D M) → (show_all now id ms p).store ≡ p.store
  store-show_all id [] p = refl
  store-show_all id ((k, person) ∷ ms) p = store-show_all id ms (show_global now id person p)

  find-show_all :
      (id j : ℕ) (ms : List (ℕ × Skeleton D)) (p : Merge D M)
      → IsValid p.global
      → has_room id p.global ≡ true
      → find j (show_all now id ms p).global.skeletons
        ≡ (if id == j then latest (find j p.global.skeletons) ms else find j p.global.skeletons)
  find-show_all id j [] p v r = ground arith
  find-show_all id j ((k, person) ∷ ms) p v r =
      let p' = show_global now id person p in
      let ih =
        find-show_all id j ms p' (update-IsValid (now p.updates) id person p.global v)
          (has_room-update (now p.updates) id person p.global v ∙ r) in
      let same = find-update (now p.updates) id j person p.global v in
      elim (Bool-cases (id == j)) [
        | inl e ↦ ih ∙ rw e (ap (λ o. latest o ms) (same ∙ rw (e, r) refl))
        | inr e ↦ ih ∙ rw e (same ∙ rw e refl)
      ]

  alone-IsValid :
      (id : ℕ) (o : Option (Skeleton D)) (g : Scene D M) → g.skeletons ≡ alone id o → IsValid g
  alone-IsValid id none g e = record { sorted = rw e tt; bounded = rw e (omega arith) }
  alone-IsValid id (some q) g e = record { sorted = rw e (tt, tt); bounded = rw e (omega arith) }

  alone-has_room :
      (id j : ℕ) (o : Option (Skeleton D)) (g : Scene D M)
      → g.skeletons ≡ alone id o
      → has_room j g ≡ true
  unfolding has_room find
  alone-has_room id j none g e = rw e refl
  alone-has_room id j (some q) g e = rw e (ground arith)

  -- Showing more people over a scene with one person at most.
  pub find-show_over :
      (before id j : ℕ) (o : Option (Skeleton D)) (ms : List (ℕ × Skeleton D)) (p : Merge D M)
      → p.global.skeletons ≡ alone before o
      → find j (show_all now id ms p).global.skeletons
        ≡ (if id == j then latest (find j (alone before o)) ms else find j (alone before o))
  find-show_over before id j o ms p e =
      find-show_all id j ms p (alone-IsValid before o p.global e)
        (alone-has_room before id o p.global e)
      ∙ rw e refl
