-- ===== src/Algorithms/Viewport/Merging/Pruning.antt =====
-- Scenes that lose people: what holds while a merge goes on.
use mathlib.Core.List.{Sublistᴰ}
use mathlib.Core.List.Sublistᴰ
use minority_viewport.Base.{
  ℕ, Option, none, some, ok, ok-injective, ◌==◌, ==→eq, ◌≡◌, refl, ap, subst, ◌∙◌, Bool-cases,
  Option-cases, inl, inr,
}
use minority_viewport.Base.OrderedMap.{erase-Sublist, number_order}
use minority_viewport.Data.Skeleton.{Skeleton}
use minority_viewport.Data.Scene.{Scene, update, remove}
use minority_viewport.Data.Scene.Capacity.{IsValid, update-IsValid, remove-IsValid}
use minority_viewport.Data.Sensor.{Store, write, modify}
use minority_viewport.Algorithms.Viewport.Ownership.{alive}
use minority_viewport.Algorithms.Viewport.SensorData.Loading.{AreValid, at-AreValid, write-AreValid}
use minority_viewport.Algorithms.Viewport.Merging.{Merge}

module _ {D M : Type 0} where
  -- A scene has lost people at most: the others stand in it as they were, under their identifiers and
  -- in their order, and all else of it is the same.
  abbrev pub IsPrunedCell : Option (Scene D M) → Option (Scene D M) → Type 0
  IsPrunedCell none none = Unit {0}
  IsPrunedCell (some s) (some t) =
      (t ≡ record s { skeletons = t.skeletons }) × Sublistᴰ t.skeletons s.skeletons
  IsPrunedCell _ _ = ⊥

  abbrev pub ArePruned : Store D M → Store D M → Type 0
  ArePruned store store' = (a : ℕ) → IsPrunedCell (store.cell a) (store'.cell a)

  pub pruned-alive : (b c : Option (Scene D M)) → IsPrunedCell b c → alive c ≡ alive b
  pruned-alive none none p = refl
  pruned-alive none (some t) p = elim p [ ]
  pruned-alive (some s) none p = elim p [ ]
  pruned-alive (some s) (some t) p = refl

  pub IsPrunedCell-refl : (c : Option (Scene D M)) → IsPrunedCell c c
  IsPrunedCell-refl none = tt
  IsPrunedCell-refl (some s) = (refl, Sublistᴰ.refl s.skeletons)

  IsPrunedCell-trans :
      (b c d : Option (Scene D M)) → IsPrunedCell b c → IsPrunedCell c d → IsPrunedCell b d
  IsPrunedCell-trans none none none p q = tt
  IsPrunedCell-trans none none (some u) p q = elim q [ ]
  IsPrunedCell-trans none (some t) d p q = elim p [ ]
  IsPrunedCell-trans (some s) none d p q = elim p [ ]
  IsPrunedCell-trans (some s) (some t) none p q = elim q [ ]
  IsPrunedCell-trans (some s) (some t) (some u) p q = (
    q.0 ∙ ap (λ (x : Scene D M). record x { skeletons = u.skeletons }) p.0,
    Sublistᴰ.trans q.1 p.1,
  )

  removed-IsPrunedCell : (k : ℕ) (s : Scene D M) → IsPrunedCell (some s) (some (remove k s))
  unfolding remove
  removed-IsPrunedCell k s = (refl, erase-Sublist k s.skeletons)

  write-ArePruned :
      (k a : ℕ) (s : Scene D M) (store : Store D M)
      → store.cell a ≡ some s
      → ArePruned store (write a (some (remove k s)) store)
  write-ArePruned k a s store live b = elim (Bool-cases (b == a)) [
    | inl same ↦ rw (same, ==→eq b a same, live) (removed-IsPrunedCell k s)
    | inr other ↦ rw other (IsPrunedCell-refl (store.cell b))
  ]

  -- The merge so far: the global scene is valid, and the scenes of the start have lost people at most.
  pub record Merged (start : Store D M) (p : Merge D M) : Type 0 where
    pub global_valid : IsValid p.global
    pub are_valid : AreValid p.store
    pub are_pruned : ArePruned start p.store

  pub show_global-Merged :
      {start : Store D M} (now id : ℕ) (person : Skeleton D) (p : Merge D M) (n m : ℕ)
      → Merged start p
      → Merged start (record p { global = update now id person p.global; updates = n; drawn = m })
  show_global-Merged now id person p n m h = record {
    global_valid = update-IsValid now id person p.global h.global_valid;
    are_valid = h.are_valid;
    are_pruned = h.are_pruned;
  }

  pub removed-Merged :
      {start : Store D M} (k a : ℕ) (p : Merge D M) {store : Store D M}
      → Merged start p
      → modify a (remove k) p.store ≡ ok store
      → Merged start (record p { store = store })
  removed-Merged {start} k a p {store} h e = elim (Option-cases (p.store.cell a)) [
    | inl dead ↦ cc (rw dead at e)
    | inr (s, live) ↦
        let written : write a (some (remove k s)) p.store ≡ store = ok-injective (rw live at e) in
        subst (λ t. Merged start (record p { store = t })) written
          (record {
            global_valid = h.global_valid;
            are_valid =
                write-AreValid a (remove k s) p.store
                  (remove-IsValid k s (at-AreValid p.store h.are_valid live)) h.are_valid;
            are_pruned = λ b.
                IsPrunedCell-trans (start.cell b) (p.store.cell b) _ (h.are_pruned b)
                  (write-ArePruned k a s p.store live b);
          })
  ]
