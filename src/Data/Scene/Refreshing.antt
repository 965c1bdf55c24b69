-- ===== src/Data/Scene/Refreshing.antt =====
-- Data/Scene.cpp, `Clear`: the loop of the refresh thread, with what other threads do to the scene
-- between its rounds. The rounds end when the thread is told to die, or with the list of them.
use minority_viewport.Base.{
  ◌&&◌, ◌==◌, ℕ, ◌+◌, ◌%◌, ◌^◌, ◌<◌, ◌≤◌, true, false, List, [], ◌∷◌, ◌++◌, append-nil, All, none,
  some, ◌≡◌, refl, sym, ap, ◌∙◌, arith, Bool-cases, inl, inr,
}
use minority_viewport.Data.Scene.{
  signed_ltb, Scene, observe, no_skeletons, refresh_round, manual_clear, update, remove,
  set_ordering, set_calibration, set_r_and_t, set_dimensions, set_left_right_scene,
  set_calibration_skeleton,
}
use minority_viewport.Data.Scene.Capacity.{
  Call, updates, removes, clears, orders, calibrates, places, resizes, links, calibrates_by, apply,
  run,
}

module _ (D M : Type 0) where
  -- The two readings of the timer in a round, and the calls before it.
  pub record Round : Type 0 where
    pub calls : List (Call D M)
    pub now : ℕ
    pub again : ℕ

-- Below 2^31 the patterns are compared as they are.
late :
    (next_lapse again : ℕ)
    → again < 2 ^ 31
    → next_lapse < again
    → signed_ltb next_lapse again ≡ true
late next_lapse again h l = ground arith

early :
    (next_lapse again : ℕ)
    → next_lapse < 2 ^ 31
    → again ≤ next_lapse
    → signed_ltb next_lapse again ≡ false
early next_lapse again h l = ground arith

module _ {D M : Type 0} where
  -- Where the loop stands after some rounds: the time of the next lapse and the scene.
  unfoldable pub clear : List (Round D M) → ℕ → Scene D M → ℕ × Scene D M
  unfolding refresh_round
  clear [] next_lapse s = (next_lapse, s)
  clear (r ∷ rs) next_lapse s =
      elim (refresh_round r.now r.again (next_lapse, run r.calls s)) as (λ _. ℕ × Scene D M) [
        | none ↦ (next_lapse, run r.calls s)
        | some (lapse, s') ↦ clear rs lapse s'
      ]

  -- What the calls of other threads do alone.
  abbrev pub run_all : List (Round D M) → Scene D M → Scene D M
  run_all [] s = s
  run_all (r ∷ rs) s = run_all rs (run r.calls s)

  -- No call changes the rate, or tells the thread to die.
  abbrev KeepsThread : Scene D M → Scene D M → Type 0
  KeepsThread s t =
      (t.refresh_rate_ms ≡ s.refresh_rate_ms) × (t.refresh_thread_die ≡ s.refresh_thread_die)

  observe-KeepsThread : (now : ℕ) (s : Scene D M) → KeepsThread s (observe now s)
  observe-KeepsThread now s =
      elim (Bool-cases (s.first_skeleton_observed_time_ms == 0 && no_skeletons s.skeletons)) [
        | inl first ↦ rw first (refl, refl)
        | inr later ↦ rw later (refl, refl)
      ]

  apply-KeepsThread : (c : Call D M) (s : Scene D M) → KeepsThread s (apply c s)
  unfolding apply update remove manual_clear set_ordering set_calibration set_r_and_t set_dimensions
      set_left_right_scene set_calibration_skeleton
  apply-KeepsThread (updates now id person) s = observe-KeepsThread now s
  apply-KeepsThread (removes id) s = (refl, refl)
  apply-KeepsThread clears s = (refl, refl)
  apply-KeepsThread (orders n) s = (refl, refl)
  apply-KeepsThread (calibrates b) s = (refl, refl)
  apply-KeepsThread (places r t) s = (refl, refl)
  apply-KeepsThread (resizes x y z) s = (refl, refl)
  apply-KeepsThread (links l r) s = (refl, refl)
  apply-KeepsThread (calibrates_by skeleton) s = (refl, refl)

  run-KeepsThread : (cs : List (Call D M)) (s : Scene D M) → KeepsThread s (run cs s)
  unfolding run
  run-KeepsThread [] s = (refl, refl)
  run-KeepsThread (c ∷ cs) s =
      let one = apply-KeepsThread c s in
      let rest = run-KeepsThread cs (apply c s) in (rest.0 ∙ one.0, rest.1 ∙ one.1)

  run_all-KeepsThread : (rs : List (Round D M)) (s : Scene D M) → KeepsThread s (run_all rs s)
  run_all-KeepsThread [] s = (refl, refl)
  run_all-KeepsThread (r ∷ rs) s =
      let one = run-KeepsThread r.calls s in
      let rest = run_all-KeepsThread rs (run r.calls s) in (rest.0 ∙ one.0, rest.1 ∙ one.1)

  refresh_round-early :
      (now again lapse : ℕ) (s : Scene D M)
      → s.refresh_thread_die ≡ false
      → signed_ltb lapse again ≡ false
      → refresh_round now again (lapse, s) ≡ some (lapse, s)
  unfolding refresh_round
  refresh_round-early now again lapse s alive e = rw (alive, e) refl

  refresh_round-late :
      (now again lapse : ℕ) (s : Scene D M)
      → s.refresh_thread_die ≡ false
      → signed_ltb lapse again ≡ true
      → refresh_round now again (lapse, s)
        ≡ some ((now + s.refresh_rate_ms) % 2 ^ 32, manual_clear s)
  unfolding refresh_round
  refresh_round-late now again lapse s alive e = rw (alive, e) refl

  clear-nil : (lapse : ℕ) (s : Scene D M) → clear [] lapse s ≡ (lapse, s)
  unfolding clear
  clear-nil lapse s = refl

  -- Rounds until the lapse leave the scene to the other threads.
  quiet :
      (rs zs : List (Round D M)) (lapse : ℕ) (s : Scene D M)
      → s.refresh_thread_die ≡ false
      → lapse < 2 ^ 31
      → All (λ (r : Round D M). r.again ≤ lapse) rs
      → clear (rs ++ zs) lapse s ≡ clear zs lapse (run_all rs s)
  unfolding clear
  quiet [] zs lapse s alive h a = refl
  quiet (r ∷ rs) zs lapse s alive h a =
      let die = (run-KeepsThread r.calls s).1 ∙ alive in
      let e = early lapse r.again h a.0 in
      rw (clear, refresh_round-early r.now r.again lapse (run r.calls s) die e)
        (quiet rs zs lapse (run r.calls s) die h a.1)

  -- A round past the lapse clears the scene and sets the next lapse.
  clearing :
      (r : Round D M) (zs : List (Round D M)) (lapse : ℕ) (s : Scene D M)
      → s.refresh_thread_die ≡ false
      → r.now + s.refresh_rate_ms < 2 ^ 31
      → r.again < 2 ^ 31
      → lapse < r.again
      → clear (r ∷ zs) lapse s ≡ clear zs (r.now + s.refresh_rate_ms) (manual_clear (run r.calls s))
  unfolding clear
  clearing r zs lapse s alive sum h l =
      let (rate, die) = run-KeepsThread r.calls s in
      let small : (r.now + s.refresh_rate_ms) % 2 ^ 32 ≡ r.now + s.refresh_rate_ms = omega arith in
      let e = late lapse r.again h l in
      rw
        (clear, refresh_round-late r.now r.again lapse (run r.calls s) (die ∙ alive) e, rate, small)
        refl

  -- While the refresh thread of a scene is not told to die and the timer's readings, and these with the
  -- rate added, are below 2^31, a round that reads a time past the lapse clears the scene after the
  -- calls before it; then, for as many rounds as read no time past the next lapse, which is the rate
  -- later than the first reading of that round, the scene is exactly what the calls of other threads
  -- make of it; and the first round that reads a later time clears it again and sets the lapse that
  -- follows.
  pub clear_period :
      (r z : Round D M) (rs : List (Round D M)) (lapse : ℕ) (s : Scene D M)
      → s.refresh_thread_die ≡ false
      → lapse < r.again
      → r.again < 2 ^ 31
      → r.now + s.refresh_rate_ms < 2 ^ 31
      → All (λ (x : Round D M). x.again ≤ r.now + s.refresh_rate_ms) rs
      → r.now + s.refresh_rate_ms < z.again
      → z.again < 2 ^ 31
      → z.now + s.refresh_rate_ms < 2 ^ 31
      → (clear (r ∷ rs) lapse s
          ≡ (r.now + s.refresh_rate_ms, run_all rs (manual_clear (run r.calls s))))
        × (clear (r ∷ (rs ++ z ∷ [])) lapse s ≡ (
          z.now + s.refresh_rate_ms,
          manual_clear (run z.calls (run_all rs (manual_clear (run r.calls s)))),
        ))
  unfolding manual_clear
  clear_period r z rs lapse s alive past small sum a past' small' sum' =
      let (rate, die) = run-KeepsThread r.calls s in
      let s₁ = manual_clear (run r.calls s) in
      let next = r.now + s.refresh_rate_ms in
      let (rate', die') = run_all-KeepsThread rs s₁ in
      let s₂ = run_all rs s₁ in
      let same : s₂.refresh_rate_ms ≡ s.refresh_rate_ms = rate' ∙ rate in
      let living : s₂.refresh_thread_die ≡ false = die' ∙ die ∙ alive in
      (
        clearing r rs lapse s alive sum small past
            ∙ ap (λ l. clear l next s₁) (sym (append-nil rs))
            ∙ quiet rs [] next s₁ (die ∙ alive) sum a
            ∙ clear-nil next s₂,
        clearing r (rs ++ z ∷ []) lapse s alive sum small past
            ∙ quiet rs (z ∷ []) next s₁ (die ∙ alive) sum a
            ∙ clearing z [] next s₂ living (omega (arith, same)) small' past'
            ∙ clear-nil (z.now + s₂.refresh_rate_ms) (manual_clear (run z.calls s₂))
            ∙ ap (λ (n : ℕ). (z.now + n, manual_clear (run z.calls s₂))) same,
      )
