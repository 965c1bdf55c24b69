-- ===== src/Data/Escape/Pass.antt =====
-- The loop as one pass over the text.
use mathlib.Core.Option
use minority_viewport.Base.{
  ℕ, zero, suc, ◌+◌, ◌≤◌, true, false, Bool-cases, inl, inr, [], ◌∷◌, ◌++◌, Bytes, length, take,
  drop, drop-length, length-append, append_assoc, Option, none, some, ok, ◌==◌, if◌then◌else◌, ◌≡◌,
  refl, ◌∙◌, ap, arith,
}
use native.Mathlib.Nat.{add-zero}
use minority_viewport.Data.Escape.{backslash, find_first, find_from, double_at, escape_loop, escape}

-- A backslash is doubled, and the two bytes behind it are copied whatever they are.
unfoldable pub escaped : Bytes → Bytes
escaped [] = []
escaped (c ∷ []) = if c == backslash then backslash ∷ backslash ∷ [] else c ∷ []
escaped (c ∷ d ∷ []) =
    if c == backslash then backslash ∷ backslash ∷ d ∷ [] else c ∷ escaped (d ∷ [])
escaped (c ∷ d ∷ e ∷ s) =
    if c == backslash then backslash ∷ backslash ∷ d ∷ e ∷ escaped s else c ∷ escaped (d ∷ e ∷ s)

drop_done : (done s : Bytes) → drop (length done) (done ++ s) ≡ s
drop_done [] s = refl
drop_done (x ∷ done) s = drop_done done s

take_done : (done s : Bytes) → take (length done) (done ++ s) ≡ done
take_done [] s = refl
take_done (x ∷ done) s = ap (◌∷◌ x) (take_done done s)

drop_past : (n : ℕ) (s : Bytes) → length s ≤ n → drop n s ≡ []
drop_past zero [] h = refl
drop_past zero (x ∷ s) h = absurd (omega arith)
drop_past (suc n) [] h = refl
drop_past (suc n) (x ∷ s) h = drop_past n s (omega arith)

find_from-done :
    (done s : Bytes)
    → find_from backslash (length done) (done ++ s)
      ≡ Option.map (λ i. length done + i) (find_first backslash s)
unfolding find_from
find_from-done done s = rw (drop_done done s) refl

find_from_past : (n : ℕ) (s : Bytes) → length s ≤ n → find_from backslash n s ≡ none
unfolding find_from
find_from_past n s h = rw (drop_past n s h) refl

double_at-done :
    (done s : Bytes) (c : ℕ)
    → double_at (length done) (done ++ c ∷ s) ≡ done ++ backslash ∷ backslash ∷ s
double_at-done done s c = rw (take_done done (c ∷ s), drop-length done s c) refl

map-suc :
    (n m : ℕ) (o : Option ℕ)
    → n + 1 ≡ m
    → Option.map (λ i. n + i) (Option.map suc o) ≡ Option.map (λ i. m + i) o
map-suc n m none h = refl
map-suc n m (some i) h = ap some (omega arith)

-- A byte that is no backslash is passed over.
loop-plain :
    (fuel : ℕ) (done s : Bytes) (c : ℕ)
    → (c == backslash) ≡ false
    → escape_loop fuel (find_from backslash (length done) (done ++ c ∷ s)) (done ++ c ∷ s)
      ≡ escape_loop fuel
          (find_from backslash (length (done ++ c ∷ [])) ((done ++ c ∷ []) ++ s))
          ((done ++ c ∷ []) ++ s)
unfolding find_first
loop-plain fuel done s c h =
    rw (find_from-done done (c ∷ s), find_from-done (done ++ c ∷ []) s, h)
      (rw
        (
          map-suc (length done) (length (done ++ c ∷ [])) (find_first backslash s)
              (omega (arith, length-append done (c ∷ []))),
          append_assoc,
        )
        refl)

-- A backslash is doubled, and two bytes are skipped.
loop-backslash :
    (fuel : ℕ) (done s : Bytes) (c : ℕ)
    → (c == backslash) ≡ true
    → escape_loop (suc fuel) (find_from backslash (length done) (done ++ c ∷ s)) (done ++ c ∷ s)
      ≡ escape_loop fuel
          (find_from backslash (length done + 4) (done ++ backslash ∷ backslash ∷ s))
          (done ++ backslash ∷ backslash ∷ s)
unfolding escape_loop find_first
loop-backslash fuel done s c h =
    rw (find_from-done done (c ∷ s), h, add-zero)
      (ap (λ t. escape_loop fuel (find_from backslash (length done + 4) t) t)
        (double_at-done done s c))

-- The loop from position `length done` on, where what stands before is done.
loop-escaped :
    (fuel : ℕ) (done s : Bytes)
    → length s ≤ fuel
    → escape_loop fuel (find_from backslash (length done) (done ++ s)) (done ++ s)
      ≡ ok (done ++ escaped s)
unfolding escape_loop escaped find_first
loop-escaped fuel done [] h = rw (find_from-done done []) refl
loop-escaped zero done (c ∷ s) h = absurd (omega arith)
loop-escaped (suc fuel) done (c ∷ []) h = elim (Bool-cases (c == backslash)) [
  | inl e ↦
      loop-backslash fuel done [] c e
      ∙ rw
          (
            e,
            find_from_past (length done + 4) (done ++ backslash ∷ backslash ∷ [])
                (omega (arith, length-append done (backslash ∷ backslash ∷ []))),
          )
          refl
  | inr e ↦
      loop-plain (suc fuel) done [] c e
      ∙ loop-escaped (suc fuel) (done ++ c ∷ []) [] (omega arith)
      ∙ rw (e, append_assoc) refl
]
loop-escaped (suc fuel) done (c ∷ d ∷ []) h = elim (Bool-cases (c == backslash)) [
  | inl e ↦
      loop-backslash fuel done (d ∷ []) c e
      ∙ rw
          (
            e,
            find_from_past (length done + 4) (done ++ backslash ∷ backslash ∷ d ∷ [])
                (omega (arith, length-append done (backslash ∷ backslash ∷ d ∷ []))),
          )
          refl
  | inr e ↦
      loop-plain (suc fuel) done (d ∷ []) c e
      ∙ loop-escaped (suc fuel) (done ++ c ∷ []) (d ∷ []) (omega arith)
      ∙ rw (e, append_assoc) refl
]
loop-escaped (suc fuel) done (c ∷ d ∷ e ∷ s) h = elim (Bool-cases (c == backslash)) [
  | inl q ↦
      let front : Bytes = done ++ backslash ∷ backslash ∷ d ∷ e ∷ [] in
      let len : length front ≡ length done + 4 =
        omega (arith, length-append done (backslash ∷ backslash ∷ d ∷ e ∷ [])) in
      loop-backslash fuel done (d ∷ e ∷ s) c q
      ∙ rw (q, ← len, ← append_assoc done (backslash ∷ backslash ∷ d ∷ e ∷ []) s)
          (loop-escaped fuel front s (omega arith) ∙ rw append_assoc refl)
  | inr q ↦
      loop-plain (suc fuel) done (d ∷ e ∷ s) c q
      ∙ loop-escaped (suc fuel) (done ++ c ∷ []) (d ∷ e ∷ s) (omega arith)
      ∙ rw (q, append_assoc) refl
]

-- The loop returns within a round for each byte, and what it makes of the text is made by one pass,
-- in which a backslash is doubled and the two bytes behind it are copied whatever they are.
pub escape-escaped : (s : Bytes) → escape s ≡ ok (escaped s)
unfolding escape
escape-escaped s = loop-escaped (length s) [] s (omega arith)
