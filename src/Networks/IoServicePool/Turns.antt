-- ===== src/Networks/IoServicePool/Turns.antt =====
-- The io_services are handed out in turn.
use minority_viewport.Base.{
  ℕ, zero, suc, ◌+◌, List, [], ◌∷◌, ◌++◌, append_assoc, none, some, Result, ok, ◌>>=◌, get_elem?,
  length, length-append, ◌≡◌, refl, ap, arith,
}
use minority_viewport.Networks.IoServicePool.{
  IoServicePool, push_services, new_pool, next_index, get_io_service,
}

-- So many calls of `get_io_service`: the services handed out and the pool after them.
abbrev pub turns : ℕ → IoServicePool → Result (List ℕ × IoServicePool)
turns zero p = ok ([], p)
turns (suc n) p = do (s, p') ← get_io_service p; (ss, p'') ← turns n p'; ok (s ∷ ss, p'')

abbrev pool_at : List ℕ → ℕ → IoServicePool
pool_at ss i = record { io_services = ss; next_io_service = i }

get_elem?-append :
    (front back : List ℕ) (s : ℕ) → get_elem? (front ++ s ∷ back) (length front) ≡ some s
get_elem?-append [] back s = refl
get_elem?-append (x ∷ front) back s = get_elem?-append front back s

get_at :
    (front back : List ℕ) (s : ℕ)
    → get_io_service (pool_at (front ++ s ∷ back) (length front))
      ≡ ok
          (s, pool_at (front ++ s ∷ back) (next_index (pool_at (front ++ s ∷ back) (length front))))
unfolding get_io_service
get_at front back s = rw (get_elem?-append front back s) refl

next_at_end : (front : List ℕ) (s : ℕ) → next_index (pool_at (front ++ s ∷ []) (length front)) ≡ 0
next_at_end front s = ground (arith, length-append front (s ∷ []))

next_inside :
    (front back : List ℕ) (s t : ℕ)
    → next_index (pool_at (front ++ s ∷ t ∷ back) (length front)) ≡ length (front ++ s ∷ [])
next_inside front back s t =
    ground (arith, length-append front (s ∷ t ∷ back), length-append front (s ∷ []))

turns_from :
    (front back : List ℕ) (s : ℕ)
    → turns (length (s ∷ back)) (pool_at (front ++ s ∷ back) (length front))
      ≡ ok (s ∷ back, pool_at (front ++ s ∷ back) 0)
turns_from front [] s = rw (get_at front [] s, next_at_end front s) refl
turns_from front (t ∷ back) s =
    let ih = turns_from (front ++ s ∷ []) back t in
    rw (get_at front (t ∷ back) s, next_inside front back s t)
      (ap (λ r. r >>= λ (ss, p). ok (s ∷ ss, p)) (rw append_assoc at ih))

pub length-push_services : (address : ℕ → ℕ) (i n : ℕ) → length (push_services address i n) ≡ n
length-push_services address i zero = refl
length-push_services address i (suc n) = ap suc (length-push_services address (i + 1) n)

-- A new pool of n services hands out in n calls each of its services, in their order, and is then as
-- it was at first, so that the next n calls do the same; a pool of no services is not made.
pub turns-new_pool :
    (address : ℕ → ℕ) (n : ℕ)
    → (new_pool address 0 ≡ none)
      × ((p : IoServicePool) × (new_pool address (suc n) ≡ some p)
          × (p.io_services ≡ push_services address 0 (suc n))
          × (turns (suc n) p ≡ ok (p.io_services, p)))
unfolding new_pool
turns-new_pool address n =
    let all = turns_from [] (push_services address 1 n) (address 0) in
    (
      refl,
      (
        pool_at (push_services address 0 (suc n)) 0,
        refl,
        refl,
        rw (length-push_services address 1 n) at all,
      ),
    )
