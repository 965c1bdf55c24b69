-- ===== src/Data/ClientsList/Draws.antt =====
-- When the loop that draws an identifier ends.
use minority_viewport.Base.{
  ℕ, zero, suc, ◌+◌, ◌%◌, ◌<◌, true, false, List, [], ◌∷◌, ◌++◌, Bytes, ok, err, no_fuel, ◌≡◌, refl,
  subst, arith, Bool-cases, ◌⊎◌, inl, inr, length,
}
use minority_viewport.Data.Client.{Client, new_client}
use minority_viewport.Data.ClientsList.{
  ClientsList, is_assigned, draw_id, generate_next_client_id, add_client,
}

-- The first free draw ends the loop.
draw_id-ends :
    (fuel : ℕ) (draws : ℕ → ℕ) (k j : ℕ) (cs : List Client)
    → is_assigned (draws (k + j) % 1000 + 1) cs ≡ false
    → j < fuel
    → (id : ℕ) × (draw_id fuel draws k cs ≡ ok id)
unfolding draw_id
draw_id-ends zero draws k j cs e h = absurd (omega arith)
draw_id-ends (suc fuel) draws k zero cs e h = (
  draws k % 1000 + 1,
  rw (subst (λ n. is_assigned (draws n % 1000 + 1) cs ≡ false) {x = k + 0} {y = k} (omega arith) e)
      refl,
)
draw_id-ends (suc fuel) draws k (suc j) cs e h =
    elim (Bool-cases (is_assigned (draws k % 1000 + 1) cs)) [
      | inr free ↦ (draws k % 1000 + 1, rw free refl)
      | inl taken ↦ rw taken (
          draw_id-ends fuel draws (k + 1) j cs
            (subst (λ n. is_assigned (draws n % 1000 + 1) cs ≡ false) {x = k + suc j}
              {y = k + 1 + j} (omega arith) e)
            (omega arith))
    ]

draw_id-full :
    (fuel : ℕ) (draws : ℕ → ℕ) (k : ℕ) (cs : List Client)
    → ((n : ℕ) → n < 1000 → is_assigned (n + 1) cs ≡ true)
    → draw_id fuel draws k cs ≡ err no_fuel
unfolding draw_id
draw_id-full zero draws k cs h = refl
draw_id-full (suc fuel) draws k cs h =
    rw (h (draws k % 1000) (omega arith), draw_id) (draw_id-full fuel draws (k + 1) cs h)

generate_returns :
    (fuel : ℕ) (draws : ℕ → ℕ) (j : ℕ) (free : List ℕ) (cs : List Client)
    → (0 < length free) ⊎ (is_assigned (draws j % 1000 + 1) cs ≡ false)
    → j < fuel
    → (id : ℕ) × (l' : ClientsList) × (generate_next_client_id fuel draws
          (record { avaliable_ids = free; raw_client_list = cs })
        ≡ ok (id, l'))
unfolding generate_next_client_id
generate_returns fuel draws j (i ∷ is) cs free h = (i, _, refl)
generate_returns fuel draws j [] cs (inl free) h = absurd (omega arith)
generate_returns fuel draws j [] cs (inr free) h =
    let (id, e) =
      draw_id-ends fuel draws 0 j cs
        (subst (λ n. is_assigned (draws n % 1000 + 1) cs ≡ false) {x = j} {y = 0 + j} (omega arith)
          free)
        h in
    (id, record { avaliable_ids = []; raw_client_list = cs }, rw e refl)

-- Registration returns if an identifier is queued, or as soon as one of the numbers drawn stands for
-- an identifier that no client has: the fuel counts the draws.
pub add_client-returns :
    (fuel : ℕ) (draws : ℕ → ℕ) (j : ℕ) (location ip_addr : Bytes) (l : ClientsList)
    → (0 < length l.avaliable_ids) ⊎ (is_assigned (draws j % 1000 + 1) l.raw_client_list ≡ false)
    → j < fuel
    → (id : ℕ) × (l' : ClientsList) × (add_client fuel draws location ip_addr l ≡ ok (id, l'))
unfolding add_client
add_client-returns fuel draws j location ip_addr l free h =
    let (id, l', e) = generate_returns fuel draws j l.avaliable_ids l.raw_client_list free h in
    (
      id,
      record l' { raw_client_list = l'.raw_client_list ++ new_client id location ip_addr ∷ [] },
      rw e refl,
    )

-- With no identifier queued and all of 1 to 1000 in use, registration never returns, however many
-- numbers are drawn and whatever they are.
pub add_client_full :
    (fuel : ℕ) (draws : ℕ → ℕ) (location ip_addr : Bytes) (l : ClientsList)
    → l.avaliable_ids ≡ []
    → ((n : ℕ) → n < 1000 → is_assigned (n + 1) l.raw_client_list ≡ true)
    → add_client fuel draws location ip_addr l ≡ err no_fuel
unfolding add_client generate_next_client_id
add_client_full fuel draws location ip_addr l e h =
    ground (arith, draw_id-full fuel draws 0 l.raw_client_list h)
