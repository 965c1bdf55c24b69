-- ===== src/Data/ClientsList/Ids.antt =====
-- The identifiers of the clients, under registration and removal.
use minority_viewport.Base.{
  ℕ, zero, suc, ◌+◌, ◌≤◌, false, List, [], ◌∷◌, ◌++◌, map, Bytes, ok, >>=-eq-ok, All-append, subst,
  ok-injective, ◌≡◌, refl, ap, arith, append_assoc, append-nil,
}
use minority_viewport.Base.Distinct.{Fresh, Distinct, Within, Distinct-append, Fresh-middle}
use minority_viewport.Data.Client.{Client, new_client}
use minority_viewport.Data.ClientsList.{
  ClientsList, is_assigned, draw_id, generate_next_client_id, add_client,
}

abbrev pub ids : List Client → List ℕ
ids = map (λ c. c.id)

-- The identifiers in use and those to be used again are different from one another, and each is
-- between 1 and 1000.
pub record IsValid (l : ClientsList) : Type 0 where
  pub distinct : Distinct (ids l.raw_client_list ++ l.avaliable_ids)
  pub within : Within 1000 (ids l.raw_client_list ++ l.avaliable_ids)

pub ids-append : (cs ds : List Client) → ids (cs ++ ds) ≡ ids cs ++ ids ds
ids-append [] ds = refl
ids-append (c ∷ cs) ds = ap (◌∷◌ c.id) (ids-append cs ds)

pub is_assigned-Fresh : (id : ℕ) (cs : List Client) → is_assigned id cs ≡ false → Fresh id (ids cs)
unfolding is_assigned
is_assigned-Fresh id [] h = tt
is_assigned-Fresh id (c ∷ cs) h = ground (arith, is_assigned-Fresh id cs)

pub Fresh-is_assigned : (id : ℕ) (cs : List Client) → Fresh id (ids cs) → is_assigned id cs ≡ false
unfolding is_assigned
Fresh-is_assigned id [] h = refl
Fresh-is_assigned id (c ∷ cs) h = ground (arith, Fresh-is_assigned id cs h.1)

-- What a draw that ends gives.
draw_id-free :
    (fuel : ℕ) (draws : ℕ → ℕ) (k : ℕ) (cs : List Client) (id : ℕ)
    → draw_id fuel draws k cs ≡ ok id
    → (is_assigned id cs ≡ false) × (1 ≤ id) × (id ≤ 1000)
unfolding draw_id
draw_id-free zero draws k cs id e = cc
draw_id-free (suc fuel) draws k cs id e = ground (arith, draw_id-free fuel draws (k + 1) cs id)

-- A generated identifier: not in use, and no longer in the queue.
record Generated (id : ℕ) (l l' : ClientsList) : Type 0 where
  same_clients : l'.raw_client_list ≡ l.raw_client_list
  fresh : is_assigned id l.raw_client_list ≡ false
  distinct : Distinct (ids l.raw_client_list ++ id ∷ l'.avaliable_ids)
  within : Within 1000 (ids l.raw_client_list ++ id ∷ l'.avaliable_ids)

module _ (fuel : ℕ) (draws : ℕ → ℕ) (cs : List Client) where
  drawn-Generated :
      (id : ℕ)
      → Distinct (ids cs ++ [])
      → Within 1000 (ids cs ++ [])
      → draw_id fuel draws 0 cs ≡ ok id
      → Generated id
          (record { avaliable_ids = []; raw_client_list = cs })
          (record { avaliable_ids = []; raw_client_list = cs })
  drawn-Generated id d w e =
      let (free, low, high) = draw_id-free fuel draws 0 cs id e in
      record {
        same_clients = refl;
        fresh = free;
        distinct = Distinct-append (ids cs) id (rw append-nil at d) (is_assigned-Fresh id cs free);
        within = All-append _ (ids cs) _ (rw append-nil at w) ((low, high), tt);
      }

  generate-Generated :
      (free : List ℕ) {id : ℕ} {l' : ClientsList}
      → IsValid (record { avaliable_ids = free; raw_client_list = cs })
      → generate_next_client_id fuel draws (record { avaliable_ids = free; raw_client_list = cs })
        ≡ ok (id, l')
      → Generated id (record { avaliable_ids = free; raw_client_list = cs }) l'
  unfolding generate_next_client_id
  generate-Generated [] v g =
      let (id, e, f) = >>=-eq-ok _ (draw_id fuel draws 0 cs) g in
      subst (λ p. Generated p.0 (record { avaliable_ids = []; raw_client_list = cs }) p.1)
        (ok-injective f) (drawn-Generated id v.distinct v.within e)
  generate-Generated (i ∷ is) v g =
      subst (λ p. Generated p.0 (record { avaliable_ids = i ∷ is; raw_client_list = cs }) p.1)
        (ok-injective g)
        (record {
          same_clients = refl;
          fresh = Fresh-is_assigned i cs (Fresh-middle (ids cs) is i v.distinct);
          distinct = v.distinct;
          within = v.within;
        })

added :
    (id : ℕ) (location ip_addr : Bytes) (l l' : ClientsList)
    → Generated id l l'
    → IsValid
        (record l' { raw_client_list = l'.raw_client_list ++ new_client id location ip_addr ∷ [] })
added id location ip_addr l l' g = record {
  distinct = rw (moved, g.same_clients) g.distinct;
  within = rw (moved, g.same_clients) g.within;
}
  where
    moved :
        ids (l'.raw_client_list ++ new_client id location ip_addr ∷ []) ++ l'.avaliable_ids
        ≡ ids l'.raw_client_list ++ id ∷ l'.avaliable_ids
    moved = rw (ids-append l'.raw_client_list _) (append_assoc (ids l'.raw_client_list) (id ∷ []) _)

-- Registration keeps the identifiers valid; the new client, which comes last, has one that no client
-- had.
pub add_client-IsValid :
    (fuel : ℕ) (draws : ℕ → ℕ) (location ip_addr : Bytes) (l : ClientsList) {id : ℕ}
    {l' : ClientsList}
    → IsValid l
    → add_client fuel draws location ip_addr l ≡ ok (id, l')
    → IsValid l'
      × (is_assigned id l.raw_client_list ≡ false)
      × (l'.raw_client_list ≡ l.raw_client_list ++ new_client id location ip_addr ∷ [])
unfolding add_client
add_client-IsValid fuel draws location ip_addr l v e =
    let (p, g, f) = >>=-eq-ok _ (generate_next_client_id fuel draws l) e in
    let made = generate-Generated fuel draws l.raw_client_list l.avaliable_ids v g in
    subst
      (λ r.
        IsValid r.1
        × (is_assigned r.0 l.raw_client_list ≡ false)
        × (r.1.raw_client_list ≡ l.raw_client_list ++ new_client r.0 location ip_addr ∷ []))
      (ok-injective f) (added p.0 location ip_addr l p.1 made, made.fresh, rw made.same_clients)
