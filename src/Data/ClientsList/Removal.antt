-- ===== src/Data/ClientsList/Removal.antt =====
-- `RemoveClient`, for an identifier in use and for one that is not.
pub mod Searching
use minority_viewport.Base.{
  ℕ, ◌+◌, ◌-◌, ◌^◌, ◌<◌, true, false, List, [], ◌∷◌, ◌++◌, none, some, ok, err, undefined, All-move,
  length-map, length, length-append, erase_idx-append, lt→ltb, ◌==◌, ==→eq, eq→==, subst,
  if◌then◌else◌, ◌≡◌, refl, ap, ◌∙◌, arith, Bool-cases, inl, inr, append_assoc, append-nil,
}
use native.Mathlib.Nat.{zero-add}
use minority_viewport.Base.Distinct.{Distinct-move, Fresh-after, Fresh-prefix, length-Distinct}
use minority_viewport.Data.Client.{Client}
use minority_viewport.Data.ClientsList.{
  ClientsList, is_assigned, next_idx, find_removed, remove_client, at,
}
use minority_viewport.Data.ClientsList.Ids.{ids, IsValid, ids-append, Fresh-is_assigned}
use minority_viewport.Data.ClientsList.Removal.Searching.{
  Split, at-Split, find_removed-found, find_removed-missing, at-none, at-skip,
}

-- The list after the client between `front` and `back` is gone.
abbrev without : ClientsList → ℕ → List Client → List Client → ClientsList
without l id front back = record {
  avaliable_ids = l.avaliable_ids ++ id ∷ [];
  raw_client_list = front ++ back;
}

module _ (l : ClientsList) (c : Client) (front back : List Client) (v : IsValid l)
    (e : l.raw_client_list ≡ front ++ c ∷ back) where
  regroup :
      ids l.raw_client_list ++ l.avaliable_ids ≡ ids front ++ c.id ∷ (ids back ++ l.avaliable_ids)
  regroup = rw (e, ids-append front (c ∷ back)) (append_assoc (ids front) (c.id ∷ ids back) _)

  regroup_after :
      ids (front ++ back) ++ (l.avaliable_ids ++ c.id ∷ [])
      ≡ ids front ++ ((ids back ++ l.avaliable_ids) ++ c.id ∷ [])
  regroup_after = rw (ids-append front back) (simp append_assoc)

  without-IsValid : IsValid (without l c.id front back)
  without-IsValid = record {
    distinct = rw regroup_after (Distinct-move (ids front) _ c.id (rw regroup at v.distinct));
    within = rw regroup_after (All-move _ (ids front) _ c.id (rw regroup at v.within));
  }

  back_free : is_assigned c.id back ≡ false
  back_free = Fresh-is_assigned c.id back (
      Fresh-prefix c.id (ids back) l.avaliable_ids
        (Fresh-after (ids front) _ c.id (rw regroup at v.distinct)))

  few : length front + length back < 1000
  few = omega (
    arith,
    ap (length {A = ℕ}) regroup,
    length-Distinct 1000 (ids l.raw_client_list ++ l.avaliable_ids) v.within v.distinct,
    length-append (ids front) (c.id ∷ (ids back ++ l.avaliable_ids)),
    length-append (ids back) l.avaliable_ids,
    length-map front (λ (d : Client). d.id),
    length-map back (λ (d : Client). d.id),
  )

-- What a removal that finds its client leaves.
abbrev pub Removes : ℕ → Client → ClientsList → Type 0
Removes id c l =
    (rest : ClientsList) × (remove_client id l ≡ ok (some c, rest))
    × IsValid rest
    × (rest.avaliable_ids ≡ l.avaliable_ids ++ id ∷ [])
    × ((j : ℕ) → at j rest.raw_client_list ≡ (if id == j then none else at j l.raw_client_list))

module _ (l : ClientsList) (c : Client) (v : IsValid l) (front back : List Client) where
  remove_client-at :
      (e : l.raw_client_list ≡ front ++ c ∷ back)
      → is_assigned c.id front ≡ false
      → remove_client c.id l ≡ ok (some c, without l c.id front back)
  unfolding remove_client
  remove_client-at e p =
      rw
        (
          e,
          find_removed-found c.id (2 ^ 32 - 1) 0 c front back refl p (eq→== c.id c.id refl)
              (omega (arith, few l c front back v e)),
          zero-add,
          lt→ltb (length front) (length (front ++ c ∷ back))
              (omega (arith, length-append front (c ∷ back))),
          erase_idx-append front back c,
        )
        refl

  Split-Removes :
      l.raw_client_list ≡ front ++ c ∷ back → is_assigned c.id front ≡ false → Removes c.id c l
  Split-Removes e p = (
    without l c.id front back,
    remove_client-at e p,
    without-IsValid l c front back v e,
    refl,
    λ j. rw e (at-skip c.id j c front back (eq→== c.id c.id refl) p (back_free l c front back v e)),
  )

-- Removing an identifier in use deletes the client that has it, leaves every other client reachable
-- under its own identifier, puts the identifier at the end of the queue, and keeps the identifiers
-- valid.
pub remove_client-found :
    (id : ℕ) (c : Client) (l : ClientsList)
    → IsValid l
    → at id l.raw_client_list ≡ some c
    → Removes id c l
remove_client-found id c l v e =
    let sp = at-Split id l.raw_client_list e in
    let same : c.id ≡ id = ==→eq c.id id sp.is_id in
    subst (λ i. Removes i c l) same
      (Split-Removes l c v sp.front sp.back sp.splits (rw same sp.passed))

-- The other clients keep their places.
pub remove_client-splits :
    (id : ℕ) (c : Client) (l : ClientsList)
    → IsValid l
    → at id l.raw_client_list ≡ some c
    → (front : List Client) × (back : List Client) × (rest : ClientsList) × (l.raw_client_list
        ≡ front ++ c ∷ back)
      × (remove_client id l ≡ ok (some c, rest))
      × (rest.raw_client_list ≡ front ++ back)
remove_client-splits id c l v e =
    let sp = at-Split id l.raw_client_list e in
    let same : c.id ≡ id = ==→eq c.id id sp.is_id in
    (
      sp.front,
      sp.back,
      without l c.id sp.front sp.back,
      sp.splits,
      subst (λ i. remove_client i l ≡ ok (some c, without l c.id sp.front sp.back)) same
          (remove_client-at l c v sp.front sp.back sp.splits (rw same sp.passed)),
      refl,
    )

missing-index :
    (id : ℕ) (d : Client) (front : List Client)
    → is_assigned id (front ++ d ∷ []) ≡ false
    → length front < 2 ^ 32
    → find_removed id (2 ^ 32 - 1) (front ++ d ∷ []) ≡ (none, length front)
missing-index id d [] p b = find_removed-missing id (2 ^ 32 - 1) 0 d [] refl p (omega arith)
missing-index id d (e ∷ front) p b =
    find_removed-missing id (2 ^ 32 - 1) 0 e (front ++ d ∷ []) refl p
      (omega (arith, length-append front (d ∷ [])))
    ∙ ap (λ n. (none, n)) (omega (arith, length-append front (d ∷ [])))

-- Removing an identifier that no client has takes away the last client, whichever it is, without
-- deleting it, and queues the identifier; with no clients at all the erasure is undefined.
pub remove_client-missing :
    (id : ℕ) (last : Client) (front : List Client) (l : ClientsList)
    → l.raw_client_list ≡ front ++ last ∷ []
    → is_assigned id l.raw_client_list ≡ false
    → length front < 2 ^ 32
    → (remove_client id l
        ≡ ok (none, record { avaliable_ids = l.avaliable_ids ++ id ∷ []; raw_client_list = front }))
      × (remove_client id (record l { raw_client_list = [] }) ≡ err undefined)
unfolding remove_client
remove_client-missing id last front l e p b = (
  rw
      (
        e,
        missing-index id last front (rw e at p) b,
        lt→ltb (length front) (length (front ++ last ∷ []))
            (omega (arith, length-append front (last ∷ []))),
        erase_idx-append front [] last,
        append-nil,
      )
      refl,
  refl,
)
