-- ===== src/Data/ClientsList/Registry.antt =====
-- What the list of clients promises, whatever the order in which it keeps them: a partial map from
-- identifiers to what was said of the client at its registration.
use mathlib.Core.Option
use minority_viewport.Base.{
  ℕ, ◌≤◌, List, [], ◌∷◌, ◌++◌, Bytes, Option, none, some, ok, false, ◌==◌, if◌then◌else◌, ◌≡◌, refl,
  sym, ap, ◌∙◌, arith, Bool-cases, inl, inr, ==→eq, All,
}
use minority_viewport.Data.Client.{Client, new_client}
use minority_viewport.Data.ClientsList.{
  ClientsList, at, set_at, is_assigned, add_client, remove_client,
}
use minority_viewport.Data.ClientsList.Ids.{IsValid, ids, ids-append, add_client-IsValid}
use minority_viewport.Data.ClientsList.Removal.{remove_client-found}
use minority_viewport.Data.ClientsList.Removal.Searching.{at-none}

-- The location and the address of the client with an identifier.
abbrev pub Registry : Type 0
Registry = ℕ → Option (Bytes × Bytes)

abbrev pub information : Client → Bytes × Bytes
information c = (c.location, c.ip_addr)

abbrev pub lookup : List Client → Registry
lookup cs j = Option.map information (at j cs)

abbrev pub registry : ClientsList → Registry
registry l = lookup l.raw_client_list

abbrev pub assign : ℕ → Option (Bytes × Bytes) → Registry → Registry
assign id information r j = if id == j then information else r j

-- A client enters under an identifier from 1 to 1000 that was free, with what was said of it.
pub record Enters (id : ℕ) (entry : Bytes × Bytes) (r t : Registry) : Type 0 where
  pub free : r id ≡ none
  pub positive : 1 ≤ id
  pub bounded : id ≤ 1000
  pub result : (j : ℕ) → t j ≡ assign id (some entry) r j

-- The client of an identifier leaves.
pub record Leaves (id : ℕ) (r t : Registry) : Type 0 where
  pub entry : Bytes × Bytes
  pub used : r id ≡ some entry
  pub result : (j : ℕ) → t j ≡ assign id none r j

at-append :
    (j id : ℕ) (c : Client) (cs : List Client)
    → is_assigned id cs ≡ false
    → c.id ≡ id
    → at j (cs ++ c ∷ []) ≡ (if id == j then some c else at j cs)
unfolding at is_assigned
at-append j id c [] p e = rw e refl
at-append j id c (d ∷ cs) p e = ground (arith, at-append j id c cs, e)

lookup-append :
    (id : ℕ) (location ip_addr : Bytes) (cs : List Client)
    → is_assigned id cs ≡ false
    → (j : ℕ)
    → lookup (cs ++ new_client id location ip_addr ∷ []) j
      ≡ assign id (some (location, ip_addr)) (lookup cs) j
lookup-append id location ip_addr cs p j =
    ap (Option.map information) (at-append j id (new_client id location ip_addr) cs p refl)
    ∙ elim (Bool-cases (id == j)) [ inl e ↦ rw e refl | inr e ↦ rw e refl ]

last-All : (P : ℕ → Type 0) (xs ys : List ℕ) (x : ℕ) → All P ((xs ++ x ∷ []) ++ ys) → P x
last-All P [] ys x p = p.0
last-All P (y ∷ xs) ys x p = last-All P xs ys x p.1

-- A registration is a client that enters.
pub add_client-Enters :
    (fuel : ℕ) (draws : ℕ → ℕ) (location ip_addr : Bytes) (l : ClientsList) {id : ℕ}
    {l' : ClientsList}
    → IsValid l
    → add_client fuel draws location ip_addr l ≡ ok (id, l')
    → Enters id (location, ip_addr) (registry l) (registry l')
add_client-Enters fuel draws location ip_addr l {id} {l'} v e =
    let (w, free, last) = add_client-IsValid fuel draws location ip_addr l v e in
    let cs = l.raw_client_list in
    let within =
      last-All (λ x. (1 ≤ x) × (x ≤ 1000)) (ids cs) l'.avaliable_ids id
        (rw (last, ids-append cs (new_client id location ip_addr ∷ [])) at w.within) in
    record {
      free = ap (Option.map information) (at-none id cs free);
      positive = within.0;
      bounded = within.1;
      result = λ j. ap (λ ds. lookup ds j) last ∙ lookup-append id location ip_addr cs free j;
    }

-- The removal of a client in use is a client that leaves.
pub remove_client-Leaves :
    (id : ℕ) (c : Client) (l : ClientsList)
    → IsValid l
    → at id l.raw_client_list ≡ some c
    → (rest : ClientsList) × (remove_client id l ≡ ok (some c, rest))
      × Leaves id (registry l) (registry rest)
remove_client-Leaves id c l v e =
    let (rest, removed, valid, queued, lookups) = remove_client-found id c l v e in
    (
      rest,
      removed,
      record {
        entry = information c;
        used = ap (Option.map information) e;
        result = λ j.
            ap (Option.map information) (lookups j)
            ∙ elim (Bool-cases (id == j)) [ inl hit ↦ rw hit refl | inr miss ↦ rw miss refl ];
      },
    )

lookup-cons :
    (c : Client) (cs : List Client) (j : ℕ)
    → lookup (c ∷ cs) j ≡ (if c.id == j then some (information c) else lookup cs j)
unfolding at
lookup-cons c cs j = elim (Bool-cases (c.id == j)) [ inl e ↦ rw e refl | inr e ↦ rw e refl ]

-- A client that keeps what was said of it takes its own place.
pub lookup-set_at :
    (id : ℕ) (c d : Client) (cs : List Client)
    → at id cs ≡ some c
    → d.id ≡ id
    → information d ≡ information c
    → (j : ℕ) → lookup (set_at id d cs) j ≡ lookup cs j
unfolding at set_at
lookup-set_at id c d [] e same kept j = refl
lookup-set_at id c d (x ∷ cs) e same kept j = elim (Bool-cases (x.id == id)) [
  | inl hit ↦
      let first : x ≡ c = cc (rw hit at e) in
      let ids_agree : d.id ≡ x.id = same ∙ sym (==→eq x.id id hit) in
      let agree : information d ≡ information x = kept ∙ ap information (sym first) in
      rw hit (lookup-cons d cs j ∙ rw (ids_agree, agree) (sym (lookup-cons x cs j)))
  | inr miss ↦
      let ih = lookup-set_at id c d cs (rw miss at e) same kept j in
      rw miss (lookup-cons x (set_at id d cs) j ∙ rw ih (sym (lookup-cons x cs j)))
]
