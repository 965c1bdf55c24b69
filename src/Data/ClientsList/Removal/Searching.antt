-- ===== src/Data/ClientsList/Removal/Searching.antt =====
-- Where the loops over the list of clients find an identifier, or that they do not.
use minority_viewport.Base.{
  ℕ, ◌+◌, ◌^◌, ◌<◌, true, false, List, [], ◌∷◌, ◌++◌, none, some, length, ◌==◌, if◌then◌else◌, ◌≡◌,
  refl, ap, arith, Bool-cases, inl, inr,
}
use minority_viewport.Data.Client.{Client}
use minority_viewport.Data.ClientsList.{is_assigned, next_idx, find_removed, at}

-- Where a client with the identifier stands first.
pub record Split (id : ℕ) (c : Client) (cs : List Client) : Type 0 where
  pub front : List Client
  pub back : List Client
  pub splits : cs ≡ front ++ c ∷ back
  pub passed : is_assigned id front ≡ false
  pub is_id : (c.id == id) ≡ true

pub at-Split : (id : ℕ) (cs : List Client) {c : Client} → at id cs ≡ some c → Split id c cs
unfolding at is_assigned
at-Split id [] e = cc
at-Split id (d ∷ cs) {c} e = elim (Bool-cases (d.id == id)) [
  | inl hit ↦
      let same : d ≡ c = cc (rw (hit, at) at e) in
      record {
        front = [];
        back = cs;
        splits = ap (λ x. x ∷ cs) same;
        passed = refl;
        is_id = rw same at hit;
      }
  | inr miss ↦
      let rest = at-Split id cs (rw (miss, at) at e) in
      record {
        front = d ∷ rest.front;
        back = rest.back;
        splits = ap (◌∷◌ d) rest.splits;
        passed = rw (miss, is_assigned) rest.passed;
        is_id = rest.is_id;
      }
]

-- The loop stops at that client, with its index.
pub find_removed-found :
    (id idx i : ℕ) (c : Client) (front back : List Client)
    → next_idx idx ≡ i
    → is_assigned id front ≡ false
    → (c.id == id) ≡ true
    → i + length front < 2 ^ 32
    → find_removed id idx (front ++ c ∷ back) ≡ (some c, i + length front)
unfolding find_removed is_assigned
find_removed-found id idx i c [] back n p e b = ground arith
find_removed-found id idx i c (d ∷ front) back n p e b =
    ground (arith, find_removed-found id (next_idx idx) (i + 1) c front back)

-- Without one it goes through all clients and stops at the last.
pub find_removed-missing :
    (id idx i : ℕ) (d : Client) (cs : List Client)
    → next_idx idx ≡ i
    → is_assigned id (d ∷ cs) ≡ false
    → i + length cs < 2 ^ 32
    → find_removed id idx (d ∷ cs) ≡ (none, i + length cs)
unfolding find_removed is_assigned
find_removed-missing id idx i d [] n p b = ground arith
find_removed-missing id idx i d (e ∷ cs) n p b =
    ground (arith, find_removed-missing id (next_idx idx) (i + 1) e cs)

pub at-none : (id : ℕ) (cs : List Client) → is_assigned id cs ≡ false → at id cs ≡ none
unfolding at is_assigned
at-none id [] p = refl
at-none id (c ∷ cs) p = ground (arith, at-none id cs)

pub at-skip :
    (id j : ℕ) (c : Client) (front back : List Client)
    → (c.id == id) ≡ true
    → is_assigned id front ≡ false
    → is_assigned id back ≡ false
    → at j (front ++ back) ≡ (if id == j then none else at j (front ++ c ∷ back))
unfolding at is_assigned
at-skip id j c [] back e p q = ground (arith, at-none id back q)
at-skip id j c (d ∷ front) back e p q = ground (arith, at-skip id j c front back)
