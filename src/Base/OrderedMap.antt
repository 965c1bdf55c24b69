-- ===== src/Base/OrderedMap.antt =====
-- `std::map` over an ordered key: the entries in the order of iteration, each key once.
use mathlib.Core.List.{Sublistᴰ}
use mathlib.Core.List.Sublistᴰ
use Prim.Native.Nat.{ℕ, ◌+◌, ◌≤◌}
use mathlib.Core.Logic.{◌≢◌, inl, inr}
use mathlib.Core.Path.{◌≡◌, refl}
use mathlib.Core.Bool.{Bool, true, false}
use mathlib.Core.List.{List, [], ◌∷◌}
use mathlib.Core.Option.{Option, none, some}
use native.Mathlib.Omega.{arith}
use minority_viewport.Base.Tests.{if◌then◌else◌, Bool-cases, ltb}
use minority_viewport.Base.Lists.{Bytes, length, All}

-- A strict order on keys, the container's `std::less`.
pub record KeyOrder (K : Type 0) : Type 0 where
  pub before : K → K → Bool
  pub before_irrefl : (a : K) → before a a ≡ false
  pub before_trans : (a b c : K) → before a b ≡ true → before b c ≡ true → before a c ≡ true
  pub before_total : (a b : K) → before a b ≡ false → before b a ≡ false → a ≡ b

pub ltb_irrefl : (a : ℕ) → ltb a a ≡ false
ltb_irrefl a = ground arith

pub ltb_trans : (a b c : ℕ) → ltb a b ≡ true → ltb b c ≡ true → ltb a c ≡ true
ltb_trans a b c h k = ground arith

pub ltb-total : (a b : ℕ) → ltb a b ≡ false → ltb b a ≡ false → a ≡ b
ltb-total a b h k = ground arith

module _ {K : Type 0} ⦃o : KeyOrder K⦄ where
  before_asym : (a b : K) → o.before a b ≡ true → o.before b a ≡ false
  before_asym a b h = elim (Bool-cases (o.before b a)) [
    | inl k ↦ cc (o.before_trans a b a h k, o.before_irrefl a)
    | inr k ↦ k
  ]

module _ {K : Type 0} ⦃o : KeyOrder K⦄ {V : Type 0} where
  unfoldable pub find : K → List (K × V) → Option V
  find k [] = none
  find k ((j, v) ∷ m) = if o.before k j then none else if o.before j k then find k m else some v

  -- `map::insert` leaves an entry that is there.
  unfoldable pub insert : K → V → List (K × V) → List (K × V)
  insert k v [] = (k, v) ∷ []
  insert k v ((j, w) ∷ m) =
      if o.before k j
      then (k, v) ∷ (j, w) ∷ m
      else if o.before j k
      then (j, w) ∷ insert k v m
      else (j, w) ∷ m

  unfoldable pub erase : K → List (K × V) → List (K × V)
  erase k [] = []
  erase k ((j, w) ∷ m) =
      if o.before k j then (j, w) ∷ m else if o.before j k then (j, w) ∷ erase k m else m

  -- All keys come after `k`.
  abbrev pub Above : K → List (K × V) → Type 0
  Above k = All (λ e. o.before k e.0 ≡ true)

  abbrev pub IsSorted : List (K × V) → Type 0
  IsSorted [] = Unit {0}
  IsSorted ((k, v) ∷ m) = Above k m × IsSorted m

  Above-mono : (k j : K) (m : List (K × V)) → o.before k j ≡ true → Above j m → Above k m
  Above-mono k j [] h a = tt
  Above-mono k j ((i, v) ∷ m) h a = (o.before_trans k j i h a.0, Above-mono k j m h a.1)

  Above-insert :
      (k j : K) (v : V) (m : List (K × V))
      → o.before j k ≡ true
      → Above j m
      → Above j (insert k v m)
  unfolding insert
  Above-insert k j v [] h a = (h, tt)
  Above-insert k j v ((i, w) ∷ m) h a = ground (arith, Above-insert k j v m h a.1)

  pub insert-IsSorted : (k : K) (v : V) (m : List (K × V)) → IsSorted m → IsSorted (insert k v m)
  unfolding insert
  insert-IsSorted k v [] s = (tt, tt)
  insert-IsSorted k v ((j, w) ∷ m) s =
      ground (arith, insert-IsSorted k v m s.1, Above-insert k j v m, Above-mono k j m)

  -- The entries that stay are as they were, in their order.
  pub erase-Sublist : (k : K) (m : List (K × V)) → Sublistᴰ (erase k m) m
  unfolding erase
  erase-Sublist k [] = Sublistᴰ.slnil
  erase-Sublist k ((j, w) ∷ m) = elim (Bool-cases (o.before k j)) [
    | inl below ↦ rw below (Sublistᴰ.refl ((j, w) ∷ m))
    | inr above ↦ elim (Bool-cases (o.before j k)) [
      | inl beyond ↦ rw (above, beyond) (Sublistᴰ.cons-cons refl (erase-Sublist k m))
      | inr there ↦ rw (above, there) (Sublistᴰ.cons (Sublistᴰ.refl m))
    ]
  ]

  Above-erase : (k j : K) (m : List (K × V)) → Above j m → Above j (erase k m)
  unfolding erase
  Above-erase k j [] a = tt
  Above-erase k j ((i, w) ∷ m) a = ground (arith, Above-erase k j m a.1)

  pub erase-IsSorted : (k : K) (m : List (K × V)) → IsSorted m → IsSorted (erase k m)
  unfolding erase
  erase-IsSorted k [] s = tt
  erase-IsSorted k ((j, w) ∷ m) s = ground (arith, erase-IsSorted k m s.1, Above-erase k j m s.0)

  find-Above : (k : K) (m : List (K × V)) → Above k m → find k m ≡ none
  unfolding find
  find-Above k [] a = refl
  find-Above k ((j, v) ∷ m) a = ground (arith, a.0)

  pub find-erase_self : (k : K) (m : List (K × V)) → IsSorted m → find k (erase k m) ≡ none
  unfolding find erase
  find-erase_self k [] s = refl
  find-erase_self k ((j, v) ∷ m) s =
      ground (arith, find-erase_self k m s.1, find-Above k m, o.before_total k j)

  pub find-insert_self :
      (k : K) (v : V) (m : List (K × V)) → find k m ≡ none → find k (insert k v m) ≡ some v
  unfolding find insert
  find-insert_self k v [] e = ground (arith, o.before_irrefl k)
  find-insert_self k v ((j, w) ∷ m) e =
      ground (arith, find-insert_self k v m, o.before_irrefl k, before_asym k j)

  pub find-insert_ne :
      (k j : K) (v : V) (m : List (K × V)) → k ≢ j → find j (insert k v m) ≡ find j m
  unfolding find insert
  find-insert_ne k j v [] n = ground (arith, o.before_total k j)
  find-insert_ne k j v ((i, w) ∷ m) n =
      ground (arith, find-insert_ne k j v m n, o.before_total k j, o.before_trans j k i)

  find_below : (j k : K) (m : List (K × V)) → o.before j k ≡ true → Above k m → find j m ≡ none
  unfolding find
  find_below j k [] h a = refl
  find_below j k ((i, w) ∷ m) h a = ground (arith, o.before_trans j k i h a.0)

  pub find-erase_ne :
      (k j : K) (m : List (K × V)) → IsSorted m → k ≢ j → find j (erase k m) ≡ find j m
  unfolding find erase
  find-erase_ne k j [] s n = refl
  find-erase_ne k j ((i, w) ∷ m) s n = ground (
    arith,
    find-erase_ne k j m s.1 n,
    o.before_total k j,
    o.before_total k i,
    o.before_total i k,
    find_below j i m,
  )

  pub length-erase : (k : K) (m : List (K × V)) → length (erase k m) ≤ length m
  unfolding erase
  length-erase k [] = omega arith
  length-erase k ((j, w) ∷ m) = ground (arith, length-erase k m)

  -- Erasing a key that is there makes the map shorter by one.
  pub length-erase_found :
      (k : K) (v : V) (m : List (K × V)) → find k m ≡ some v → length (erase k m) + 1 ≡ length m
  unfolding find erase
  length-erase_found k v [] e = cc
  length-erase_found k v ((j, w) ∷ m) e = ground (arith, length-erase_found k v m)

  pub erase_absent : (k : K) (m : List (K × V)) → find k m ≡ none → erase k m ≡ m
  unfolding find erase
  erase_absent k [] e = refl
  erase_absent k ((j, w) ∷ m) e = ground (arith, erase_absent k m)

  pub length-insert : (k : K) (v : V) (m : List (K × V)) → length (insert k v m) ≤ length m + 1
  unfolding insert
  length-insert k v [] = omega arith
  length-insert k v ((j, w) ∷ m) = ground (arith, length-insert k v m)

-- Numbers in their order.
instance abbrev pub number_order : KeyOrder ℕ
number_order = record {
  before = ltb;
  before_irrefl = ltb_irrefl;
  before_trans = ltb_trans;
  before_total = ltb-total;
}

-- `std::string`s in the order of their bytes, a prefix first.
abbrev pub bytes_before : Bytes → Bytes → Bool
bytes_before [] [] = false
bytes_before [] (y ∷ ys) = true
bytes_before (x ∷ xs) [] = false
bytes_before (x ∷ xs) (y ∷ ys) =
    if ltb x y then true else if ltb y x then false else bytes_before xs ys

pub bytes_before_irrefl : (a : Bytes) → bytes_before a a ≡ false
bytes_before_irrefl [] = refl
bytes_before_irrefl (x ∷ xs) = ground (arith, bytes_before_irrefl xs)

pub bytes_before_trans :
    (a b c : Bytes) → bytes_before a b ≡ true → bytes_before b c ≡ true → bytes_before a c ≡ true
bytes_before_trans a [] [] h k = h
bytes_before_trans a (y ∷ ys) [] h k = cc
bytes_before_trans [] b (z ∷ zs) h k = refl
bytes_before_trans (x ∷ xs) [] (z ∷ zs) h k = cc
bytes_before_trans (x ∷ xs) (y ∷ ys) (z ∷ zs) h k = ground (arith, bytes_before_trans xs ys zs)

pub bytes_before-total : (a b : Bytes) → bytes_before a b ≡ false → bytes_before b a ≡ false → a ≡ b
bytes_before-total [] [] h k = refl
bytes_before-total [] (y ∷ ys) h k = cc
bytes_before-total (x ∷ xs) [] h k = cc
bytes_before-total (x ∷ xs) (y ∷ ys) h k = ground (arith, bytes_before-total xs ys)

instance abbrev pub bytes_order : KeyOrder Bytes
bytes_order = record {
  before = bytes_before;
  before_irrefl = bytes_before_irrefl;
  before_trans = bytes_before_trans;
  before_total = bytes_before-total;
}
