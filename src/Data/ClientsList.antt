-- ===== src/Data/ClientsList.antt =====
-- Data/ClientsList.h and Data/ClientsList.cpp: the registered clients and their identifiers. The
-- answers of `rand()` in a call are a parameter.
pub mod Ids
pub mod Draws
pub mod Removal
pub mod Registry
use minority_viewport.Base.{
  ℕ, zero, suc, ◌+◌, ◌-◌, ◌%◌, ◌^◌, Bool, true, false, Bytes, List, [], ◌∷◌, ◌++◌, Option, none,
  some, Result, ok, err, undefined, no_fuel, or_fault, ◌>>=◌, ◌==◌, if◌then◌else◌, get_elem?,
  erase_idx, length, ltb,
}
use minority_viewport.Data.Client.{Client, new_client}

abbrev pub min_id_num : ℕ
min_id_num = 1

abbrev pub max_id_num : ℕ
max_id_num = 1000

-- The front of the queue comes first.
pub record ClientsList : Type 0 where
  pub avaliable_ids : List ℕ
  pub raw_client_list : List Client

unfoldable pub new_clients_list : ClientsList
new_clients_list = record { avaliable_ids = []; raw_client_list = [] }

abbrev pub size : ClientsList → ℕ
size l = length l.raw_client_list

-- `ClientIdIsPrevAssigned`, over the vector.
unfoldable pub is_assigned : ℕ → List Client → Bool
is_assigned id [] = false
is_assigned id (c ∷ cs) = if c.id == id then true else is_assigned id cs

-- The loop that draws until an identifier is free: `draws k` is the answer of the k-th `rand()`.
unfoldable pub draw_id : ℕ → (ℕ → ℕ) → ℕ → List Client → Result ℕ
draw_id zero draws k cs = err no_fuel
draw_id (suc fuel) draws k cs =
    let again = draw_id fuel draws (k + 1) cs in
    let id = draws k % max_id_num + min_id_num in if is_assigned id cs then again else ok id

unfoldable pub generate_next_client_id : ℕ → (ℕ → ℕ) → ClientsList → Result (ℕ × ClientsList)
generate_next_client_id fuel draws l = elim l.avaliable_ids [
  | [] ↦ do id ← draw_id fuel draws 0 l.raw_client_list; ok (id, l)
  | id ∷ ids ↦ ok (id, record l { avaliable_ids = ids })
]

unfoldable pub add_client : ℕ → (ℕ → ℕ) → Bytes → Bytes → ClientsList → Result (ℕ × ClientsList)
unfolding generate_next_client_id
add_client fuel draws location ip_addr l = do
  (id, l') ← generate_next_client_id fuel draws l
  ok (id, record l' { raw_client_list = l'.raw_client_list ++ new_client id location ip_addr ∷ [] })

-- `++` on an `unsigned int`.
abbrev pub next_idx : ℕ → ℕ
next_idx i = (i + 1) % 2 ^ 32

-- The loop of `RemoveClient`: the client deleted, if there is one, and the index when the loop ends.
unfoldable pub find_removed : ℕ → ℕ → List Client → Option Client × ℕ
find_removed id removed_idx [] = (none, removed_idx)
find_removed id removed_idx (c ∷ cs) =
    let rest = find_removed id (next_idx removed_idx) cs in
    if c.id == id then (some c, next_idx removed_idx) else rest

-- `erase(begin() + i)`, undefined from the end on.
abbrev pub erase_at : ℕ → List Client → Result (List Client)
erase_at i cs = if ltb i (length cs) then ok (erase_idx cs i) else err undefined

-- The index starts at -1. The client erased is the one deleted only if the loop found it.
unfoldable pub remove_client : ℕ → ClientsList → Result (Option Client × ClientsList)
unfolding find_removed
remove_client id l = do
  let (deleted, i) = find_removed id (2 ^ 32 - 1) l.raw_client_list
  rest ← erase_at i l.raw_client_list
  ok (deleted, record { avaliable_ids = l.avaliable_ids ++ id ∷ []; raw_client_list = rest })

-- `At`: `none` is the null pointer.
unfoldable pub at : ℕ → List Client → Option Client
at id [] = none
at id (c ∷ cs) = if c.id == id then some c else at id cs

-- `AtIdx`, which does not check the index.
unfoldable pub at_idx : ℕ → List Client → Result Client
at_idx idx cs = or_fault (get_elem? cs idx) undefined

-- A change made through the pointer that `At` returns.
unfoldable pub set_at : ℕ → Client → List Client → List Client
set_at id c [] = []
set_at id c (d ∷ cs) = if d.id == id then c ∷ cs else d ∷ set_at id c cs
