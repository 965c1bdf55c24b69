-- ===== src/Networks/IoServicePool.antt =====
-- Networks/IOServicePool.h and Networks/IOServicePool.cpp: the choice of an io_service, and the run of
-- all. A service is its address, and `new` answers with addresses that are a parameter. What a service
-- does while it runs is left to the library, of which this is used: a service that has a `work` object
-- runs until it is stopped.
pub mod Turns
use minority_viewport.Base.{
  Bool, true, false, ◌&&◌, ◌||◌, ℕ, zero, suc, ◌+◌, List, [], ◌∷◌, ◌++◌, Option, none, some, Result,
  ok, undefined, or_fault, ◌>>=◌, ◌==◌, if◌then◌else◌, get_elem?, length,
}

pub record IoServicePool : Type 0 where
  pub io_services : List ℕ
  pub next_io_service : ℕ

-- The constructor's loop, from the i-th round on.
abbrev pub push_services : (ℕ → ℕ) → ℕ → ℕ → List ℕ
push_services address i zero = []
push_services address i (suc n) = address i ∷ push_services address (i + 1) n

-- `none`: a `std::runtime_error` is thrown.
unfoldable pub new_pool : (ℕ → ℕ) → ℕ → Option IoServicePool
new_pool address zero = none
new_pool address (suc n) =
    some (record { io_services = push_services address 0 (suc n); next_io_service = 0 })

-- The index behind the one used, or 0 from the last one.
abbrev pub next_index : IoServicePool → ℕ
next_index p = let i = p.next_io_service + 1 in if i == length p.io_services then 0 else i

-- The vector's index is not checked.
unfoldable pub get_io_service : IoServicePool → Result (ℕ × IoServicePool)
get_io_service p = do
  io_service ← or_fault (get_elem? p.io_services p.next_io_service) undefined
  ok (io_service, record p { next_io_service = next_index p })

-- The loop of `stop`, from the services that are stopped already.
abbrev pub stop_services : List ℕ → List ℕ → List ℕ
stop_services [] stopped = stopped
stop_services (s ∷ ss) stopped = stop_services ss (s ∷ stopped)

unfoldable pub stop : IoServicePool → List ℕ → List ℕ
stop p stopped = stop_services p.io_services stopped

abbrev pub is_stopped : List ℕ → ℕ → Bool
is_stopped [] s = false
is_stopped (x ∷ xs) s = (x == s) || is_stopped xs s

-- The loop of `run` that joins the threads, of which there is one for each service: does it end once
-- some services are stopped?
abbrev pub join_threads : List ℕ → List ℕ → Bool
join_threads [] stopped = true
join_threads (s ∷ ss) stopped = is_stopped stopped s && join_threads ss stopped

unfoldable pub run_returns : IoServicePool → List ℕ → Bool
run_returns p stopped = join_threads p.io_services stopped
