-- ===== src/Networks/Server/Accepting.antt =====
-- Which connections are started, and on which io_service each runs.
use native.Mathlib.Nat.{zero-mod, suc-mod, mod-lt, mod_self, mod-eq_of_lt}
use minority_viewport.Base.{
  ℕ, zero, suc, ◌+◌, ◌%◌, ◌<◌, Bool, true, false, List, [], ◌∷◌, ◌++◌, append_assoc, append-nil,
  some, ok, get_elem?, length, ◌==◌, ==→eq, if◌then◌else◌, ◌≡◌, refl, sym, ap, ◌∙◌, arith,
  Bool-cases, inl, inr, All,
}
use minority_viewport.Networks.Reply.{StatusType}
use minority_viewport.Networks.Connection.{Asked, start}
use minority_viewport.Networks.IoServicePool.{
  IoServicePool, push_services, new_pool, next_index, get_io_service, run_returns, stop,
  join_threads, is_stopped, stop_services,
}
use minority_viewport.Networks.IoServicePool.Turns.{length-push_services}
use minority_viewport.Networks.Server.{
  Accepted, HttpServer, made_connection, start_accept, handle_accept, new_server, accepts,
  handle_stop,
}

module _ (address : ℕ → ℕ) where
  get_elem?-push_services :
      (i n j : ℕ) → j < n → get_elem? (push_services address i n) j ≡ some (address (i + j))
  get_elem?-push_services i zero j h = absurd (omega arith)
  get_elem?-push_services i (suc n) zero h = ap (λ (k : ℕ). some (address k)) (omega arith)
  get_elem?-push_services i (suc n) (suc j) h =
      get_elem?-push_services (i + 1) n j (omega arith)
      ∙ ap (λ (k : ℕ). some (address k)) (omega arith)

  -- The pool of n + 1 services before its k-th turn.
  abbrev at_turn : ℕ → ℕ → IoServicePool
  at_turn n k = record {
    io_services = push_services address 0 (suc n);
    next_io_service = k % suc n;
  }

  next_turn : (n k : ℕ) → next_index (at_turn n k) ≡ suc k % suc n
  next_turn n k =
      let step = suc-mod k (suc n) in
      elim (Bool-cases (k % suc n + 1 == suc n)) [
        | inl last ↦
            let wraps : suc (k % suc n) ≡ suc n =
              omega (arith, ==→eq (k % suc n + 1) (suc n) last) in
            rw (length-push_services address 1 n, last)
              (sym (step ∙ ap (λ x. x % suc n) wraps ∙ mod_self (suc n)))
        | inr inside ↦
            let below : suc (k % suc n) < suc n =
              ground (arith, mod-lt k {m = suc n} (omega arith), inside) in
            rw (length-push_services address 1 n, inside)
              (omega (arith, sym (step ∙ mod-eq_of_lt below)))
      ]

  get_io_service-turn :
      (n k : ℕ) → get_io_service (at_turn n k) ≡ ok (address (k % suc n), at_turn n (suc k))
  unfolding get_io_service
  get_io_service-turn n k =
      rw (get_elem?-push_services 0 (suc n) (k % suc n) (mod-lt k (omega arith)), next_turn n k)
        (ap (λ (i : ℕ). ok (address i, at_turn n (suc k))) (omega arith))

-- What is stopped stays so.
stays_stopped :
    (s : ℕ) (ss stopped : List ℕ)
    → is_stopped stopped s ≡ true
    → is_stopped (stop_services ss stopped) s ≡ true
stays_stopped s [] stopped e = e
stays_stopped s (x ∷ ss) stopped e = stays_stopped s ss (x ∷ stopped) (ground (arith, e))

stop_services-All :
    (ss stopped : List ℕ) → All (λ i. is_stopped (stop_services ss stopped) i ≡ true) ss
stop_services-All [] stopped = tt
stop_services-All (s ∷ ss) stopped =
    (stays_stopped s ss (s ∷ stopped) (ground arith), stop_services-All ss (s ∷ stopped))

join_threads-stopped : (ss stopped : List ℕ) → join_threads ss (stop_services ss stopped) ≡ true
join_threads-stopped [] stopped = refl
join_threads-stopped (s ∷ ss) stopped =
    rw (stays_stopped s ss (s ∷ stopped) (ground arith), join_threads-stopped ss (s ∷ stopped)) refl

module _ (address : ℕ → ℕ) (n : ℕ) (garbage : ℕ → ℕ × ℕ × StatusType) where
  -- The k-th connection: two services were handed out before, to the signals and the acceptor.
  abbrev pub on_turn : ℕ → Accepted
  on_turn k = record {
    io_service = address ((k + 2) % suc n);
    connection = made_connection garbage k;
  }

  -- The connections whose accepts completed without an error, from the k-th on.
  abbrev pub served : ℕ → List Bool → List (Accepted × Asked)
  served k [] = []
  served k (true ∷ es) = served (k + 1) es
  served k (false ∷ es) = (on_turn k, start) ∷ served (k + 1) es

  -- The server that waits for its k-th accept.
  abbrev waiting : ℕ → List (Accepted × Asked) → HttpServer
  waiting k started = record {
    io_service_pool_ = at_turn address n (k + 3);
    stopped = [];
    signals_ = address (0 % suc n);
    acceptor_ = address (1 % suc n);
    new_connection_ = some (on_turn k);
    started = started;
    made = k + 1;
  }

  new_server-waiting : new_server garbage (at_turn address n 0) ≡ ok (waiting 0 [])
  unfolding new_server start_accept
  new_server-waiting =
      rw
        (
          get_io_service-turn address n 0,
          get_io_service-turn address n 1,
          get_io_service-turn address n 2,
        )
        refl

  next_waiting :
      (k : ℕ) (started : List (Accepted × Asked))
      → record (waiting k started) {
        io_service_pool_ = at_turn address n (suc (k + 3));
        new_connection_ = some (record {
          io_service = address ((k + 3) % suc n);
          connection = made_connection garbage (k + 1);
        });
        made = k + 1 + 1;
      }
        ≡ waiting (k + 1) started
  next_waiting k started =
      let turn : suc (k + 3) ≡ k + 1 + 3 = omega arith in
      let place : k + 3 ≡ k + 1 + 2 = omega arith in rw (turn, place) refl

  handle_accept-waiting :
      (k : ℕ) (e : Bool) (started : List (Accepted × Asked))
      → handle_accept garbage e (waiting k started)
        ≡ ok (waiting (k + 1) (if e then started else started ++ (on_turn k, start) ∷ []))
  unfolding handle_accept start_accept
  handle_accept-waiting k true started =
      rw (get_io_service-turn address n (k + 3)) (ap ok (next_waiting k started))
  handle_accept-waiting k false started =
      rw (get_io_service-turn address n (k + 3))
        (ap ok (next_waiting k (started ++ (on_turn k, start) ∷ [])))

  accepts-waiting :
      (k : ℕ) (es : List Bool) (started : List (Accepted × Asked))
      → accepts garbage es (waiting k started)
        ≡ ok (waiting (k + length es) (started ++ served k es))
  unfolding accepts
  accepts-waiting k [] started =
      let none_more : k ≡ k + 0 = omega arith in rw (append-nil, ← none_more) refl
  accepts-waiting k (true ∷ es) started = rw (handle_accept-waiting k true started) (
      accepts-waiting (k + 1) es started
      ∙ ap (λ i. ok (waiting i (started ++ served (k + 1) es))) (omega arith))
  accepts-waiting k (false ∷ es) started = rw (handle_accept-waiting k false started) (
      accepts-waiting (k + 1) es (started ++ (on_turn k, start) ∷ [])
      ∙ ap (λ l. ok (waiting (k + 1 + length es) l)) (append_assoc started _ _)
      ∙ ap (λ i. ok (waiting i (started ++ (on_turn k, start) ∷ served (k + 1) es))) (omega arith))

  -- On a server with one io_service or more, in whatever order its accepts succeed and fail: exactly
  -- the connections whose accepts succeeded are started, in that order, each of which first asks for
  -- bytes to read; the k-th connection, counted from 0 over all accepts, is on the io_service k + 2 in
  -- turn; and one more connection waits for the next accept. No io_service is stopped while the server
  -- accepts, and after `handle_stop` each of the pool's is, so that the call of `run` on the pool
  -- returns.
  pub accepts-new_server :
      (es : List Bool)
      → (p : IoServicePool) × (s : HttpServer) × (s' : HttpServer) × (new_pool address (suc n)
          ≡ some p)
        × (new_server garbage p ≡ ok s)
        × (accepts garbage es s ≡ ok s')
        × (s'.started ≡ served 0 es)
        × (s'.new_connection_ ≡ some (on_turn (length es)))
        × ((i : ℕ) → is_stopped s'.stopped i ≡ false)
        × All (λ i. is_stopped (handle_stop s').stopped i ≡ true) s'.io_service_pool_.io_services
        × (run_returns s'.io_service_pool_ (handle_stop s').stopped ≡ true)
  unfolding new_pool run_returns stop handle_stop
  accepts-new_server es =
      let p = at_turn address n 0 in
      let s' = waiting (0 + length es) ([] ++ served 0 es) in
      (
        p,
        waiting 0 [],
        s',
        ap
            (λ i.
              some (record { io_services = push_services address 0 (suc n); next_io_service = i }))
            (sym (zero-mod (suc n))),
        new_server-waiting,
        accepts-waiting 0 es [],
        refl,
        ap (λ k. some (on_turn k)) (omega arith),
        λ i. refl,
        stop_services-All (push_services address 0 (suc n)) [],
        join_threads-stopped (push_services address 0 (suc n)) [],
      )
