-- ===== src/Networks/Server.antt =====
-- Networks/Server.h and Networks/Server.cpp: the acceptance of connections. Resolving the address and
-- opening the acceptor is left to the library; `garbage k` is what the memory of the k-th connection
-- holds where its constructor leaves it as it is (the numbers of the request, the status of the reply).
-- The request handler is that of Networks/RequestHandler.antt.
pub mod Accepting
use minority_viewport.Base.{
  ℕ, ◌+◌, Bool, true, false, List, [], ◌∷◌, ◌++◌, Option, none, some, Result, ok, err, null_pointer,
  ◌>>=◌, if◌then◌else◌,
}
use minority_viewport.Networks.Reply.{StatusType}
use minority_viewport.Networks.Connection.{Connection, Asked, start, new_connection}
use minority_viewport.Networks.IoServicePool.{IoServicePool, get_io_service, stop}

-- A connection on an io_service.
pub record Accepted : Type 0 where
  pub io_service : ℕ
  pub connection : Connection

-- `signals_` and `acceptor_` are the io_services that these run on. `started` are the connections that
-- were started, with what each asked of its socket first, and `made` counts the calls of `new`.
pub record HttpServer : Type 0 where
  pub io_service_pool_ : IoServicePool
  pub stopped : List ℕ
  pub signals_ : ℕ
  pub acceptor_ : ℕ
  pub new_connection_ : Option Accepted
  pub started : List (Accepted × Asked)
  pub made : ℕ

module _ (garbage : ℕ → ℕ × ℕ × StatusType) where
  -- The k-th connection that is made.
  abbrev pub made_connection : ℕ → Connection
  made_connection k = new_connection (garbage k).0 (garbage k).1 (garbage k).2

  unfoldable pub start_accept : HttpServer → Result HttpServer
  start_accept s = do
    (io_service, pool) ← get_io_service s.io_service_pool_
    ok (record s {
      io_service_pool_ = pool;
      new_connection_ =
          some (record { io_service = io_service; connection = made_connection s.made });
      made = s.made + 1;
    })

  -- `new_connection_->start()`.
  abbrev pub start_connection : Option Accepted → HttpServer → Result HttpServer
  start_connection none s = err null_pointer
  start_connection (some c) s = ok (record s { started = s.started ++ (c, start) ∷ [] })

  unfoldable pub handle_accept : Bool → HttpServer → Result HttpServer
  unfolding start_accept
  handle_accept e s = do
    s' ← (if e then ok s else start_connection s.new_connection_ s)
    start_accept s'

  -- The constructor, from the pool that its first initialiser made.
  unfoldable pub new_server : IoServicePool → Result HttpServer
  unfolding start_accept
  new_server pool = do
    (signals, pool₁) ← get_io_service pool
    (acceptor, pool₂) ← get_io_service pool₁
    start_accept (record {
      io_service_pool_ = pool₂;
      stopped = [];
      signals_ = signals;
      acceptor_ = acceptor;
      new_connection_ = none;
      started = [];
      made = 0;
    })

  -- The accepts that complete, each with its error or without.
  unfoldable pub accepts : List Bool → HttpServer → Result HttpServer
  unfolding handle_accept
  accepts [] s = ok s
  accepts (e ∷ es) s = do s' ← handle_accept e s; accepts es s'

unfoldable pub handle_stop : HttpServer → HttpServer
handle_stop s = record s { stopped = stop s.io_service_pool_ s.stopped }
