-- ===== src/Tests/Serving.antt =====
-- Networks/: connections and the pool of services at concrete inputs. The server counts the calls of
-- its handler, which answers each with a stock reply.
use minority_viewport.Base.{
  true, false, All, arith, ℕ, ◌+◌, List, [], ◌∷◌, ◌++◌, Bytes, codes, false, Result, none, some, ok,
  ◌≡◌, refl,
}
use minority_viewport.Base.Decimal.{to_string}
use minority_viewport.Networks.Request.{Request}
use minority_viewport.Networks.RequestParser.{State}
use minority_viewport.Networks.RequestParser.Printing.{print}
use minority_viewport.Networks.Reply.{Reply, StatusType, stock_reply}
use minority_viewport.Networks.Connection.{start, new_connection, handle_read}
use minority_viewport.Networks.Connection.Reading.{
  reading, joined, written, reading-joined, reading-print,
}
use minority_viewport.Networks.IoServicePool.{
  is_stopped, run_returns, IoServicePool, new_pool, push_services,
}
use minority_viewport.Networks.IoServicePool.Turns.{turns, turns-new_pool}
use minority_viewport.Networks.Server.{
  HttpServer, new_server, accepts, made_connection, handle_stop,
}
use minority_viewport.Networks.Server.Accepting.{accepts-new_server}
use minority_viewport.Networks.NtpClient.{request_datetime_unix, zeros}
use minority_viewport.Networks.NtpClient.Seconds.{request_datetime_unix-seconds}
use minority_viewport.Tests.Networks.{listing_request, listing-IsWellFormed}

abbrev count_calls : Request → Reply → ℕ → Result (Reply × ℕ)
count_calls request reply n = ok (stock_reply StatusType.accepted, n + 1)

abbrev listing_chunks : List Bytes
listing_chunks =
    codes "GET /api/clients/list"
    ∷ codes "ing.json HTTP/1.1\r\nHost: localhost\r"
    ∷ codes "\nCLIENT_ID: 7\r\n\r\nmore"
    ∷ []

chunks-joined : joined listing_chunks ≡ print listing_request ++ codes "more"
unfolding print to_string
chunks-joined = refl

reading-joined_example :
    reading count_calls listing_chunks (new_connection 3 4 StatusType.ok) 5
    ≡ handle_read count_calls false (joined listing_chunks) (new_connection 3 4 StatusType.ok) 5
reading-joined_example =
    reading-joined count_calls listing_chunks (new_connection 3 4 StatusType.ok) 5

reading-print_example :
    reading count_calls listing_chunks (new_connection 3 4 StatusType.ok) 5
    ≡ written
        (record (new_connection 3 4 StatusType.ok) {
          request_ = listing_request;
          request_parser_ = State.expecting_newline_3;
        })
        (stock_reply StatusType.accepted, 6)
reading-print_example =
    reading-print count_calls listing_chunks listing_request (codes "more") 3 4 StatusType.ok 5
      chunks-joined listing-IsWellFormed

abbrev address : ℕ → ℕ
address i = i + 40

abbrev raw_memory : ℕ → ℕ × ℕ × StatusType
raw_memory k = (k, 0, StatusType.ok)

turns-new_pool_example :
    (new_pool address 0 ≡ none)
    × ((p : IoServicePool) × (new_pool address 3 ≡ some p)
        × (p.io_services ≡ push_services address 0 3)
        × (turns 3 p ≡ ok (p.io_services, p)))
turns-new_pool_example = turns-new_pool address 2

-- The second of three accepts fails.
accepts-new_server_example :
    (p : IoServicePool) × (s : HttpServer) × (s' : HttpServer) × (new_pool address 5 ≡ some p)
    × (new_server raw_memory p ≡ ok s)
    × (accepts raw_memory (false ∷ true ∷ false ∷ []) s ≡ ok s')
    × (s'.started
        ≡ (record { io_service = address 2; connection = made_connection raw_memory 0 }, start)
          ∷ (record { io_service = address 4; connection = made_connection raw_memory 2 }, start)
          ∷ [])
    × (s'.new_connection_
        ≡ some (record { io_service = address 0; connection = made_connection raw_memory 3 }))
    × ((i : ℕ) → is_stopped s'.stopped i ≡ false)
    × All (λ i. is_stopped (handle_stop s').stopped i ≡ true) s'.io_service_pool_.io_services
    × (run_returns s'.io_service_pool_ (handle_stop s').stopped ≡ true)
accepts-new_server_example = accepts-new_server address 4 raw_memory (false ∷ true ∷ false ∷ [])

-- The clock of the server was set at the 1st of January 2020.
abbrev packet : List ℕ
packet = 36 ∷ (zeros 15 ++ 225 ∷ 182 ∷ 95 ∷ 128 ∷ zeros 28)

request_datetime_unix-seconds_example : request_datetime_unix 7 (λ i. 9) (some packet) ≡ 1577836800
request_datetime_unix-seconds_example =
    request_datetime_unix-seconds 7 (λ i. 9) packet 225 182 95 128 refl refl refl refl (omega arith)
      (omega arith) (omega arith) (omega arith)
