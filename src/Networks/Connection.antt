-- ===== src/Networks/Connection.antt =====
-- Networks/Connection.h and Networks/Connection.cpp: the steps of one connection. What it asks of
-- the socket is an answer of its handlers; the request handler is an interface, a function that may
-- change the state `S` of the server. A read that completes is its error flag and the bytes in the
-- buffer.
pub mod Reading
pub mod Serving
use minority_viewport.Base.{
  ℕ, Bool, true, false, List, [], ◌∷◌, ◌++◌, Bytes, Result, ok, err, ◌>>=◌,
}
use minority_viewport.Networks.Request.{Request, blank}
use minority_viewport.Networks.RequestParser.{
  Tribool, complete, invalid, indeterminate, State, reset, parse,
}
use minority_viewport.Networks.Reply.{Reply, StatusType, stock_reply, to_buffers}

pub record Connection : Type 0 where
  pub request_ : Request
  pub request_parser_ : State
  pub reply_ : Reply

-- What is asked of the socket: to read some bytes, to write the buffers, to shut down in both
-- directions; or nothing, and the connection is destroyed.
pub data Asked : Type 0 where
  read_some : Asked
  write : List Bytes → Asked
  shutdown : Asked
  nothing : Asked

-- The numbers of the request and the status of the reply are not initialised.
unfoldable pub new_connection : ℕ → ℕ → StatusType → Connection
new_connection major minor status = record {
  request_ = blank major minor;
  request_parser_ = reset;
  reply_ = record { status = status; headers = []; content = [] };
}

abbrev pub start : Asked
start = read_some

module _ {S : Type 0} where
  -- After the call of `parse`.
  unfoldable pub answered :
      (Request → Reply → S → Result (Reply × S))
      → Tribool
      → Connection
      → S
      → Result (Asked × Connection × S)
  answered handle_request complete c server = do
    (reply, server') ← handle_request c.request_ c.reply_ server
    ok (write (to_buffers reply), record c { reply_ = reply }, server')
  answered handle_request invalid c server =
      let reply = stock_reply StatusType.bad_request in
      ok (write (to_buffers reply), record c { reply_ = reply }, server)
  answered handle_request indeterminate c server = ok (read_some, c, server)

  unfoldable pub handle_read :
      (Request → Reply → S → Result (Reply × S))
      → Bool
      → Bytes
      → Connection
      → S
      → Result (Asked × Connection × S)
  handle_read handle_request true buffer c server = ok (nothing, c, server)
  handle_read handle_request false buffer c server = do
    (result, parser, request, rest) ← parse c.request_parser_ c.request_ buffer
    answered handle_request result (record c { request_ = request; request_parser_ = parser })
        server

unfoldable pub handle_write : Bool → Asked
handle_write true = nothing
handle_write false = shutdown
