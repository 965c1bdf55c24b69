-- ===== src/Networks/Connection/Reading.antt =====
-- A connection over the reads that complete one after the other.
use minority_viewport.Base.{
  ℕ, false, List, [], ◌∷◌, ◌++◌, Bytes, Result, ok, err, ◌>>=◌, ◌≡◌, refl, ◌∙◌,
}
use minority_viewport.Networks.Request.{Request}
use minority_viewport.Networks.RequestParser.{
  Tribool, complete, invalid, indeterminate, State, parse, Parsed,
}
use minority_viewport.Networks.RequestParser.Chunks.{parse-append, resume}
use minority_viewport.Networks.RequestParser.Printing.{print, IsWellFormed}
use minority_viewport.Networks.RequestParser.RoundTrip.{parse-print}
use minority_viewport.Networks.Reply.{Reply, StatusType, to_buffers}
use minority_viewport.Networks.Connection.{
  Connection, Asked, read_some, write, nothing, new_connection, answered, handle_read,
}

-- The bytes of all chunks.
abbrev pub joined : List Bytes → Bytes
joined [] = []
joined (x ∷ xs) = x ++ joined xs

-- After the handler has returned its reply and the state of the server.
module _ {S : Type 0} where
  abbrev pub written : Connection → Reply × S → Result (Asked × Connection × S)
  written c (reply, server) = ok (write (to_buffers reply), record c { reply_ = reply }, server)

module _ {S : Type 0} (handle_request : Request → Reply → S → Result (Reply × S)) where
  abbrev go_on :
      (Connection → S → Result (Asked × Connection × S))
      → Asked × Connection × S
      → Result (Asked × Connection × S)
  go_on next (read_some, c, server) = next c server
  go_on next (write buffers, c, server) = ok (write buffers, c, server)
  go_on next (Asked.shutdown, c, server) = ok (Asked.shutdown, c, server)
  go_on next (nothing, c, server) = ok (nothing, c, server)

  -- The connection reads as long as it asks for more, each time the next of the chunks.
  abbrev pub reading : List Bytes → Connection → S → Result (Asked × Connection × S)
  reading [] c server = ok (read_some, c, server)
  reading (x ∷ xs) c server = handle_read handle_request false x c server >>= go_on (reading xs)

  -- What `handle_read` does with the outcome of `parse`.
  abbrev answer :
      Connection → S → Tribool × State × Request × Bytes → Result (Asked × Connection × S)
  answer c server (result, parser, request, rest) =
      answered handle_request result (record c { request_ = request; request_parser_ = parser })
        server

  go_on-written :
      (next : Connection → S → Result (Asked × Connection × S)) (c : Connection)
      → (handled : Result (Reply × S))
      → ((handled >>= written c) >>= go_on next) ≡ (handled >>= written c)
  go_on-written next c (ok (reply, server)) = refl
  go_on-written next c (err e) = refl

  go_on-resume :
      (next : Connection → S → Result (Asked × Connection × S)) (ys : Bytes) (c : Connection)
      → (server : S)
      → ((d : Connection) → next d server ≡ handle_read handle_request false ys d server)
      → (m : Parsed)
      → ((m >>= answer c server) >>= go_on next) ≡ ((m >>= resume ys) >>= answer c server)
  unfolding handle_read answered
  go_on-resume next ys c server h (err e) = refl
  go_on-resume next ys c server h (ok (complete, s, r, rest)) =
      go_on-written next (record c { request_ = r; request_parser_ = s })
        (handle_request r c.reply_ server)
  go_on-resume next ys c server h (ok (invalid, s, r, rest)) = refl
  go_on-resume next ys c server h (ok (indeterminate, s, r, rest)) = h _

  -- However the bytes that arrive are cut into the buffers that are read, the connection comes to the
  -- same state, asks the socket for the same, and has called the handler with the same request, as if
  -- all of them stood in one buffer.
  pub reading-joined :
      (xs : List Bytes) (c : Connection) (server : S)
      → reading xs c server ≡ handle_read handle_request false (joined xs) c server
  unfolding handle_read parse answered
  reading-joined [] c server = refl
  reading-joined (x ∷ xs) c server =
      go_on-resume (reading xs) (joined xs) c server (λ d. reading-joined xs d server)
        (parse c.request_parser_ c.request_ x)
      ∙ rw (parse-append c.request_parser_ c.request_ x (joined xs)) refl

  -- A new connection that is sent a well-formed request, cut in any way and with anything behind it,
  -- calls the handler once, with that request, and asks the socket to write the handler's reply.
  pub reading-print :
      (xs : List Bytes) (q : Request) (rest : Bytes) (major minor : ℕ) (status : StatusType)
      → (server : S) → joined xs ≡ print q ++ rest
      → IsWellFormed q
      → reading xs (new_connection major minor status) server ≡ (
          handle_request q (record { status = status; headers = []; content = [] }) server
          >>= written (record (new_connection major minor status) {
            request_ = q;
            request_parser_ = State.expecting_newline_3;
          }))
  unfolding handle_read answered new_connection
  reading-print xs q rest major minor status server e w =
      reading-joined xs (new_connection major minor status) server
      ∙ rw (e, parse-print q major minor rest w) refl
