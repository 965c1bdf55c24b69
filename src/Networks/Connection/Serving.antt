-- ===== src/Networks/Connection/Serving.antt =====
-- A connection whose handler is `handle_request`.
use minority_viewport.Base.{ℕ, List, [], ◌++◌, Bytes, codes, some, ok, ◌≡◌, refl, ◌∙◌}
use minority_viewport.Base.Decimal.{to_string}
use minority_viewport.Algorithms.Viewport.{Viewport, register_client}
use minority_viewport.Networks.Request.{Request}
use minority_viewport.Networks.RequestParser.{State}
use minority_viewport.Networks.RequestParser.Printing.{print, IsWellFormed}
use minority_viewport.Networks.Reply.{Reply, StatusType, to_buffers}
use minority_viewport.Networks.Connection.{Connection, write, new_connection}
use minority_viewport.Networks.Connection.Reading.{reading, joined, reading-print}
use minority_viewport.Networks.RequestHandler.Endpoints.{World, Answers, Server, header_val}
use minority_viewport.Networks.RequestHandler.Handling.{file_reply, handle_request}
use minority_viewport.Networks.RequestHandler.Handling.Answering.{
  KeepsFile, handle_request-register_client,
}
use minority_viewport.Networks.RequestHandler.Paths.{request_path}

-- A reply as a new connection holds it.
abbrev pub no_reply : StatusType → Reply
no_reply status = record { status = status; headers = []; content = [] }

module _ {D : Type 0} (W : World D) (doc_root : Bytes) (a : Answers) where
  -- From the bytes of a registration, cut in any way, to the bytes of its reply: the client that the
  -- request describes is registered, and what the socket is asked to write is a reply 200 whose content
  -- is the new identifier, as a JSON object; with a file system that keeps the endpoint's file.
  pub reading-register_client :
      (xs : List Bytes) (q : Request) (rest : Bytes) (major minor : ℕ) (status : StatusType)
      (s : Server W) (id : ℕ) {v : Viewport D W.matrices.Mat}
      → joined xs ≡ print q ++ rest
      → IsWellFormed q
      → request_path q.uri ≡ some (codes "/api/clients/register.json")
      → KeepsFile W (doc_root ++ codes "/api/clients/register.json")
      → register_client a.fuel a.rand
          (header_val W doc_root a q (codes "PHYSICAL_LOC"))
          (header_val W doc_root a q (codes "IP_ADDR"))
          s.viewport
        ≡ ok (id, v)
      → (c : Connection) × (s' : Server W) × (reading
            (handle_request W doc_root a)
            xs
            (new_connection major minor status)
            s
          ≡ ok (
            write (
                to_buffers (
                  file_reply
                    (codes "{\"client_id\":" ++ (to_string id ++ codes "}"))
                    (codes "json")
                    (no_reply status))),
            c,
            s',
          ))
        × (s'.viewport ≡ v)
  reading-register_client xs q rest major minor status s id {v} e w path disk registered =
      let (s', done, same, empty) =
        handle_request-register_client W doc_root a q (no_reply status) s id path disk registered in
      (
        record (new_connection major minor status) {
          request_ = q;
          request_parser_ = State.expecting_newline_3;
          reply_ =
              file_reply (codes "{\"client_id\":" ++ (to_string id ++ codes "}")) (codes "json")
                (no_reply status);
        },
        s',
        reading-print (handle_request W doc_root a) xs q rest major minor status s e w
            ∙ rw done refl,
        same,
      )
