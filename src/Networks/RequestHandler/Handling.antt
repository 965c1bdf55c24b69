-- ===== src/Networks/RequestHandler/Handling.antt =====
-- Networks/RequestHandler.cpp, `handle_request`.
pub mod Answering
pub mod Ordering
pub mod Showing
pub mod Keeping
pub mod Soundness
pub mod Registration
pub mod Effects
use minority_viewport.Base.{
  ℕ, Bool, true, false, List, [], ◌∷◌, ◌++◌, Bytes, codes, length, Option, none, some, Result, ok,
  ◌>>=◌, if◌then◌else◌,
}
use minority_viewport.Base.Decimal.{to_string}
use minority_viewport.Base.Texts.{bytes_eq}
use minority_viewport.Networks.MimeTypes.{extension_to_type}
use minority_viewport.Networks.Reply
use minority_viewport.Networks.Reply.{Reply, StatusType, stock_reply}
use minority_viewport.Networks.Request.{Header, Request}
use minority_viewport.Networks.RequestHandler.Endpoints.{World, Answers, Server, put, endpoints}
use minority_viewport.Networks.RequestHandler.Paths.{request_path, extension}

-- The two headers of a reply with a file. The reply has had two headers since the call's first line.
abbrev pub file_headers : Bytes → Bytes → List Header
file_headers content extension =
    record { name = codes "Content-Length"; value = to_string (length content) }
    ∷ record { name = codes "Content-Type"; value = extension_to_type extension }
    ∷ []

-- The file is appended to the content that the reply has already.
abbrev pub file_reply : Bytes → Bytes → Reply → Reply
file_reply content extension rep = record {
  status = StatusType.ok;
  headers = file_headers (rep.content ++ content) extension;
  content = rep.content ++ content;
}

module _ {D : Type 0} (W : World D) (doc_root : Bytes) where
  -- What the attempt to open the file gave. A file that was sent is emptied if it was JSON.
  unfoldable pub send_found : Bytes → Reply → Server W → Option Bytes → Reply × Server W
  send_found path rep s none = (stock_reply StatusType.not_found, s)
  send_found path rep s (some content) =
      let sent = file_reply content (extension path) rep in
      if bytes_eq (extension path) (codes "json")
      then (sent, put W doc_root path [] s)
      else (sent, s)

  -- From the extension on.
  unfoldable pub send_file : Bytes → Reply → Server W → Reply × Server W
  unfolding send_found
  send_file path rep s = send_found path rep s (W.files.read_file (doc_root ++ path) s.disk)

module _ {D : Type 0} (W : World D) (doc_root : Bytes) (a : Answers) where
  unfoldable pub handle_path : Request → Bytes → Reply → Server W → Result (Reply × Server W)
  unfolding send_file
  handle_path request path rep s = do
    s' ← endpoints W doc_root a request path s
    ok (send_file W doc_root path rep s')

  -- What the checks of the path gave.
  unfoldable pub handle_checked :
      Request → Option Bytes → Reply → Server W → Result (Reply × Server W)
  unfolding handle_path
  handle_checked request none rep s = ok (stock_reply StatusType.bad_request, s)
  handle_checked request (some path) rep s = handle_path request path rep s

  unfoldable pub handle_request : Request → Reply → Server W → Result (Reply × Server W)
  unfolding handle_checked
  handle_request request rep s = handle_checked request (request_path request.uri) rep s
