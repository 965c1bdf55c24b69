-- ===== src/Networks/RequestHandler/Handling/Answering.antt =====
-- What `handle_request` answers.
use mathlib.Core.Option
use minority_viewport.Base.{
  ℕ, List, [], ◌∷◌, ◌++◌, Bytes, codes, length, All, get_elem?, Option, none, some, ok,
  ok-injective, >>=-eq-ok, ◌≡◌, refl, ap, subst, arith, Bool-cases, inl, inr,
}
use minority_viewport.Base.Decimal.{
  to_string, read_decimal, read_decimal-to_string, to_string-Digit,
}
use minority_viewport.Base.Texts.{bytes_eq, find_last}
use minority_viewport.Algorithms.Viewport.{Viewport, register_client}
use minority_viewport.Networks.MimeTypes.{Mapping, mappings, type_in, extension_to_type}
use minority_viewport.Networks.Request.{Request}
use minority_viewport.Networks.Reply.{Reply, StatusType, stock_reply, to_buffers}
use minority_viewport.Networks.Reply.Framing.{
  NotCr, NotCr-Digit, sent, body_of, body_of-to_buffers, stock_reply-framed,
}
use minority_viewport.Networks.RequestHandler.UrlDecode.{url_decode}
use minority_viewport.Networks.RequestHandler.Endpoints.{
  World, Answers, Server, header_val, endpoints, register_client_endpoint,
}
use minority_viewport.Networks.RequestHandler.Handling.{
  file_reply, send_found, send_file, handle_path, handle_checked, handle_request,
}
use minority_viewport.Networks.RequestHandler.Paths.{request_path, request_path_dots, extension}

-- A receiver finds the content behind the first empty line, and the first header's number is its
-- length.
pub record IsFramed (r : Reply) : Type 0 where
  pub body : body_of (sent (to_buffers r)) ≡ some r.content
  pub number :
      Option.map (λ h. read_decimal 0 h.value) (get_elem? r.headers 0) ≡ some (length r.content)

abbrev HasLineTypes : List Mapping → Type 0
HasLineTypes = All (λ m. All NotCr m.mime_type)

type_in-NotCr : (ms : List Mapping) (e : Bytes) → HasLineTypes ms → All NotCr (type_in ms e)
unfolding type_in
type_in-NotCr [] e h = ground arith
type_in-NotCr (m ∷ ms) e h = elim (Bool-cases (bytes_eq m.extension e)) [
  | inl same ↦ rw same h.0
  | inr other ↦ rw other (type_in-NotCr ms e h.1)
]

extension_to_type-NotCr : (e : Bytes) → All NotCr (extension_to_type e)
unfolding extension_to_type mappings
extension_to_type-NotCr e = type_in-NotCr mappings e (ground arith)

stock_reply-IsFramed : (s : StatusType) → IsFramed (stock_reply s)
unfolding stock_reply
stock_reply-IsFramed s = record {
  body = (stock_reply-framed s).0;
  number = (stock_reply-framed s).1;
}

file_reply-IsFramed : (content e : Bytes) (rep : Reply) → IsFramed (file_reply content e rep)
file_reply-IsFramed content e rep = record {
  body = body_of-to_buffers (file_reply content e rep) (
    (ground arith, NotCr-Digit _ (to_string-Digit _)),
    ((ground arith, extension_to_type-NotCr e), tt),
  );
  number = rw read_decimal-to_string refl;
}

module _ {D : Type 0} (W : World D) (doc_root : Bytes) where
  send_found-IsFramed :
      (path : Bytes) (rep : Reply) (s : Server W) (found : Option Bytes)
      → IsFramed (send_found W doc_root path rep s found).0
  unfolding send_found
  send_found-IsFramed path rep s none = stock_reply-IsFramed StatusType.not_found
  send_found-IsFramed path rep s (some content) =
      elim (Bool-cases (bytes_eq (extension path) (codes "json"))) [
        | inl json ↦ rw json (file_reply-IsFramed content (extension path) rep)
        | inr other ↦ rw other (file_reply-IsFramed content (extension path) rep)
      ]

-- What is written to the file at a path can be read back.
abbrev pub KeepsFile : {D : Type 0} → World D → Bytes → Type 0
KeepsFile W path =
    (content : Bytes) (disk : W.files.Disk)
    → W.files.read_file path (W.files.write_file path content disk) ≡ some content

module _ {D : Type 0} (W : World D) (doc_root : Bytes) (a : Answers) where
  handle_checked-IsFramed :
      (request : Request) (checked : Option Bytes) (rep : Reply) (s : Server W) {r : Reply}
      {s' : Server W}
      → handle_checked W doc_root a request checked rep s ≡ ok (r, s')
      → IsFramed r
  unfolding handle_checked handle_path send_file
  handle_checked-IsFramed request none rep s e =
      subst IsFramed (ap (λ (x : Reply × Server W). x.0) (ok-injective e))
        (stock_reply-IsFramed StatusType.bad_request)
  handle_checked-IsFramed request (some path) rep s e =
      let (s1, g, f) = >>=-eq-ok _ (endpoints W doc_root a request path s) e in
      subst IsFramed (ap (λ (x : Reply × Server W). x.0) (ok-injective f))
        (send_found-IsFramed W doc_root path rep s1 (W.files.read_file (doc_root ++ path) s1.disk))

  -- Whatever the request and whatever the reply held before, the reply of a call that returns is
  -- framed: a receiver that skips to the first empty line of the bytes sent finds exactly its content,
  -- and its first header, the Content-Length, reads as the length of that content.
  pub handle_request-IsFramed :
      (request : Request) (rep : Reply) (s : Server W) {r : Reply} {s' : Server W}
      → handle_request W doc_root a request rep s ≡ ok (r, s')
      → IsFramed r
  unfolding handle_request
  handle_request-IsFramed request rep s e =
      handle_checked-IsFramed request (request_path request.uri) rep s e

  -- A URI that decodes to a path with two dots in a row, wherever they stand, is answered by the
  -- stock reply 400, and the server stays as it was.
  pub handle_request_dots :
      (request : Request) (rep : Reply) (s : Server W) (xs ys : Bytes)
      → url_decode request.uri ≡ some (xs ++ b'.' ∷ b'.' ∷ ys)
      → handle_request W doc_root a request rep s ≡ ok (stock_reply StatusType.bad_request, s)
  unfolding handle_request
  handle_request_dots request rep s xs ys e = rw (request_path_dots request.uri xs ys e) refl

  -- Registration by a request: with a file system on which the endpoint's file can be written and read
  -- back, the reply appends the identifier of the new client, as a JSON object, to the content, and the
  -- file is empty in the end.
  pub handle_request-register_client :
      (request : Request) (rep : Reply) (s : Server W) (id : ℕ) {v : Viewport D W.matrices.Mat}
      → request_path request.uri ≡ some (codes "/api/clients/register.json")
      → KeepsFile W (doc_root ++ codes "/api/clients/register.json")
      → register_client a.fuel a.rand
          (header_val W doc_root a request (codes "PHYSICAL_LOC"))
          (header_val W doc_root a request (codes "IP_ADDR"))
          s.viewport
        ≡ ok (id, v)
      → (s' : Server W) × (handle_request W doc_root a request rep s
          ≡ ok (
            file_reply (codes "{\"client_id\":" ++ (to_string id ++ codes "}")) (codes "json") rep,
            s',
          ))
        × (s'.viewport ≡ v)
        × (W.files.read_file (doc_root ++ codes "/api/clients/register.json") s'.disk ≡ some [])
  unfolding handle_request handle_path endpoints register_client_endpoint send_file bytes_eq
      extension find_last
  handle_request-register_client request rep s id {v} path disk registered =
      let full : Bytes = doc_root ++ codes "/api/clients/register.json" in
      let text : Bytes = codes "{\"client_id\":" ++ (to_string id ++ codes "}") in
      (
        record {
          viewport = v;
          disk = W.files.write_file full [] (W.files.write_file full text s.disk);
        },
        rw path (rw registered (rw (disk text s.disk) refl)),
        refl,
        disk [] (W.files.write_file full text s.disk),
      )
