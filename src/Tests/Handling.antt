-- ===== src/Tests/Handling.antt =====
-- Networks/RequestHandler.cpp, `handle_request`, behind a connection, at concrete inputs.
use minority_viewport.Base.{
  ℕ, ◌+◌, if◌then◌else◌, List, [], ◌∷◌, ◌++◌, Bytes, codes, none, some, ok, ◌≡◌, refl, arith,
}
use minority_viewport.Base.Decimal.{to_string}
use minority_viewport.Base.Texts.{bytes_eq, has_dots, find_last}
use minority_viewport.Data.ClientsList.{add_client, generate_next_client_id}
use minority_viewport.Data.Client.{new_client}
use minority_viewport.Algorithms.Viewport.{Viewport, register_client}
use minority_viewport.Networks.MimeTypes.{extension_to_type}
use minority_viewport.Networks.Request.{Request}
use minority_viewport.Networks.RequestParser.{is_char, is_ctl, is_tspecial}
use minority_viewport.Networks.RequestParser.Printing.{print, IsWellFormed}
use minority_viewport.Networks.Reply.{Reply, StatusType, to_buffers}
use minority_viewport.Networks.Connection.{Connection, write, new_connection}
use minority_viewport.Networks.Connection.Reading.{reading, joined}
use minority_viewport.Networks.Connection.Serving.{no_reply, reading-register_client}
use minority_viewport.Networks.RequestHandler.Endpoints.{Answers, Server, endpoints}
use minority_viewport.Networks.RequestHandler.Handling.{
  file_reply, handle_request, handle_checked, handle_path, send_file, send_found,
}
use minority_viewport.Networks.RequestHandler.Handling.Answering.{IsFramed, handle_request-IsFramed}
use minority_viewport.Networks.RequestHandler.Paths.{request_path, extension, request_header_val}
use minority_viewport.Networks.RequestHandler.UrlDecode.{url_decode}
use minority_viewport.Tests.Networks.{listing_request}
use minority_viewport.Tests.Scenes.{gallery}
use minority_viewport.Tests.World.{Rows, world, world-KeepsFile}

abbrev pub answers : Answers
answers = record { address = λ k. k + 50; fuel = 1; rand = λ k. 7; now = λ k. 500 }

abbrev server : Server world
server = record {
  viewport = record gallery {
    clients = record { avaliable_ids = 9 ∷ []; raw_client_list = gallery.clients.raw_client_list };
  };
  disk = λ path. if bytes_eq path (codes "web/x.js") then some (codes "a\r\n\r\nb") else none;
}

abbrev script_request : Request
script_request = record listing_request { uri = codes "/x.js" }

-- What is appended to stands behind what the reply holds already.
abbrev script_reply : Reply
script_reply =
    file_reply (codes "a\r\n\r\nb") (codes "js")
      (record (no_reply StatusType.ok) { content = codes "\r\n\r\n" })

handle_request-IsFramed_example : IsFramed script_reply
unfolding handle_request handle_checked handle_path send_file send_found endpoints request_path
    url_decode has_dots extension find_last bytes_eq extension_to_type
handle_request-IsFramed_example =
    handle_request-IsFramed world (codes "web") answers script_request
      (record (no_reply StatusType.ok) { content = codes "\r\n\r\n" }) server {s' = server} refl

abbrev pub registration : Request
registration = record {
  method = codes "GET";
  uri = codes "/api/clients/register.json";
  http_version_major = 1;
  http_version_minor = 1;
  headers =
      record { name = codes "PHYSICAL_LOC"; value = codes "roof" }
      ∷ record { name = codes "IP_ADDR"; value = codes "10.0.0.9" }
      ∷ [];
}

registration-IsWellFormed : IsWellFormed registration
unfolding is_char is_ctl is_tspecial
registration-IsWellFormed = record {
  method_ne_nil = λ e. cc;
  method_bytes = ground arith;
  uri_bytes = ground arith;
  major_bound = omega arith;
  minor_bound = omega arith;
  headers_are = ground arith;
}

abbrev registration_chunks : List Bytes
registration_chunks =
    codes "GET /api/clients/regis"
    ∷ codes "ter.json HTTP/1.1\r\nPHYSICAL_LOC: roof\r"
    ∷ codes "\nIP_ADDR: 10.0.0.9\r\n\r\nmore"
    ∷ []

registration_chunks-joined : joined registration_chunks ≡ print registration ++ codes "more"
unfolding print to_string
registration_chunks-joined = refl

abbrev registered : Viewport ℕ Rows
registered = record gallery {
  clients = record {
    avaliable_ids = [];
    raw_client_list =
        gallery.clients.raw_client_list ++ new_client 9 (codes "roof") (codes "10.0.0.9") ∷ [];
  };
}

reading-register_client_example :
    (c : Connection) × (s' : Server world) × (reading
        (handle_request world (codes "web") answers)
        registration_chunks
        (new_connection 0 0 StatusType.ok)
        server
      ≡ ok (
        write (
            to_buffers (
              file_reply
                (codes "{\"client_id\":" ++ (to_string 9 ++ codes "}"))
                (codes "json")
                (no_reply StatusType.ok))),
        c,
        s',
      ))
    × (s'.viewport ≡ registered)
unfolding register_client add_client generate_next_client_id request_path url_decode has_dots
    bytes_eq request_header_val
reading-register_client_example =
    reading-register_client world (codes "web") answers registration_chunks registration
      (codes "more") 0 0 StatusType.ok server 9 registration_chunks-joined registration-IsWellFormed
      refl (world-KeepsFile (codes "web/api/clients/register.json")) refl
