-- ===== src/Tests/Networks.antt =====
-- Networks/: the parser, the replies and the paths at concrete inputs.
use minority_viewport.Base.{
  true, false, [], ◌∷◌, ◌++◌, Bytes, codes, none, some, ok, ◌>>=◌, ◌≡◌, ◌≢◌, refl, arith,
}
use minority_viewport.Base.Decimal.{to_string}
use minority_viewport.Base.Texts.{has_dots}
use minority_viewport.Networks.Reply.{StatusType, to_buffers, Reply}
use minority_viewport.Networks.Reply.Framing.{body_of, sent, body_of-to_buffers}
use minority_viewport.Networks.Request.{Request, blank}
use minority_viewport.Networks.RequestParser.{
  complete, State, reset, parse, consume, on_back, is_char, is_ctl, is_digit, is_tspecial,
}
use minority_viewport.Networks.RequestParser.Chunks.{parse-append, resume}
use minority_viewport.Networks.RequestParser.Printing.{print, IsWellFormed}
use minority_viewport.Networks.RequestParser.RoundTrip.{parse-print}
use minority_viewport.Networks.RequestParser.Soundness.{Answers, parse-IsWellFormed}
use minority_viewport.Networks.RequestHandler.UrlDecode.{
  url_decode, url_encode, hex_digit, hex_byte, is_space, digits_of, url_decode-url_encode,
}
use minority_viewport.Networks.RequestHandler.Paths.{
  request_path, starts_with_slash, ends_with_slash, request_path_contained,
}

abbrev pub listing_request : Request
listing_request = record {
  method = codes "GET";
  uri = codes "/api/clients/listing.json";
  http_version_major = 1;
  http_version_minor = 1;
  headers =
      record { name = codes "Host"; value = codes "localhost" }
      ∷ record { name = codes "CLIENT_ID"; value = codes "7" }
      ∷ [];
}

abbrev listing_text : Bytes
listing_text =
    codes "GET /api/clients/listing.json HTTP/1.1\r\nHost: localhost\r\nCLIENT_ID: 7\r\n\r\n"

print-listing : print listing_request ≡ listing_text
unfolding print to_string
print-listing = refl

parse-listing :
    parse reset (blank 0 0) (listing_text ++ codes "more")
    ≡ ok (complete, State.expecting_newline_3, listing_request, codes "more")
unfolding parse consume on_back is_char is_ctl is_digit is_tspecial
parse-listing = refl

pub listing-IsWellFormed : IsWellFormed listing_request
unfolding is_char is_ctl is_tspecial
listing-IsWellFormed = record {
  method_ne_nil = λ e. cc;
  method_bytes = ground arith;
  uri_bytes = ground arith;
  major_bound = omega arith;
  minor_bound = omega arith;
  headers_are = ground arith;
}

parse-print_example :
    parse reset (blank 3 4) (print listing_request ++ codes "x")
    ≡ ok (complete, State.expecting_newline_3, listing_request, codes "x")
parse-print_example = parse-print listing_request 3 4 (codes "x") listing-IsWellFormed

parse-IsWellFormed_example : Answers (parse reset (blank 3 4) listing_text)
parse-IsWellFormed_example = parse-IsWellFormed 3 4 listing_text

parse-append_example :
    parse reset (blank 0 0) (codes "GET /a" ++ codes "pi HTTP/1.0\r\n\r\n")
    ≡ (parse reset (blank 0 0) (codes "GET /a") >>= resume (codes "pi HTTP/1.0\r\n\r\n"))
parse-append_example = parse-append reset (blank 0 0) (codes "GET /a") (codes "pi HTTP/1.0\r\n\r\n")

-- Header lines may be folded: the blanks before the continuation are dropped.
parse-folded :
    parse reset (blank 0 0) (codes "A b HTTP/1.0\r\nX: one\r\n \ttwo\r\n\r\n")
    ≡ ok (
      complete,
      State.expecting_newline_3,
      record {
        method = codes "A";
        uri = codes "b";
        http_version_major = 1;
        http_version_minor = 0;
        headers = record { name = codes "X"; value = codes "onetwo" } ∷ [];
      },
      [],
    )
unfolding parse consume on_back is_char is_ctl is_digit is_tspecial
parse-folded = refl

abbrev small_reply : Reply
small_reply = record {
  status = StatusType.ok;
  headers = record { name = codes "A"; value = codes "b" } ∷ [];
  content = codes "x\r\n\r\ny";
}

body_of-to_buffers_example : body_of (sent (to_buffers small_reply)) ≡ some small_reply.content
body_of-to_buffers_example = body_of-to_buffers small_reply (((refl, tt), (refl, tt)), tt)

url_decode-url_encode_example :
    url_decode (url_encode (codes "/a b?%" ++ 200 ∷ [])) ≡ some (codes "/a b?%" ++ 200 ∷ [])
url_decode-url_encode_example = url_decode-url_encode (codes "/a b?%" ++ 200 ∷ []) (omega arith)

escapes :
    (url_decode (codes "a%20b+c") ≡ some (codes "a b c"))
    × (url_decode (codes "%-1x") ≡ some (255 ∷ codes "x"))
    × (url_decode (codes "%2") ≡ none)
    × (url_decode (codes "%0xy") ≡ none)
    × (url_decode (codes "%g1") ≡ none)
unfolding url_decode hex_byte is_space hex_digit digits_of
escapes = (refl, refl, refl, refl, refl)

request_path_contained_example :
    (starts_with_slash (codes "/index.html") ≡ true)
    × (codes "/index.html" ≢ codes "/" ++ b'.' ∷ b'.' ∷ [])
    × (ends_with_slash (codes "/index.html") ≡ false)
unfolding request_path url_decode has_dots
request_path_contained_example =
    request_path_contained (codes "/") (codes "/") [] {p = codes "/index.html"} refl

refused_paths :
    (request_path (codes "/%2e%2e/secret") ≡ none)
    × (request_path (codes "index.html") ≡ none)
    × (request_path [] ≡ none)
unfolding request_path url_decode has_dots hex_byte is_space hex_digit digits_of
refused_paths = (refl, refl, refl)
