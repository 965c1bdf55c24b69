-- ===== src/Networks/RequestParser/Printing.antt =====
-- The requests that the wire format can express, and how they are written.
use minority_viewport.Base.{
  ℕ, ◌^◌, ◌<◌, false, ◌||◌, List, [], ◌∷◌, ◌++◌, Bytes, All, ◌==◌, ◌≡◌, ◌≢◌,
}
use minority_viewport.Base.Decimal.{to_string}
use minority_viewport.Networks.Request.{Header, Request}
use minority_viewport.Networks.RequestParser.{is_ctl, bad_token}

abbrev pub TokenByte : ℕ → Type 0
TokenByte c = bad_token c ≡ false

abbrev pub TextByte : ℕ → Type 0
TextByte c = is_ctl c ≡ false

abbrev pub UriByte : ℕ → Type 0
UriByte c = (c == b' ' || is_ctl c) ≡ false

-- A field name is a token; a value has no control characters.
pub record IsHeader (h : Header) : Type 0 where
  pub name_ne_nil : h.name ≢ []
  pub name_bytes : All TokenByte h.name
  pub value_bytes : All TextByte h.value

pub record IsWellFormed (q : Request) : Type 0 where
  pub method_ne_nil : q.method ≢ []
  pub method_bytes : All TokenByte q.method
  pub uri_bytes : All UriByte q.uri
  pub major_bound : q.http_version_major < 2 ^ 32
  pub minor_bound : q.http_version_minor < 2 ^ 32
  pub headers_are : All IsHeader q.headers

abbrev pub print_headers : List Header → Bytes
print_headers [] = b'\r' ∷ b'\n' ∷ []
print_headers (h ∷ hs) = h.name ++ b':' ∷ b' ' ∷ (h.value ++ b'\r' ∷ b'\n' ∷ print_headers hs)

-- `METHOD URI HTTP/MAJOR.MINOR`, the header lines and the empty line, each ended by CR LF.
unfoldable pub print : Request → Bytes
print q =
    q.method
    ++ b' '
      ∷ (q.uri
          ++ b' '
            ∷ b'H'
            ∷ b'T'
            ∷ b'T'
            ∷ b'P'
            ∷ b'/'
            ∷ (to_string q.http_version_major
                ++ b'.'
                  ∷ (to_string q.http_version_minor ++ b'\r' ∷ b'\n' ∷ print_headers q.headers)))
