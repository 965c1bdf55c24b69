-- ===== src/Networks/Reply/Framing.antt =====
-- What a receiver can read off the bytes of a reply.
use mathlib.Core.Option
use minority_viewport.Base.{
  ℕ, false, List, [], ◌∷◌, ◌++◌, append-nil, get_elem?, Bytes, codes, length, ◌≡◌, ◌≢◌, refl, ap,
  ◌∙◌, if◌then◌else◌, Option, none, some, ◌==◌, arith, All,
}
use minority_viewport.Base.Decimal.{
  to_string, read_decimal, read_decimal-to_string, Digit, to_string-Digit,
}
use minority_viewport.Networks.Request.{Header}
use minority_viewport.Networks.Reply.{
  StatusType, ok, created, accepted, no_content, multiple_choices, moved_permanently,
  moved_temporarily, not_modified, bad_request, unauthorized, forbidden, not_found,
  internal_server_error, not_implemented, bad_gateway, service_unavailable, code_of, status_line,
  stock_content, Reply, crlf, header_buffers, to_buffers, stock_reply,
}

-- The bytes that a gather-write of the buffers sends.
abbrev pub sent : List Bytes → Bytes
sent [] = []
sent (b ∷ bs) = b ++ sent bs

-- The reason phrase of a status, in HTTP/1.0.
unfoldable pub reason : StatusType → Bytes
reason ok = codes "OK"
reason created = codes "Created"
reason accepted = codes "Accepted"
reason no_content = codes "No Content"
reason multiple_choices = codes "Multiple Choices"
reason moved_permanently = codes "Moved Permanently"
reason moved_temporarily = codes "Moved Temporarily"
reason not_modified = codes "Not Modified"
reason bad_request = codes "Bad Request"
reason unauthorized = codes "Unauthorized"
reason forbidden = codes "Forbidden"
reason not_found = codes "Not Found"
reason internal_server_error = codes "Internal Server Error"
reason not_implemented = codes "Not Implemented"
reason bad_gateway = codes "Bad Gateway"
reason service_unavailable = codes "Service Unavailable"

-- Every status line is the version, the enumerator's own number in decimal, its reason and CR LF.
pub status_line-code_of :
    (s : StatusType)
    → status_line s
      ≡ codes "HTTP/1.0 " ++ (to_string (code_of s) ++ (codes " " ++ (reason s ++ crlf)))
unfolding status_line code_of reason to_string
status_line-code_of ok = refl
status_line-code_of _ = refl

-- The page that names a status.
abbrev pub page : Bytes → Bytes → Bytes
page code reason =
    codes "<html><head><title>"
    ++ (reason
        ++ (codes "</title></head><body><h1>"
            ++ (code ++ (codes " " ++ (reason ++ codes "</h1></body></html>")))))

-- The stock page of every status but 200 and 204 shows the code and the reason of the status line.
pub stock_content-page :
    (s : StatusType)
    → s ≢ ok
    → s ≢ no_content
    → stock_content s ≡ page (to_string (code_of s)) (reason s)
unfolding stock_content code_of reason to_string
stock_content-page ok a b = absurd (a refl)
stock_content-page no_content a b = absurd (b refl)
stock_content-page _ a b = refl

-- The page of 204 shows another reason than its status line.
no_content_page :
    stock_content no_content ≢ page (to_string (code_of no_content)) (reason no_content)
unfolding stock_content code_of reason to_string
no_content_page = λ e. omega (arith, ap length e)

-- A receiver's place in the lines before the body: at the start of a line, inside one, or after a
-- CR at either place.
pub data Place : Type 0 where
  start inside start_cr inside_cr : Place

-- The receiver looks for the first empty line: what follows it is the body.
pub body_from : Place → Bytes → Option Bytes
body_from p [] = none
body_from start (c ∷ cs) = body_from (if c == b'\r' then start_cr else inside) cs
body_from inside (c ∷ cs) = body_from (if c == b'\r' then inside_cr else inside) cs
body_from inside_cr (c ∷ cs) = body_from (if c == b'\n' then start else inside) cs
body_from start_cr (c ∷ cs) = let line = body_from inside cs in if c == b'\n' then some cs else line

pub body_of : Bytes → Option Bytes
unfolding body_from
body_of = body_from start

abbrev pub NotCr : ℕ → Type 0
NotCr c = (c == b'\r') ≡ false

abbrev pub IsLine : Header → Type 0
IsLine h = All NotCr h.name × All NotCr h.value

inside-append :
    (xs rest : Bytes) → All NotCr xs → body_from inside (xs ++ rest) ≡ body_from inside rest
unfolding body_from
inside-append [] rest n = refl
inside-append (x ∷ xs) rest n = rw (n.0, body_from) (inside-append xs rest n.1)

name-append :
    (xs rest : Bytes) → All NotCr xs → body_from start (xs ++ b':' ∷ rest) ≡ body_from inside rest
unfolding body_from
name-append [] rest n = refl
name-append (x ∷ xs) rest n = rw (n.0, body_from) (inside-append xs (b':' ∷ rest) n.1)

status_line-append :
    (s : StatusType) (rest : Bytes) → body_from start (status_line s ++ rest) ≡ body_from start rest
unfolding body_from status_line
status_line-append ok rest = refl
status_line-append _ rest = refl

header_buffers-append :
    (hs : List Header) (content : Bytes)
    → All IsLine hs
    → body_from start (sent (header_buffers hs ++ crlf ∷ content ∷ [])) ≡ some (content ++ [])
unfolding body_from
header_buffers-append [] content w = refl
header_buffers-append (h ∷ hs) content w =
    name-append h.name _ w.0.0
    ∙ inside-append h.value _ w.0.1
    ∙ header_buffers-append hs content w.1

-- A receiver that skips to the first empty line of the bytes sent finds exactly the content, if no
-- header holds a CR.
pub body_of-to_buffers :
    (r : Reply) → All IsLine r.headers → body_of (sent (to_buffers r)) ≡ some r.content
unfolding to_buffers body_of
body_of-to_buffers r w =
    status_line-append r.status _ ∙ header_buffers-append r.headers r.content w ∙ rw append-nil

pub NotCr-Digit : (xs : Bytes) → All Digit xs → All NotCr xs
NotCr-Digit [] d = tt
NotCr-Digit (x ∷ xs) d = (ground arith, NotCr-Digit xs d.1)

-- Every stock reply is framed: its body on the wire is its content, and its Content-Length header,
-- which comes first, reads as the length of that content.
pub stock_reply-framed :
    (s : StatusType)
    → (body_of (sent (to_buffers (stock_reply s))) ≡ some (stock_content s))
      × (Option.map (λ h. read_decimal 0 h.value) (get_elem? (stock_reply s).headers 0)
          ≡ some (length (stock_content s)))
unfolding stock_reply
stock_reply-framed s = (
  body_of-to_buffers (stock_reply s)
      ((ground arith, NotCr-Digit _ (to_string-Digit _)), ((ground arith, ground arith), tt)),
  rw read_decimal-to_string refl,
)
