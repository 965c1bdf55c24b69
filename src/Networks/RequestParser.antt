-- ===== src/Networks/RequestParser.antt =====
-- Networks/RequestParser.h and Networks/RequestParser.cpp: the state machine that reads a request
-- byte by byte. A byte is a number below 256; the source's `char` is signed, so that a byte from
-- 128 on is negative there, and is neither a character nor a control character.
pub mod Chunks
pub mod Printing
mod Steps
mod Lines
pub mod RoundTrip
pub mod Soundness
use minority_viewport.Base.{
  ℕ, ◌+◌, ◌-◌, ◌*◌, ◌%◌, ◌^◌, Bool, true, false, not, ◌&&◌, ◌||◌, List, [], ◌∷◌, ◌++◌, Bytes, codes,
  leb, ◌==◌, if◌then◌else◌, Result, ok, err, undefined, ◌>>=◌,
}
use minority_viewport.Networks.Request.{Header, Request}

-- `boost::tribool`: true, false and indeterminate.
pub data Tribool : Type 0 where
  complete invalid indeterminate : Tribool

-- `request_parser::state`, in the source's order.
pub data State : Type 0 where
  method_start method uri : State
  http_version_h http_version_t_1 http_version_t_2 http_version_p http_version_slash : State
  http_version_major_start http_version_major http_version_minor_start http_version_minor : State
  expecting_newline_1 header_line_start header_lws header_name space_before_header_value : State
  header_value expecting_newline_2 expecting_newline_3 : State

-- The constructor and `reset` leave the parser in this state.
abbrev pub reset : State
reset = method_start

unfoldable pub is_char : ℕ → Bool
is_char c = leb c 127

unfoldable pub is_ctl : ℕ → Bool
is_ctl c = leb c 31 || c == 127

-- Does the byte stand in the list of labels of the `switch`?
abbrev pub is_one_of : Bytes → ℕ → Bool
is_one_of [] c = false
is_one_of (x ∷ xs) c = c == x || is_one_of xs c

unfoldable pub is_tspecial : ℕ → Bool
is_tspecial c = is_one_of (codes "()<>@,;:\\\"/[]?={} \t") c

unfoldable pub is_digit : ℕ → Bool
is_digit c = leb b'0' c && leb c b'9'

-- The bytes refused in a method and in a header's name.
abbrev pub bad_token : ℕ → Bool
bad_token c = not (is_char c) || is_ctl c || is_tspecial c

-- One more decimal digit, in 32 bits.
abbrev pub next_digit : ℕ → ℕ → ℕ
next_digit n c = (n * 10 + (c - b'0')) % 2 ^ 32

abbrev pub Step : Type 0
Step = Result (Tribool × State × Request)

abbrev pub more : State → Request → Step
more s r = ok (indeterminate, s, r)

-- `return false`: the state stays.
abbrev pub refuse : State → Request → Step
refuse s r = ok (invalid, s, r)

-- A change of `req.headers.back()`, which is undefined on an empty vector.
unfoldable pub on_back : (Header → Header) → List Header → Result (List Header)
on_back f [] = err undefined
on_back f (h ∷ []) = ok (f h ∷ [])
on_back f (h ∷ g ∷ hs) = do rest ← on_back f (g ∷ hs); ok (h ∷ rest)

abbrev pub push_name : ℕ → Header → Header
push_name c h = record h { name = h.name ++ c ∷ [] }

abbrev pub push_value : ℕ → Header → Header
push_value c h = record h { value = h.value ++ c ∷ [] }

abbrev pub change_back : (Header → Header) → State → Request → Step
change_back f s r = do hs ← on_back f r.headers; more s (record r { headers = hs })

-- A state that waits for one byte.
abbrev pub expect : ℕ → State → State → Request → ℕ → Step
expect x s next r c = if c == x then more next r else refuse s r

abbrev pub is_blank : ℕ → Bool
is_blank c = c == b' ' || c == b'\t'

abbrev pub is_empty : List Header → Bool
is_empty [] = true
is_empty (h ∷ hs) = false

unfoldable pub consume : State → Request → ℕ → Step
consume method_start r c =
    if bad_token c
    then refuse method_start r
    else more method (record r { method = r.method ++ c ∷ [] })
consume method r c =
    if c == b' '
    then more uri r
    else if bad_token c
    then refuse method r
    else more method (record r { method = r.method ++ c ∷ [] })
consume uri r c =
    if c == b' '
    then more http_version_h r
    else if is_ctl c
    then refuse uri r
    else more uri (record r { uri = r.uri ++ c ∷ [] })
consume http_version_h r c = expect b'H' http_version_h http_version_t_1 r c
consume http_version_t_1 r c = expect b'T' http_version_t_1 http_version_t_2 r c
consume http_version_t_2 r c = expect b'T' http_version_t_2 http_version_p r c
consume http_version_p r c = expect b'P' http_version_p http_version_slash r c
consume http_version_slash r c =
    if c == b'/'
    then more http_version_major_start (record r { http_version_major = 0; http_version_minor = 0 })
    else refuse http_version_slash r
consume http_version_major_start r c =
    if is_digit c
    then more http_version_major
        (record r { http_version_major = next_digit r.http_version_major c })
    else refuse http_version_major_start r
consume http_version_major r c =
    if c == b'.'
    then more http_version_minor_start r
    else if is_digit c
    then more http_version_major
        (record r { http_version_major = next_digit r.http_version_major c })
    else refuse http_version_major r
consume http_version_minor_start r c =
    if is_digit c
    then more http_version_minor
        (record r { http_version_minor = next_digit r.http_version_minor c })
    else refuse http_version_minor_start r
consume http_version_minor r c =
    if c == b'\r'
    then more expecting_newline_1 r
    else if is_digit c
    then more http_version_minor
        (record r { http_version_minor = next_digit r.http_version_minor c })
    else refuse http_version_minor r
consume expecting_newline_1 r c = expect b'\n' expecting_newline_1 header_line_start r c
consume header_line_start r c =
    if c == b'\r'
    then more expecting_newline_3 r
    else if not (is_empty r.headers) && is_blank c
    then more header_lws r
    else if bad_token c
    then refuse header_line_start r
    else more header_name
        (record r { headers = r.headers ++ record { name = c ∷ []; value = [] } ∷ [] })
consume header_lws r c =
    if c == b'\r'
    then more expecting_newline_2 r
    else if is_blank c
    then more header_lws r
    else if is_ctl c
    then refuse header_lws r
    else change_back (push_value c) header_value r
consume header_name r c =
    if c == b':'
    then more space_before_header_value r
    else if bad_token c
    then refuse header_name r
    else change_back (push_name c) header_name r
consume space_before_header_value r c = expect b' ' space_before_header_value header_value r c
consume header_value r c =
    if c == b'\r'
    then more expecting_newline_2 r
    else if is_ctl c
    then refuse header_value r
    else change_back (push_value c) header_value r
consume expecting_newline_2 r c = expect b'\n' expecting_newline_2 header_line_start r c
consume expecting_newline_3 r c =
    ok ((if c == b'\n' then complete else invalid), expecting_newline_3, r)

-- What `parse` returns, with the parser's state and the request after it, and the bytes from the
-- returned iterator on.
abbrev pub Parsed : Type 0
Parsed = Result (Tribool × State × Request × Bytes)

-- The loop's body after `consume`: return a decided answer, or read on.
abbrev pub decide : (State → Request → Parsed) → Bytes → Tribool × State × Request → Parsed
decide read_on cs (complete, s, r) = ok (complete, s, r, cs)
decide read_on cs (invalid, s, r) = ok (invalid, s, r, cs)
decide read_on cs (indeterminate, s, r) = read_on s r

unfoldable pub parse : State → Request → Bytes → Parsed
parse s r [] = ok (indeterminate, s, r, [])
parse s r (c ∷ cs) = consume s r c >>= decide (λ s' r'. parse s' r' cs) cs
