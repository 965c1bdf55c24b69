-- ===== src/Networks/RequestParser/Soundness.antt =====
-- What is known of the request in each state of the parser, and of a request accepted at the end.
pub mod Headers
use minority_viewport.Base.{
  ℕ, ◌^◌, ◌<◌, List, [], ◌∷◌, ◌++◌, Bytes, All, All-append, Result, ok, err, ◌>>=◌, ◌≡◌, ◌≢◌, refl,
  arith,
}
use minority_viewport.Networks.Request.{Header, Request, blank}
use minority_viewport.Networks.RequestParser.{
  Tribool, complete, invalid, indeterminate, State, Step, reset, more, consume, Parsed, parse,
  decide, on_back, change_back, push_value, push_name,
}
use minority_viewport.Networks.RequestParser.Printing.{
  TokenByte, TextByte, UriByte, IsHeader, IsWellFormed,
}
use minority_viewport.Networks.RequestParser.Soundness.Headers.{
  Changed, on_back-Changed, append-ne-nil, push_name-IsHeader, push_value-IsHeader,
}

-- Before the request line is over.
pub record Named (r : Request) : Type 0 where
  pub method_ne_nil : r.method ≢ []
  pub method_bytes : All TokenByte r.method
  pub uri_bytes : All UriByte r.uri
  pub headers_are : All IsHeader r.headers

pub record Versioned (r : Request) : Type 0 where
  pub major_bound : r.http_version_major < 2 ^ 32
  pub minor_bound : r.http_version_minor < 2 ^ 32

-- The parser's invariant; where a header is open there is one.
abbrev pub Inv : State → Request → Type 0
Inv State.method_start r = (r.method ≡ []) × All UriByte r.uri × All IsHeader r.headers
Inv State.method r = Named r
Inv State.uri r = Named r
Inv State.http_version_h r = Named r
Inv State.http_version_t_1 r = Named r
Inv State.http_version_t_2 r = Named r
Inv State.http_version_p r = Named r
Inv State.http_version_slash r = Named r
Inv State.http_version_major_start r = Named r × Versioned r
Inv State.http_version_major r = Named r × Versioned r
Inv State.http_version_minor_start r = Named r × Versioned r
Inv State.http_version_minor r = Named r × Versioned r
Inv State.expecting_newline_1 r = Named r × Versioned r
Inv State.header_line_start r = Named r × Versioned r
Inv State.header_lws r = Named r × Versioned r × (r.headers ≢ [])
Inv State.header_name r = Named r × Versioned r × (r.headers ≢ [])
Inv State.space_before_header_value r = Named r × Versioned r × (r.headers ≢ [])
Inv State.header_value r = Named r × Versioned r × (r.headers ≢ [])
Inv State.expecting_newline_2 r = Named r × Versioned r
Inv State.expecting_newline_3 r = Named r × Versioned r

-- What holds after an answer.
abbrev Kept : Tribool → State → Request → Type 0
Kept complete s r = Named r × Versioned r
Kept invalid s r = Unit
Kept indeterminate s r = Inv s r

-- The byte is taken with no undefined access.
abbrev Keeps : Step → Type 0
Keeps (ok (t, s, r)) = Kept t s r
Keeps (err e) = ⊥

module _ (f : Header → Header) (r : Request) (k : (h : Header) → IsHeader h → IsHeader (f h)) where
  changed_back :
      (s : State)
      → Named r
      → Versioned r
      → r.headers ≢ []
      → (hs : List Header) × (change_back f s r ≡ more s (record r { headers = hs }))
        × Named (record r { headers = hs })
        × Versioned (record r { headers = hs })
        × (hs ≢ [])
  changed_back s w v n =
      let d = on_back-Changed f r.headers k n w.headers_are in
      (
        d.after,
        rw d.is_ok,
        record {
          method_ne_nil = w.method_ne_nil;
          method_bytes = w.method_bytes;
          uri_bytes = w.uri_bytes;
          headers_are = d.after_are;
        },
        record { major_bound = v.major_bound; minor_bound = v.minor_bound },
        d.after_ne_nil,
      )

  name-Keeps : Named r → Versioned r → r.headers ≢ [] → Keeps (change_back f State.header_name r)
  name-Keeps w v n = let (hs, e, a, b, d) = changed_back State.header_name w v n in rw e (a, b, d)

  value-Keeps : Named r → Versioned r → r.headers ≢ [] → Keeps (change_back f State.header_value r)
  value-Keeps w v n = let (hs, e, a, b, d) = changed_back State.header_value w v n in rw e (a, b, d)

push_method :
    (r : Request) (c : ℕ) → Named r → TokenByte c → Named (record r { method = r.method ++ c ∷ [] })
push_method r c w t = record {
  method_ne_nil = append-ne-nil r.method c;
  method_bytes = All-append TokenByte r.method _ w.method_bytes (t, tt);
  uri_bytes = w.uri_bytes;
  headers_are = w.headers_are;
}

first_method :
    (r : Request) (c : ℕ)
    → All UriByte r.uri
    → All IsHeader r.headers
    → r.method ≡ []
    → TokenByte c
    → Named (record r { method = r.method ++ c ∷ [] })
first_method r c u h e t = record {
  method_ne_nil = append-ne-nil r.method c;
  method_bytes = rw e (t, tt);
  uri_bytes = u;
  headers_are = h;
}

push_uri : (r : Request) (c : ℕ) → Named r → UriByte c → Named (record r { uri = r.uri ++ c ∷ [] })
push_uri r c w t = record {
  method_ne_nil = w.method_ne_nil;
  method_bytes = w.method_bytes;
  uri_bytes = All-append UriByte r.uri _ w.uri_bytes (t, tt);
  headers_are = w.headers_are;
}

open_header :
    (r : Request) (c : ℕ)
    → Named r
    → TokenByte c
    → Named (record r { headers = r.headers ++ record { name = c ∷ []; value = [] } ∷ [] })
open_header r c w t = record {
  method_ne_nil = w.method_ne_nil;
  method_bytes = w.method_bytes;
  uri_bytes = w.uri_bytes;
  headers_are =
      All-append IsHeader r.headers _ w.headers_are
        (record { name_ne_nil = λ e. cc; name_bytes = (t, tt); value_bytes = tt }, tt);
}

consume-Keeps : (s : State) (r : Request) (c : ℕ) → Inv s r → Keeps (consume s r c)
unfolding consume
consume-Keeps State.method_start r c w = ground (arith, first_method r c w.1 w.2)
consume-Keeps State.method r c w = ground (arith, push_method r c w)
consume-Keeps State.uri r c w = ground (arith, push_uri r c w)
consume-Keeps State.header_line_start r c w = ground (arith, open_header r c w.0)
consume-Keeps State.header_lws r c (w, v, n) =
    ground (arith, λ (t : TextByte c). value-Keeps (push_value c) r (push_value-IsHeader c t) w v n)
consume-Keeps State.header_name r c (w, v, n) =
    ground (arith, λ (t : TokenByte c). name-Keeps (push_name c) r (push_name-IsHeader c t) w v n)
consume-Keeps State.header_value r c (w, v, n) =
    ground (arith, λ (t : TextByte c). value-Keeps (push_value c) r (push_value-IsHeader c t) w v n)
consume-Keeps _ r c w = ground arith

-- An answer of the whole parse: no undefined access, and a complete request is well formed.
abbrev pub Answers : Parsed → Type 0
Answers (ok (complete, s, q, rest)) = IsWellFormed q
Answers (ok (invalid, s, q, rest)) = Unit
Answers (ok (indeterminate, s, q, rest)) = Inv s q × (rest ≡ [])
Answers (err e) = ⊥

decide-Answers :
    (m : Step) (f : State → Request → Parsed) (cs : Bytes)
    → Keeps m
    → ((s : State) (r : Request) → Inv s r → Answers (f s r))
    → Answers (m >>= decide f cs)
decide-Answers (ok (complete, s, r)) f cs (w, v) h = record {
  method_ne_nil = w.method_ne_nil;
  method_bytes = w.method_bytes;
  uri_bytes = w.uri_bytes;
  major_bound = v.major_bound;
  minor_bound = v.minor_bound;
  headers_are = w.headers_are;
}
decide-Answers (ok (invalid, s, r)) f cs k h = tt
decide-Answers (ok (indeterminate, s, r)) f cs k h = h s r k
decide-Answers (err e) f cs k h = absurd k

parse-Inv : (s : State) (r : Request) (xs : Bytes) → Inv s r → Answers (parse s r xs)
unfolding parse
parse-Inv s r [] w = (w, refl)
parse-Inv s r (c ∷ cs) w =
    decide-Answers (consume s r c) _ cs (consume-Keeps s r c w) (λ s' r' w'. parse-Inv s' r' cs w')

-- Whatever bytes a fresh parser is given, it never touches the last header of an empty list, and a
-- request that it declares complete is well formed: its method is a token, its URI has no spaces or
-- control characters, its version is within 32 bits, its header names are tokens and its header
-- values have no control characters. While the answer is indeterminate all bytes are consumed and
-- the invariant of the state reached holds.
pub parse-IsWellFormed :
    (major minor : ℕ) (xs : Bytes) → Answers (parse reset (blank major minor) xs)
parse-IsWellFormed major minor xs = parse-Inv reset (blank major minor) xs (refl, tt, tt)
