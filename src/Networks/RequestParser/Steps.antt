-- ===== src/Networks/RequestParser/Steps.antt =====
-- One byte read in each state of the parser, and the states that read a run of bytes.
use minority_viewport.Base.{
  ℕ, List, [], ◌∷◌, ◌++◌, append_assoc, append-nil, Bytes, All, ok, ◌≡◌, refl, ◌∙◌, arith,
}
use minority_viewport.Base.Decimal.{Digit, read_decimal_32}
use minority_viewport.Networks.Request.{Header, Request}
use minority_viewport.Networks.RequestParser.{
  State, more, consume, parse, on_back, is_ctl, is_tspecial, is_digit, push_value, push_name,
  next_digit,
}
use minority_viewport.Networks.RequestParser.Printing.{TokenByte, TextByte, UriByte}

-- A state that appends each byte of a kind to a text in the request.
pub parse_text :
    (s : State) (P : ℕ → Type 0) (g : Bytes → Request)
    → ((x : Bytes) (c : ℕ) → P c → consume s (g x) c ≡ more s (g (x ++ c ∷ [])))
    → (x xs rest : Bytes) → All P xs
    → parse s (g x) (xs ++ rest) ≡ parse s (g (x ++ xs)) rest
unfolding parse
parse_text s P g h x [] rest p = rw (append-nil x)
parse_text s P g h x (c ∷ xs) rest p =
    rw (h x c p.0) (parse_text s P g h (x ++ c ∷ []) xs rest p.1 ∙ rw append_assoc refl)

-- A state that reads digits into a number.
pub parse_number :
    (s : State) (g : ℕ → Request)
    → ((n c : ℕ) → Digit c → consume s (g n) c ≡ more s (g (next_digit n c)))
    → (n : ℕ) (xs rest : Bytes) → All Digit xs
    → parse s (g n) (xs ++ rest) ≡ parse s (g (read_decimal_32 n xs)) rest
unfolding parse
parse_number s g h n [] rest p = refl
parse_number s g h n (c ∷ xs) rest p =
    rw (h n c p.0) (parse_number s g h (next_digit n c) xs rest p.1)

pub on_back-append :
    (f : Header → Header) (hs : List Header) (h : Header)
    → on_back f (hs ++ h ∷ []) ≡ ok (hs ++ f h ∷ [])
unfolding on_back
on_back-append f [] h = refl
on_back-append f (g ∷ []) h = refl
on_back-append f (g ∷ k ∷ hs) h = rw (on_back-append f (k ∷ hs) h)

module _ (q : Request) where
  pub method_byte :
      (x : Bytes) (c : ℕ)
      → TokenByte c
      → consume State.method (record q { method = x }) c
        ≡ more State.method (record q { method = x ++ c ∷ [] })
  unfolding consume is_tspecial
  method_byte x c t = ground arith

  pub first_byte :
      (c : ℕ)
      → TokenByte c
      → q.method ≡ []
      → consume State.method_start q c ≡ more State.method (record q { method = c ∷ [] })
  unfolding consume
  first_byte c t e = ground arith

  pub uri_byte :
      (x : Bytes) (c : ℕ)
      → UriByte c
      → consume State.uri (record q { uri = x }) c ≡ more State.uri (record q { uri = x ++ c ∷ [] })
  unfolding consume
  uri_byte x c t = ground arith

  pub major_byte :
      (n c : ℕ)
      → Digit c
      → consume State.http_version_major (record q { http_version_major = n }) c
        ≡ more State.http_version_major (record q { http_version_major = next_digit n c })
  unfolding consume is_digit
  major_byte n c t = ground arith

  pub minor_byte :
      (n c : ℕ)
      → Digit c
      → consume State.http_version_minor (record q { http_version_minor = n }) c
        ≡ more State.http_version_minor (record q { http_version_minor = next_digit n c })
  unfolding consume is_digit
  minor_byte n c t = ground arith

  -- The first digit of a number stands in a state of its own.
  pub major_first :
      (c : ℕ)
      → Digit c
      → consume State.http_version_major_start (record q { http_version_major = 0 }) c
        ≡ more State.http_version_major (record q { http_version_major = next_digit 0 c })
  unfolding consume is_digit
  major_first c t = ground arith

  pub minor_first :
      (c : ℕ)
      → Digit c
      → consume State.http_version_minor_start (record q { http_version_minor = 0 }) c
        ≡ more State.http_version_minor (record q { http_version_minor = next_digit 0 c })
  unfolding consume is_digit
  minor_first c t = ground arith

  module _ (hs : List Header) where
    pub name_byte :
        (x : Bytes) (c : ℕ)
        → TokenByte c
        → consume State.header_name
            (record q { headers = hs ++ record { name = x; value = [] } ∷ [] })
            c
          ≡ more State.header_name
              (record q { headers = hs ++ record { name = x ++ c ∷ []; value = [] } ∷ [] })
    unfolding consume is_tspecial
    name_byte x c t =
        ground (arith, on_back-append (push_name c) hs (record { name = x; value = [] }))

    pub value_byte :
        (n x : Bytes) (c : ℕ)
        → TextByte c
        → consume State.header_value
            (record q { headers = hs ++ record { name = n; value = x } ∷ [] })
            c
          ≡ more State.header_value
              (record q { headers = hs ++ record { name = n; value = x ++ c ∷ [] } ∷ [] })
    unfolding consume is_ctl
    value_byte n x c t =
        ground (arith, on_back-append (push_value c) hs (record { name = n; value = x }))

    -- At the start of a line the first byte of a token opens a header.
    pub line_byte :
        (c : ℕ)
        → TokenByte c
        → consume State.header_line_start (record q { headers = hs }) c
          ≡ more State.header_name
              (record q { headers = hs ++ record { name = c ∷ []; value = [] } ∷ [] })
    unfolding consume is_tspecial is_ctl
    line_byte c t = ground arith
