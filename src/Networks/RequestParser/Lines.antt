-- ===== src/Networks/RequestParser/Lines.antt =====
-- The parts of a request: a header line, the header block, the method, the URI, the version.
use minority_viewport.Base.{
  List, [], ◌∷◌, ◌++◌, append_assoc, append-nil, Bytes, All, ok, ◌≡◌, ◌≢◌, refl, ap, ◌∙◌,
}
use minority_viewport.Base.Decimal.{Digit, read_decimal_32}
use minority_viewport.Networks.Request.{Header, Request}
use minority_viewport.Networks.RequestParser.{complete, State, consume, parse, is_digit, next_digit}
use minority_viewport.Networks.RequestParser.Printing.{
  TokenByte, TextByte, UriByte, IsHeader, print_headers,
}
use minority_viewport.Networks.RequestParser.Steps.{
  parse_text, parse_number, method_byte, first_byte, uri_byte, major_byte, minor_byte, major_first,
  minor_first, name_byte, value_byte, line_byte,
}

module _ (q : Request) (hs : List Header) where
  header_line :
      (n v rest : Bytes)
      → n ≢ []
      → All TokenByte n
      → All TextByte v
      → parse State.header_line_start
          (record q { headers = hs })
          (n ++ b':' ∷ b' ' ∷ (v ++ b'\r' ∷ b'\n' ∷ rest))
        ≡ parse State.header_line_start
            (record q { headers = hs ++ record { name = n; value = v } ∷ [] })
            rest
  unfolding parse consume
  header_line [] v rest e t u = absurd (e refl)
  header_line (c ∷ n) v rest e t u = rw (line_byte q hs c t.0) (
      parse_text State.header_name TokenByte
        (λ x. record q { headers = hs ++ record { name = x; value = [] } ∷ [] }) (name_byte q hs)
        (c ∷ []) n _ t.1
      ∙ parse_text State.header_value TextByte
          (λ x. record q { headers = hs ++ record { name = c ∷ n; value = x } ∷ [] })
          (value_byte q hs (c ∷ n)) [] v _ u)

module _ (q : Request) where
  pub parse_headers :
      (hs ks : List Header) (rest : Bytes)
      → All IsHeader ks
      → parse State.header_line_start (record q { headers = hs }) (print_headers ks ++ rest)
        ≡ ok (complete, State.expecting_newline_3, record q { headers = hs ++ ks }, rest)
  unfolding parse consume
  parse_headers hs [] rest w = rw (append-nil hs)
  parse_headers hs (k ∷ ks) rest w = simp append_assoc (
      header_line q hs k.name k.value _ w.0.name_ne_nil w.0.name_bytes w.0.value_bytes
      ∙ parse_headers (hs ++ k ∷ []) ks rest w.1
      ∙ simp append_assoc)

  pub method_part :
      (m rest : Bytes)
      → q.method ≡ []
      → m ≢ []
      → All TokenByte m
      → parse State.method_start q (m ++ b' ' ∷ rest)
        ≡ parse State.uri (record q { method = m }) rest
  unfolding parse consume
  method_part [] rest e n t = absurd (n refl)
  method_part (c ∷ m) rest e n t = rw (first_byte q c t.0 e) (
      parse_text State.method TokenByte (λ x. record q { method = x }) (method_byte q) (c ∷ []) m _
        t.1)

  pub uri_part :
      (u rest : Bytes)
      → q.uri ≡ []
      → All UriByte u
      → parse State.uri q (u ++ b' ' ∷ rest)
        ≡ parse State.http_version_h (record q { uri = u }) rest
  unfolding parse consume
  uri_part u rest e t =
      ap (λ x. parse State.uri (record q { uri = x }) (u ++ b' ' ∷ rest)) e
      ∙ parse_text State.uri UriByte (λ x. record q { uri = x }) (uri_byte q) [] u _ t

  minor_part :
      (b rest : Bytes)
      → q.http_version_minor ≡ 0
      → b ≢ []
      → All Digit b
      → parse State.http_version_minor_start q (b ++ b'\r' ∷ b'\n' ∷ rest)
        ≡ parse State.header_line_start (record q { http_version_minor = read_decimal_32 0 b }) rest
  unfolding parse consume is_digit
  minor_part [] rest z n t = absurd (n refl)
  minor_part (c ∷ b) rest z n t =
      ap
        (λ x.
          parse State.http_version_minor_start (record q { http_version_minor = x })
            (c ∷ (b ++ b'\r' ∷ b'\n' ∷ rest)))
        z
      ∙ rw (minor_first q c t.0) (
          parse_number State.http_version_minor (λ x. record q { http_version_minor = x })
            (minor_byte q) (next_digit 0 c) b _ t.1)

module _ (q : Request) where
  pub version_part :
      (a b rest : Bytes)
      → a ≢ []
      → All Digit a
      → b ≢ []
      → All Digit b
      → parse State.http_version_h q
          (b'H' ∷ b'T' ∷ b'T' ∷ b'P' ∷ b'/' ∷ (a ++ b'.' ∷ (b ++ b'\r' ∷ b'\n' ∷ rest)))
        ≡ parse State.header_line_start
            (record q {
              http_version_major = read_decimal_32 0 a;
              http_version_minor = read_decimal_32 0 b;
            })
            rest
  unfolding parse consume is_digit
  version_part [] b rest m t n u = absurd (m refl)
  version_part (c ∷ a) b rest m t n u =
      rw (major_first (record q { http_version_minor = 0 }) c t.0) (
        parse_number State.http_version_major
          (λ x. record q { http_version_major = x; http_version_minor = 0 })
          (major_byte (record q { http_version_minor = 0 })) (next_digit 0 c) a _ t.1
        ∙ minor_part
            (record q { http_version_major = read_decimal_32 0 (c ∷ a); http_version_minor = 0 }) b
            rest refl n u)
