-- ===== src/Networks/RequestParser/RoundTrip.antt =====
-- A request that is written and then parsed comes back.
use minority_viewport.Base.{ℕ, [], ◌++◌, append_assoc, Bytes, ok, ◌≡◌, refl, ◌∙◌}
use minority_viewport.Base.Decimal.{
  to_string, to_string-Digit, to_string-ne-nil, read_decimal_32-to_string,
}
use minority_viewport.Networks.Request.{Request, blank}
use minority_viewport.Networks.RequestParser.{complete, State, reset, parse}
use minority_viewport.Networks.RequestParser.Printing.{IsWellFormed, print}
use minority_viewport.Networks.RequestParser.Lines.{
  parse_headers, method_part, uri_part, version_part,
}

-- A request with a token for its method, a URI without spaces and control characters, a version in
-- 32-bit range, tokens for its header names and header values without control characters, written
-- out and parsed by a fresh parser into an empty request (its version fields may hold anything),
-- gives a complete request equal to it, and leaves exactly what follows it unread.
pub parse-print :
    (q : Request) (major minor : ℕ) (rest : Bytes)
    → IsWellFormed q
    → parse reset (blank major minor) (print q ++ rest)
      ≡ ok (complete, State.expecting_newline_3, q, rest)
unfolding print
parse-print q major minor rest w = simp append_assoc (
    method_part (blank major minor) q.method _ refl w.method_ne_nil w.method_bytes
    ∙ uri_part (record (blank major minor) { method = q.method }) q.uri _ refl w.uri_bytes
    ∙ version_part (record (blank major minor) { method = q.method; uri = q.uri })
        (to_string q.http_version_major) (to_string q.http_version_minor) _ (to_string-ne-nil _)
        (to_string-Digit _) (to_string-ne-nil _) (to_string-Digit _)
    ∙ rw
        (
          read_decimal_32-to_string q.http_version_major w.major_bound,
          read_decimal_32-to_string q.http_version_minor w.minor_bound,
        )
        (parse_headers q [] q.headers rest w.headers_are))
