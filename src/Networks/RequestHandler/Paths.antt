-- ===== src/Networks/RequestHandler/Paths.antt =====
-- Networks/RequestHandler.cpp: the part of `handle_request` that turns the URI into the path of a file
-- below the document root, the extension of that path, and `request_header_val`.
use minority_viewport.Base.{
  ℕ, suc, ◌+◌, ◌<◌, Bool, true, false, not, ◌||◌, List, [], ◌∷◌, ◌++◌, Bytes, codes, All, length,
  drop, drop-length, length-append, All-append, Option, none, some, ltb, ◌==◌, if◌then◌else◌, ◌≡◌,
  ◌≢◌, refl, sym, ◌∙◌, arith, append_assoc, Option-cases, inl, inr,
}
use native.Mathlib.Numerals.{add-one}
use minority_viewport.Base.Texts.{
  bytes_eq, bytes_eq_refl, bytes_ne, has_dots, has_dots-append, find_last, find_last-append,
  Without,
}
use minority_viewport.Networks.Request.{Header, Request}
use minority_viewport.Networks.RequestHandler.UrlDecode.{url_decode}

abbrev pub starts_with_slash : Bytes → Bool
starts_with_slash [] = false
starts_with_slash (c ∷ cs) = c == b'/'

abbrev pub ends_with_slash : Bytes → Bool
ends_with_slash [] = false
ends_with_slash (c ∷ []) = c == b'/'
ends_with_slash (c ∷ d ∷ cs) = ends_with_slash (d ∷ cs)

-- The checks on the decoded path, and the name of a directory's index.
abbrev pub checked_path : Bytes → Option Bytes
checked_path path =
    if not (starts_with_slash path) || has_dots path
    then none
    else some (if ends_with_slash path then path ++ codes "index.html" else path)

-- `none` is the answer 400. An empty path does not start with a slash.
unfoldable pub request_path : Bytes → Option Bytes
request_path uri = elim (url_decode uri) [ none ↦ none | some path ↦ checked_path path ]

has_dots-index :
    (xs : Bytes)
    → has_dots xs ≡ false
    → ends_with_slash xs ≡ true
    → has_dots (xs ++ codes "index.html") ≡ false
unfolding has_dots
has_dots-index [] h e = cc
has_dots-index (x ∷ []) h e = ground arith
has_dots-index (x ∷ y ∷ xs) h e = ground (arith, has_dots-index (y ∷ xs))

ends_with_slash-index : (xs : Bytes) → ends_with_slash (xs ++ codes "index.html") ≡ false
ends_with_slash-index [] = refl
ends_with_slash-index (x ∷ []) = refl
ends_with_slash-index (x ∷ y ∷ xs) = ends_with_slash-index (y ∷ xs)

starts_with_slash-append :
    (xs ys : Bytes) → starts_with_slash xs ≡ true → starts_with_slash (xs ++ ys) ≡ true
starts_with_slash-append [] ys h = cc
starts_with_slash-append (x ∷ xs) ys h = h

-- A path that is served.
pub record IsSafe (path : Bytes) : Type 0 where
  pub rooted : starts_with_slash path ≡ true
  pub no_parent : has_dots path ≡ false
  pub names_a_file : ends_with_slash path ≡ false

checked_path-IsSafe : (path : Bytes) {p : Bytes} → checked_path path ≡ some p → IsSafe p
checked_path-IsSafe path e = ground (
  arith,
  has_dots-index path,
  ends_with_slash-index path,
  starts_with_slash-append path (codes "index.html"),
)

request_path-IsSafe : (uri : Bytes) {p : Bytes} → request_path uri ≡ some p → IsSafe p
unfolding request_path
request_path-IsSafe uri e = elim (Option-cases (url_decode uri)) [
  | inl d ↦ cc (rw (d, request_path) at e)
  | inr (path, d) ↦ checked_path-IsSafe path (rw (d, request_path) at e)
]

-- A path that passes is absolute, does not contain two dots in a row anywhere, and does not end in a
-- slash: below the document root it names a file there, never one in a parent directory.
pub request_path_contained :
    (uri xs ys : Bytes) {p : Bytes}
    → request_path uri ≡ some p
    → (starts_with_slash p ≡ true) × (p ≢ xs ++ b'.' ∷ b'.' ∷ ys) × (ends_with_slash p ≡ false)
request_path_contained uri xs ys {p} e =
    let s = request_path-IsSafe uri e in
    (s.rooted, (λ h. cc (s.no_parent, has_dots-append xs ys, h)), s.names_a_file)

checked_path_dots : (xs ys : Bytes) → checked_path (xs ++ b'.' ∷ b'.' ∷ ys) ≡ none
checked_path_dots xs ys = ground (arith, has_dots-append xs ys)

pub request_path_dots :
    (uri xs ys : Bytes) → url_decode uri ≡ some (xs ++ b'.' ∷ b'.' ∷ ys) → request_path uri ≡ none
unfolding request_path
request_path_dots uri xs ys e = rw (e, request_path) (checked_path_dots xs ys)

-- The rest after the last dot, if no slash follows that dot. A path with no slash would have no
-- extension: `npos` is above every position.
unfoldable pub extension : Bytes → Bytes
extension path = elim (find_last b'.' path) [
  | none ↦ []
  | some last_dot ↦ elim (find_last b'/' path) [
    | none ↦ []
    | some last_slash ↦ if ltb last_slash last_dot then drop (last_dot + 1) path else []
  ]
]

-- The value of the last header of that name, or the empty text. Names are compared byte by byte.
abbrev header_val : Bytes → List Header → Bytes → Bytes
header_val found [] name = found
header_val found (h ∷ hs) name =
    header_val (if bytes_eq h.name name then h.value else found) hs name

unfoldable pub request_header_val : Request → Bytes → Bytes
request_header_val r name = header_val [] r.headers name

extension_at :
    (path : Bytes) (i j : ℕ)
    → find_last b'.' path ≡ some i
    → find_last b'/' path ≡ some j
    → j < i
    → extension path ≡ drop (suc i) path
unfolding extension
extension_at path i j d s h = ground (arith, add-one i)

-- The extension of a file name is what follows its last dot.
pub extension-dot :
    (dir base ext : Bytes)
    → Without b'/' base
    → Without b'.' ext
    → Without b'/' ext
    → extension (dir ++ b'/' ∷ (base ++ b'.' ∷ ext)) ≡ ext
extension-dot dir base ext b d s =
    let front : Bytes = dir ++ b'/' ∷ base in
    let regroup : dir ++ b'/' ∷ (base ++ b'.' ∷ ext) ≡ front ++ b'.' ∷ ext =
      sym (append_assoc dir (b'/' ∷ base) (b'.' ∷ ext)) in
    extension_at _ (length front) (length dir) (rw regroup (find_last-append b'.' front ext d))
      (find_last-append b'/' dir _ (All-append _ base _ b (refl, s)))
      (omega (arith, length-append dir (b'/' ∷ base)))
    ∙ rw regroup (drop-length front ext b'.')

abbrev Unnamed : Bytes → List Header → Type 0
Unnamed name = All (λ h. h.name ≢ name)

header_val-Unnamed :
    (found : Bytes) (hs : List Header) (name : Bytes)
    → Unnamed name hs
    → header_val found hs name ≡ found
header_val-Unnamed found [] name u = refl
header_val-Unnamed found (h ∷ hs) name u =
    rw (bytes_ne h.name name u.0) (header_val-Unnamed found hs name u.1)

header_val-append :
    (found : Bytes) (before after : List Header) (h : Header)
    → Unnamed h.name after
    → header_val found (before ++ h ∷ after) h.name ≡ h.value
header_val-append found [] after h u =
    rw (header_val, bytes_eq_refl h.name) (header_val-Unnamed h.value after h.name u)
header_val-append found (k ∷ before) after h u =
    header_val-append (if bytes_eq k.name h.name then k.value else found) before after h u

-- The last header of a name decides its value, and a name that no header has gives the empty text.
pub request_header_val_last :
    (r : Request) (before after : List Header) (h : Header) (name : Bytes)
    → r.headers ≡ before ++ h ∷ after
    → Unnamed h.name after
    → Unnamed name r.headers
    → (request_header_val r h.name ≡ h.value) × (request_header_val r name ≡ [])
unfolding request_header_val
request_header_val_last r before after h name e u n =
    (rw e (header_val-append [] before after h u), header_val-Unnamed [] r.headers name n)
