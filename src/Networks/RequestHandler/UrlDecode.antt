-- ===== src/Networks/RequestHandler/UrlDecode.antt =====
-- Networks/RequestHandler.cpp, `url_decode`.
use mathlib.Core.Option
use minority_viewport.Base.{
  ℕ, zero, suc, ◌+◌, ◌-◌, ◌*◌, ◌/◌, ◌%◌, ◌≤◌, ◌<◌, Bool, true, false, ◌&&◌, ◌||◌, [], ◌∷◌, Bytes,
  All, length, Option, none, some, leb, ltb, ◌==◌, if◌then◌else◌, ◌≡◌, refl, arith, Bool-cases, inl,
  inr,
}

-- `isspace` in the classic locale: what a formatted extraction skips.
unfoldable pub is_space : ℕ → Bool
is_space c = (leb 9 c && leb c 13) || c == b' '

unfoldable pub hex_digit : ℕ → Option ℕ
hex_digit c =
    if leb b'0' c && leb c b'9'
    then some (c - b'0')
    else if leb b'a' c && leb c b'f'
    then some (c - b'a' + 10)
    else if leb b'A' c && leb c b'F'
    then some (c - b'A' + 10)
    else none

-- `static_cast<char>(-n)`, as a byte.
abbrev negate : ℕ → ℕ
negate n = (256 - n) % 256

-- The digits that `is >> std::hex` reads once blanks and a sign are behind it: `0x` announces digits
-- that do not follow, and the extraction stops before a byte that is no digit.
unfoldable pub digits_of : ℕ → ℕ → Option ℕ
digits_of a b = elim (hex_digit a) [
  | none ↦ none
  | some h ↦
      if a == b'0' && (b == b'x' || b == b'X')
      then none
      else elim (hex_digit b) [ none ↦ some h | some l ↦ some (h * 16 + l) ]
]

-- `is >> std::hex >> value` on a stream of two bytes, and the cast of the value to `char`. A blank
-- is skipped and a sign is taken, so that one digit is left.
unfoldable pub hex_byte : ℕ → ℕ → Option ℕ
hex_byte a b =
    if is_space a
    then hex_digit b
    else if a == b'+'
    then hex_digit b
    else if a == b'-'
    then Option.map negate (hex_digit b)
    else digits_of a b

-- A byte outside an escape.
abbrev pub plain : ℕ → ℕ
plain c = if c == b'+' then b' ' else c

abbrev pub push : ℕ → Option Bytes → Option Bytes
push c (some out) = some (c ∷ out)
push c none = none

-- `none` is the answer false.
unfoldable pub url_decode : Bytes → Option Bytes
url_decode [] = some []
url_decode (c ∷ []) = if c == b'%' then none else some (plain c ∷ [])
url_decode (c ∷ a ∷ []) =
    let rest = url_decode (a ∷ []) in if c == b'%' then none else push (plain c) rest
url_decode (c ∷ a ∷ b ∷ cs) =
    let escaped : Option Bytes = elim (hex_byte a b) [
      | none ↦ none
      | some v ↦ push v (url_decode cs)
    ] in
    let rest = push (plain c) (url_decode (a ∷ b ∷ cs)) in if c == b'%' then escaped else rest

-- An encoder: every byte as an escape with two upper-case digits.
abbrev pub hex_char : ℕ → ℕ
hex_char d = if ltb d 10 then b'0' + d else b'A' + (d - 10)

abbrev pub url_encode : Bytes → Bytes
url_encode [] = []
url_encode (c ∷ cs) = b'%' ∷ hex_char (c / 16) ∷ hex_char (c % 16) ∷ url_encode cs

-- A test passed by each of the `n` bytes below `n`.
passes : (ℕ → Bool) → ℕ → Bool
passes test zero = true
passes test (suc n) = passes test n && test n

passes-below : (test : ℕ → Bool) (n c : ℕ) → c < n → passes test n ≡ true → test c ≡ true
unfolding passes
passes-below test zero c below passed = absurd (omega arith)
passes-below test (suc n) c below passed = ground (passes-below test n c, arith)

abbrev is_some_of : Option ℕ → ℕ → Bool
is_some_of none n = false
is_some_of (some m) n = m == n

hex_byte_table :
    passes (λ c. is_some_of (hex_byte (hex_char (c / 16)) (hex_char (c % 16))) c) 256 ≡ true
unfolding passes hex_byte is_space hex_digit digits_of
hex_byte_table = refl

is_some_of→eq : (o : Option ℕ) (n : ℕ) → is_some_of o n ≡ true → o ≡ some n
is_some_of→eq none n h = cc
is_some_of→eq (some m) n h = ground arith

hex_byte-hex_char : (c : ℕ) → c < 256 → hex_byte (hex_char (c / 16)) (hex_char (c % 16)) ≡ some c
hex_byte-hex_char c h = is_some_of→eq _ c (passes-below _ 256 c h hex_byte_table)

abbrev pub Byte : ℕ → Type 0
Byte c = c < 256

-- Decoding what was encoded gives back every text of bytes.
pub url_decode-url_encode : (xs : Bytes) → All Byte xs → url_decode (url_encode xs) ≡ some xs
unfolding url_decode
url_decode-url_encode [] b = refl
url_decode-url_encode (c ∷ cs) b = rw (hex_byte-hex_char c b.0, url_decode-url_encode cs b.1) refl

abbrev Fits : ℕ → Option Bytes → Type 0
Fits n none = Unit
Fits n (some ys) = length ys ≤ n

push-Fits : (n m c : ℕ) (o : Option Bytes) → n < m → Fits n o → Fits m (push c o)
push-Fits n m c none h f = tt
push-Fits n m c (some ys) h f = omega arith

escaped-Fits :
    (n m : ℕ) (v : Option ℕ) (o : Option Bytes)
    → n < m
    → Fits n o
    → Fits m (elim v [ none ↦ none | some c ↦ push c o ])
escaped-Fits n m none o h f = tt
escaped-Fits n m (some c) o h f = push-Fits n m c o h f

url_decode-Fits : (xs : Bytes) → Fits (length xs) (url_decode xs)
unfolding url_decode
url_decode-Fits [] = omega arith
url_decode-Fits (c ∷ []) = ground arith
url_decode-Fits (c ∷ a ∷ []) =
    ground (
      arith,
      push-Fits 1 2 (plain c) (url_decode (a ∷ [])) (omega arith) (url_decode-Fits (a ∷ [])),
    )
url_decode-Fits (c ∷ a ∷ b ∷ cs) = elim (Bool-cases (c == b'%')) [
  | inl e ↦
      rw e (
        escaped-Fits (length cs) _ (hex_byte a b) (url_decode cs) (omega arith)
          (url_decode-Fits cs))
  | inr e ↦ rw e (
      push-Fits _ _ (plain c) (url_decode (a ∷ b ∷ cs)) (omega arith)
        (url_decode-Fits (a ∷ b ∷ cs)))
]

-- A decoded text is no longer than the text it came from.
pub length-url_decode : (xs : Bytes) {ys : Bytes} → url_decode xs ≡ some ys → length ys ≤ length xs
length-url_decode xs e = rw e at (url_decode-Fits xs)

hex_digit_range :
    (a v : ℕ)
    → hex_digit a ≡ some v
    → (is_space a ≡ false) × ((a == b'+') ≡ false) × ((a == b'-') ≡ false)
unfolding hex_digit is_space
hex_digit_range a v h = ground arith

digits_of_one :
    (a b v : ℕ)
    → hex_digit a ≡ some v
    → hex_digit b ≡ none
    → (a == b'0') ≡ false
    → digits_of a b ≡ some v
unfolding digits_of
digits_of_one a b v ha hb n = ground arith

hex_byte_one :
    (a b v : ℕ)
    → hex_digit a ≡ some v
    → hex_digit b ≡ none
    → (a == b'0') ≡ false
    → hex_byte a b ≡ some v
unfolding hex_byte
hex_byte_one a b v ha hb n =
    let (s, p, m) = hex_digit_range a v ha in rw (s, p, m, digits_of_one a b v ha hb n) refl

-- A malformed escape is accepted: after one hexadecimal digit any byte that is none is dropped, but
-- for an `x` behind a zero.
pub url_decode_lax :
    (a b v : ℕ) (cs : Bytes)
    → hex_digit a ≡ some v
    → hex_digit b ≡ none
    → (a == b'0') ≡ false
    → url_decode (b'%' ∷ a ∷ b ∷ cs) ≡ push v (url_decode cs)
unfolding url_decode
url_decode_lax a b v cs ha hb n = rw (hex_byte_one a b v ha hb n) refl
