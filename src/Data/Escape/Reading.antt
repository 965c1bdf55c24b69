-- ===== src/Data/Escape/Reading.antt =====
-- What a JSON reader makes of an identifier that was written so.
use minority_viewport.Base.{
  ℕ, Bool, true, false, not, ◌&&◌, ◌||◌, All, [], ◌∷◌, ◌++◌, append_assoc, Bytes, Option, none,
  some, ok, ◌==◌, if◌then◌else◌, ◌≡◌, ◌≢◌, refl, ◌∙◌, ap,
}
use minority_viewport.Data.Escape.{backslash, escape}
use minority_viewport.Data.Escape.Pass.{escaped, escape-escaped}

abbrev pub quote : ℕ
quote = b'"'

abbrev pub with_first : ℕ → Option (Bytes × Bytes) → Option (Bytes × Bytes)
with_first c none = none
with_first c (some (t, rest)) = some (c ∷ t, rest)

-- The byte that an escape of one letter stands for.
unfoldable pub escape_of : ℕ → Option ℕ
escape_of d =
    if d == quote || d == backslash || d == b'/'
    then some d
    else if d == b'b'
    then some 8
    else if d == b'f'
    then some 12
    else if d == b'n'
    then some 10
    else if d == b'r'
    then some 13
    else if d == b't'
    then some 9
    else none

abbrev pub with_escape : Option ℕ → Option (Bytes × Bytes) → Option (Bytes × Bytes)
with_escape none rest = none
with_escape (some c) rest = with_first c rest

-- A JSON string from behind its first quote: what it stands for and the bytes behind its last quote.
-- An escape that is none, and a string without an end, are refused; so is an escape by a number,
-- which is left out here.
unfoldable pub read_string : Bytes → Option (Bytes × Bytes)
unfolding escape_of
read_string [] = none
read_string (c ∷ []) = if c == quote then some ([], []) else none
read_string (c ∷ d ∷ s) =
    if c == quote
    then some ([], d ∷ s)
    else if c == backslash
    then with_escape (escape_of d) (read_string s)
    else with_first c (read_string (d ∷ s))

-- Is there a backslash among the first two bytes?
abbrev pub backslash_near : Bytes → Bool
backslash_near [] = false
backslash_near (c ∷ []) = c == backslash
backslash_near (c ∷ d ∷ s) = c == backslash || d == backslash

-- There is no quote, and no backslash among the two bytes behind a backslash.
abbrev pub is_spaced : Bytes → Bool
is_spaced [] = true
is_spaced (c ∷ s) =
    not (c == quote) && (not (c == backslash) || not (backslash_near s)) && is_spaced s

read_plain :
    (c : ℕ) (t : Bytes)
    → (c == quote) ≡ false
    → (c == backslash) ≡ false
    → read_string (c ∷ t) ≡ with_first c (read_string t)
unfolding read_string
read_plain c [] p q = rw p refl
read_plain c (d ∷ t) p q = rw (p, q) refl

-- A byte that is read as itself.
abbrev pub Plain : ℕ → Type 0
Plain c = ((c == quote) ≡ false) × ((c == backslash) ≡ false)

read_string-Plain : (x t : Bytes) → All Plain x → read_string t ≡ none → read_string (x ++ t) ≡ none
read_string-Plain [] t a h = h
read_string-Plain (c ∷ x) t a h =
    read_plain c (x ++ t) a.0.0 a.0.1 ∙ rw (read_string-Plain x t a.1 h) refl

escaped-cons : (c : ℕ) (t : Bytes) → (c == backslash) ≡ false → escaped (c ∷ t) ≡ c ∷ escaped t
unfolding escaped
escaped-cons c [] h = rw h refl
escaped-cons c (d ∷ []) h = rw h refl
escaped-cons c (d ∷ e ∷ t) h = rw h refl

escaped-Plain : (x t : Bytes) → All Plain x → escaped (x ++ t) ≡ x ++ escaped t
escaped-Plain [] t a = refl
escaped-Plain (c ∷ x) t a = escaped-cons c (x ++ t) a.0.1 ∙ ap (◌∷◌ c) (escaped-Plain x t a.1)

read_pair :
    (c : ℕ) (s rest : Bytes)
    → Plain c
    → escape_of c ≡ none
    → read_string (escaped (backslash ∷ backslash ∷ c ∷ s) ++ quote ∷ rest) ≡ none
unfolding read_string escaped
read_pair c s rest p e = rw e refl

-- Of two backslashes in a row only the first is doubled by the loop: for an identifier that has such a
-- pair, behind bytes other than quotes and backslashes, and before a byte that is none of these and that
-- no escape begins with, by a letter or by a number, the loop returns a text that a JSON reader refuses.
pub read_string_pair :
    (x s rest : Bytes) (c : ℕ)
    → All Plain x
    → Plain c
    → escape_of c ≡ none
    → c ≢ b'u'
    → (t : Bytes) × (escape (x ++ backslash ∷ backslash ∷ c ∷ s) ≡ ok t)
      × (read_string (t ++ quote ∷ rest) ≡ none)
read_string_pair x s rest c a p e u =
    let pair = backslash ∷ backslash ∷ c ∷ s in
    (
      escaped (x ++ pair),
      escape-escaped (x ++ pair),
      rw (escaped-Plain x pair a, append_assoc) (read_string-Plain x _ a (read_pair c s rest p e)),
    )
