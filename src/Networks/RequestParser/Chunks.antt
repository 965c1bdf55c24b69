-- ===== src/Networks/RequestParser/Chunks.antt =====
-- `request_parser::parse` called again on the bytes that follow.
use minority_viewport.Base.{[], ◌∷◌, ◌++◌, Bytes, ok, err, ◌>>=◌, ◌≡◌, refl}
use minority_viewport.Networks.Request.{Request}
use minority_viewport.Networks.RequestParser.{
  Tribool, complete, invalid, indeterminate, State, consume, Step, Parsed, decide, parse,
}

-- What a caller that reads on while the answer is indeterminate has after the next chunk.
abbrev pub resume : Bytes → Tribool × State × Request × Bytes → Parsed
resume ys (complete, s, r, rest) = ok (complete, s, r, rest ++ ys)
resume ys (invalid, s, r, rest) = ok (invalid, s, r, rest ++ ys)
resume ys (indeterminate, s, r, rest) = parse s r ys

decide-append :
    (m : Step) (f g : State → Request → Parsed) (xs ys : Bytes)
    → ((s : State) (r : Request) → f s r ≡ (g s r >>= resume ys))
    → (m >>= decide f (xs ++ ys)) ≡ ((m >>= decide g xs) >>= resume ys)
decide-append (err e) f g xs ys h = refl
decide-append (ok (complete, s, r)) f g xs ys h = refl
decide-append (ok (invalid, s, r)) f g xs ys h = refl
decide-append (ok (indeterminate, s, r)) f g xs ys h = h s r

-- Parsing a chunk and then, if the answer is indeterminate, the next chunk from the state and the
-- request reached, gives what parsing both chunks at once gives; a decided answer leaves the next
-- chunk unread.
pub parse-append :
    (s : State) (r : Request) (xs ys : Bytes) → parse s r (xs ++ ys) ≡ (parse s r xs >>= resume ys)
unfolding parse
parse-append s r [] ys = refl
parse-append s r (c ∷ xs) ys =
    decide-append (consume s r c) _ _ xs ys (λ s' r'. parse-append s' r' xs ys)
