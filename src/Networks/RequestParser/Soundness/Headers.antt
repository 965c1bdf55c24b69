-- ===== src/Networks/RequestParser/Soundness/Headers.antt =====
-- The changes of the last header keep the headers well formed.
use minority_viewport.Base.{
  ℕ, List, [], ◌∷◌, ◌++◌, Bytes, All, All-append, Result, ok, ◌≡◌, ◌≢◌, refl,
}
use minority_viewport.Networks.Request.{Header}
use minority_viewport.Networks.RequestParser.{on_back, push_value, push_name}
use minority_viewport.Networks.RequestParser.Printing.{TokenByte, TextByte, IsHeader}

-- A change of the last header is possible, and keeps the headers well formed.
pub record Changed (m : Result (List Header)) : Type 0 where
  pub after : List Header
  pub is_ok : m ≡ ok after
  pub after_ne_nil : after ≢ []
  pub after_are : All IsHeader after

pub on_back-Changed :
    (f : Header → Header) (hs : List Header)
    → ((h : Header) → IsHeader h → IsHeader (f h))
    → hs ≢ []
    → All IsHeader hs
    → Changed (on_back f hs)
unfolding on_back
on_back-Changed f [] k n w = absurd (n refl)
on_back-Changed f (h ∷ []) k n w = record {
  after = f h ∷ [];
  is_ok = refl;
  after_ne_nil = λ e. cc;
  after_are = (k h w.0, tt);
}
on_back-Changed f (h ∷ g ∷ hs) k n w =
    let rest = on_back-Changed f (g ∷ hs) k (λ e. cc) w.1 in
    record {
      after = h ∷ rest.after;
      is_ok = rw rest.is_ok;
      after_ne_nil = λ e. cc;
      after_are = (w.0, rest.after_are);
    }

pub append-ne-nil : (xs : Bytes) (c : ℕ) → xs ++ c ∷ [] ≢ []
append-ne-nil [] c = λ e. cc
append-ne-nil (x ∷ xs) c = λ e. cc

pub push_name-IsHeader :
    (c : ℕ) → TokenByte c → (h : Header) → IsHeader h → IsHeader (push_name c h)
push_name-IsHeader c t h w = record {
  name_ne_nil = append-ne-nil h.name c;
  name_bytes = All-append TokenByte h.name _ w.name_bytes (t, tt);
  value_bytes = w.value_bytes;
}

pub push_value-IsHeader :
    (c : ℕ) → TextByte c → (h : Header) → IsHeader h → IsHeader (push_value c h)
push_value-IsHeader c t h w = record {
  name_ne_nil = w.name_ne_nil;
  name_bytes = w.name_bytes;
  value_bytes = All-append TextByte h.value _ w.value_bytes (t, tt);
}
