-- ===== src/Tests/World.antt =====
-- Libraries small enough to evaluate: every value of the JSON reader is a number, a matrix is the list
-- of its rows, and a file system is a function. The names and texts are those of the tests.
use minority_viewport.Base.{
  ℕ, zero, suc, ◌<◌, ◌||◌, List, [], ◌∷◌, ◌++◌, Bytes, codes, length, length-append, get_elem?,
  Option, none, some, ok, ◌==◌, if◌then◌else◌, ◌≡◌, refl, arith,
}
use minority_viewport.Base.Decimal.{to_string}
use minority_viewport.Base.Texts.{bytes_eq, bytes_eq_refl}
use minority_viewport.Data.Json.{Json}
use minority_viewport.Data.Matrix.{Matrices}
use minority_viewport.Data.Skeleton.Points.Trip.{RowLaws}
use minority_viewport.Data.Skeleton.Reading.{Readers}
use minority_viewport.Networks.RequestHandler.Endpoints.{Files, World}
use minority_viewport.Networks.RequestHandler.Handling.Answering.{KeepsFile}

-- A text parses as the number 1, which is an array of one element, 4. Every member of a value is the
-- value itself, but for its joints and modes, of which there are none.
abbrev pub json : Json
json = record {
  Value = ℕ;
  parse = λ text. some 1;
  null_value = 0;
  get = λ v key default.
      if bytes_eq key (codes "joints") || bytes_eq key (codes "trackingMode") then default else v;
  at = λ v i. 4;
  size = λ v. v;
  as_string = λ v. ok (codes "b");
}

abbrev pub readers : Readers json ℕ
readers = record {
  equal = λ v w. v == w;
  as_uint = λ v. ok v;
  as_double = λ v. ok v;
  of_string = λ text. 0;
  member = λ v key. ok v;
  to_long = λ v. ok v;
}

abbrev pub Rows : Type 0
Rows = List (ℕ × ℕ × ℕ)

abbrev pub column : ℕ → Option (ℕ × ℕ × ℕ) → ℕ
column c none = 0
column zero (some (x, y, z)) = x
column (suc zero) (some (x, y, z)) = y
column (suc (suc c)) (some (x, y, z)) = z

-- Products and sums are their first operand.
abbrev pub matrices : Matrices ℕ
matrices = record {
  Mat = Rows;
  row = λ x y z. (x, y, z) ∷ [];
  empty = [];
  eye = [];
  zero_column = [];
  to_float = λ m. m;
  to_double = λ m. m;
  rows = λ m. length m;
  cols = λ m. 3;
  at = λ m i c. column c (get_elem? m i);
  transpose = λ m. m;
  negate = λ m. m;
  push_back = λ m r. ok (m ++ r);
  multiply = λ a b. ok a;
  add = λ a b. ok a;
  subtract = λ a b. ok a;
  average = λ m. ok m;
  decompose = λ m. ok (m, m);
}

get_elem?-front : (m n : Rows) (i : ℕ) → i < length m → get_elem? (m ++ n) i ≡ get_elem? m i
get_elem?-front [] n i h = absurd (omega arith)
get_elem?-front (r ∷ m) n zero h = refl
get_elem?-front (r ∷ m) n (suc i) h = get_elem?-front m n i (omega arith)

get_elem?-end : (m : Rows) (r : ℕ × ℕ × ℕ) → get_elem? (m ++ r ∷ []) (length m) ≡ some r
get_elem?-end [] r = refl
get_elem?-end (q ∷ m) r = get_elem?-end m r

pub matrices-RowLaws : RowLaws matrices (λ d. d)
matrices-RowLaws = record {
  Doubles = λ r m. length m ≡ r;
  doubles_row = λ x y z. refl;
  at_x = λ x y z. refl;
  at_y = λ x y z. refl;
  at_z = λ x y z. refl;
  push_row = λ r m x y z h. (
    m ++ (x, y, z) ∷ [],
    record {
      pushed = refl;
      doubles = omega (arith, h, length-append m ((x, y, z) ∷ []));
      old_rows = λ i c l k. rw (get_elem?-front m ((x, y, z) ∷ []) i (omega (arith, l, h))) refl;
      new_x = rw (← h, get_elem?-end m (x, y, z)) refl;
      new_y = rw (← h, get_elem?-end m (x, y, z)) refl;
      new_z = rw (← h, get_elem?-end m (x, y, z)) refl;
    },
  );
  rows_float = λ r m h. h;
  at_float = λ r m i c h l k. refl;
}

abbrev pub files : Files
files = record {
  Disk = Bytes → Option Bytes;
  write_file = λ path content disk. λ q. if bytes_eq q path then some content else disk q;
  read_file = λ path disk. disk path;
}

abbrev pub world : World ℕ
world = record {
  json = json;
  readers = readers;
  matrices = matrices;
  files = files;
  show = to_string;
  is_zero = λ d. d == 0;
  near = λ a b. a == b;
}

pub world-KeepsFile : (path : Bytes) → KeepsFile world path
world-KeepsFile path content disk = rw (bytes_eq_refl path) refl
