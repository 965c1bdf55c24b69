-- ===== src/Data/Matrix/Sizes.antt =====
-- OpenCV's matrices by the type of their elements and their sizes: what the library documents of them.
use minority_viewport.Base.{ℕ, suc, Result, ok, ◌>>=◌, ◌≡◌}
use minority_viewport.Data.Matrix.{Matrices}

-- `CV_32F` and `CV_64F`.
pub data Depth : Type 0 where
  single : Depth
  double : Depth

-- The call returns, and its value is one of these.
abbrev pub Returns : {A : Type 0} → Result A → (A → Type 0) → Type 0
Returns {A} e P = (x : A) × (e ≡ ok x) × P x

pub >>=-Returns :
    {A B : Type 0} {P : A → Type 0} {Q : B → Type 0} (e : Result A) (f : A → Result B)
    → Returns e P
    → ((x : A) → P x → Returns (f x) Q)
    → Returns (e >>= f) Q
>>=-Returns e f (x, g, p) next = let (y, k, q) = next x p in (y, rw g k, q)

-- `Sized d r c m`: the matrix has `r` rows and `c` columns of elements of this type. Operands that fit
-- in type and size do not throw.
pub record SizeLaws {D : Type 0} (C : Matrices D) : Type 1 where
  pub Sized : Depth → ℕ → ℕ → C.Mat → Type 0
  pub sized_rows : {d : Depth} {r c : ℕ} (m : C.Mat) → Sized d r c m → C.rows m ≡ r
  pub sized_cols : {d : Depth} {r c : ℕ} (m : C.Mat) → Sized d r c m → C.cols m ≡ c
  pub sized_row : (x y z : D) → Sized Depth.double 1 3 (C.row x y z)
  pub sized_eye : Sized Depth.single 3 3 C.eye
  pub sized_column : Sized Depth.single 3 1 C.zero_column
  pub sized_float :
      {d : Depth} {r c : ℕ} (m : C.Mat) → Sized d r c m → Sized Depth.single r c (C.to_float m)
  pub sized_double :
      {d : Depth} {r c : ℕ} (m : C.Mat) → Sized d r c m → Sized Depth.double r c (C.to_double m)
  pub sized_transpose :
      {d : Depth} {r c : ℕ} (m : C.Mat) → Sized d r c m → Sized d c r (C.transpose m)
  pub push_sized :
      {d : Depth} {r c : ℕ} (m n : C.Mat)
      → Sized d r c m
      → Sized d 1 c n
      → Returns (C.push_back m n) (Sized d (suc r) c)
  pub multiply_sized :
      {d : Depth} {r k c : ℕ} (m n : C.Mat)
      → Sized d r k m
      → Sized d k c n
      → Returns (C.multiply m n) (Sized d r c)
  pub add_sized :
      {d : Depth} {r c : ℕ} (m n : C.Mat)
      → Sized d r c m
      → Sized d r c n
      → Returns (C.add m n) (Sized Depth.single r c)
