-- ===== src/Data/Matrix.antt =====
-- OpenCV is a library: what the code calls of it. A `Mat` is a value here; the program never changes
-- one in place that another variable shares.
pub mod Sizes
use minority_viewport.Base.{ℕ, Result}

pub record Matrices (D : Type 0) : Type 1 where
  pub Mat : Type 0
  -- `Mat_<double>(1,3) << x,y,z`
  pub row : D → D → D → Mat
  pub empty : Mat
  -- `Mat::eye(3,3)` and `Mat(3,1)` of zeros
  pub eye : Mat
  pub zero_column : Mat
  -- `convertTo` with `CV_32F` and `CV_64F`
  pub to_float : Mat → Mat
  pub to_double : Mat → Mat
  pub rows : Mat → ℕ
  pub cols : Mat → ℕ
  pub at : Mat → ℕ → ℕ → D
  pub transpose : Mat → Mat
  -- `-1*m`
  pub negate : Mat → Mat
  -- These throw at operands that do not fit; `add` and `subtract` give floats.
  pub push_back : Mat → Mat → Result Mat
  pub multiply : Mat → Mat → Result Mat
  pub add : Mat → Mat → Result Mat
  pub subtract : Mat → Mat → Result Mat
  -- `reduce(…,0,1)`: the average of the rows
  pub average : Mat → Result Mat
  -- `SVD::compute`: U and the transpose of V
  pub decompose : Mat → Result (Mat × Mat)
