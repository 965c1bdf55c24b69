-- ===== src/Data/Scene/Placing.antt =====
-- Data/Scene.cpp, `GetRMatrix` and `GetTMatrix`: what they write to the file that `CalibrateScenes` gives
-- them for its record; they return the matrix as it is. `show` is the text of a `double` in a stream.
use minority_viewport.Base.{ℕ, zero, suc, [], ◌++◌, Bytes, codes}
use minority_viewport.Data.Matrix.{Matrices}
use minority_viewport.Data.Scene.{Scene}

module _ {D : Type 0} (C : Matrices D) (show : D → Bytes) where
  open C use {Mat, rows, at}

  -- The loop over the rows, from a row on for a number of rounds.
  abbrev pub rows_text : ℕ → ℕ → Mat → Bytes
  rows_text zero row m = []
  rows_text (suc n) row m =
      show (at m row 0)
      ++ (codes ","
          ++ (show (at m row 1)
              ++ (codes "," ++ (show (at m row 2) ++ (codes "\n" ++ rows_text n (suc row) m)))))

  unfoldable pub rotation_text : Scene D Mat → Bytes
  rotation_text s = let m = C.to_double s.r_matrix in rows_text (rows m) 0 m

  unfoldable pub translation_text : Scene D Mat → Bytes
  translation_text s =
      let m = C.to_double s.t_matrix in
      show (at m 0 0)
      ++ (codes "\n" ++ (show (at m 1 0) ++ (codes "\n" ++ (show (at m 2 0) ++ codes "\n\n"))))
