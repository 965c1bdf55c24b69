-- ===== src/Algorithms/Viewport/SensorData/Arrays.antt =====
-- What the elements of a JSON array read as.
use minority_viewport.Base.{ℕ, ◌+◌, List, [], ◌∷◌, ok, ◌≡◌}
use minority_viewport.Data.Json.{Json}
use minority_viewport.Data.Skeleton.{Skeleton}
use minority_viewport.Data.Skeleton.Reading.{Readers, new_skeleton}

module _ (J : Json) {D : Type 0} (R : Readers J D) where
  open J use {Value}

  -- From the i-th element on, the elements of the array read as these skeletons.
  abbrev pub Reads : ℕ → ℕ → Value → List (Skeleton D) → Type 0
  Reads i time_stamp skeletons [] = Unit {0}
  Reads i time_stamp skeletons (p ∷ ps) =
      (new_skeleton J R (J.at skeletons i) time_stamp ≡ ok p)
      × Reads (i + 1) time_stamp skeletons ps
