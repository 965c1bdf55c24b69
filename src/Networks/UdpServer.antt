-- ===== src/Networks/UdpServer.antt =====
-- Networks/UdpServer.cpp: the loop of `Run`, whose socket is what `recvfrom` answers.
use minority_viewport.Base.{ℕ, ◌+◌, List, [], ◌∷◌, Bytes, Result, ok, ◌>>=◌, ◌==◌, if◌then◌else◌}
use minority_viewport.Data.Json.{Json}
use minority_viewport.Data.Skeleton.Reading.{Readers}
use minority_viewport.Algorithms.Viewport.{Viewport}
use minority_viewport.Algorithms.Viewport.SensorData.{process_sensor_data}

-- What one call of `recvfrom` answers: the bytes of a datagram, which it has at least one of, nothing,
-- or an error, which is reported.
pub data Received : Type 0 where
  datagram : ℕ → Bytes → Received
  nothing : Received
  socket_error : Received

-- The text up to the first zero byte, which is what a string made from the buffer holds.
unfoldable pub up_to_zero : Bytes → Bytes
up_to_zero [] = []
up_to_zero (c ∷ cs) = if c == 0 then [] else c ∷ up_to_zero cs

module _ (J : Json) {D : Type 0} (R : Readers J D) {M : Type 0} where
  -- The body of the loop. `now i` is the timer's reading in the i-th round of `ProcessSensorData`.
  unfoldable pub receive : (ℕ → ℕ) → Received → Viewport D M → Result (Viewport D M)
  unfolding up_to_zero
  receive now (datagram c cs) v = process_sensor_data J R now (up_to_zero (c ∷ cs)) v
  receive now _ v = ok v

  -- The loop, for the answers so far. A fault ends it: `Run` catches nothing.
  unfoldable pub run : (ℕ → ℕ → ℕ) → ℕ → List Received → Viewport D M → Result (Viewport D M)
  unfolding receive
  run now k [] v = ok v
  run now k (x ∷ xs) v = do v' ← receive (now k) x v; run now (k + 1) xs v'
