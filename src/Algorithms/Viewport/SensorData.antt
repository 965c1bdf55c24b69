-- ===== src/Algorithms/Viewport/SensorData.antt =====
-- Algorithms/MinorityViewportAlgo.cpp, `ProcessSensorData`. `now i` is the timer's reading in the i-th
-- round of its loop.
pub mod Loading
pub mod Arrays
use minority_viewport.Base.{
  ℕ, zero, suc, ◌+◌, ◌^◌, ◌<◌, true, false, List, [], ◌∷◌, Bytes, codes, Option, none, some, Result,
  ok, err, no_fuel, ◌>>=◌, >>=-eq-ok, ltb, lt→ltb, if◌then◌else◌, ◌≡◌, refl, ◌∙◌, arith, ◌==◌,
  Bool-cases, Option-cases, inl, inr,
}
use minority_viewport.Data.Json.{Json}
use minority_viewport.Data.Skeleton.{Skeleton}
use minority_viewport.Data.Skeleton.Reading.{Readers, new_skeleton}
use minority_viewport.Data.Scene.{Scene, update}
use minority_viewport.Data.Scene.Capacity.{IsValid, update-IsValid}
use minority_viewport.Data.Sensor.{Sensor, Store, write, fetch, modify, update_scene}
use minority_viewport.Data.Client.{extract_sensor}
use minority_viewport.Data.ClientsList.{at}
use minority_viewport.Algorithms.Viewport.{Viewport}
use minority_viewport.Algorithms.Viewport.Sensors.{load_skeleton, update_sensor}

module _ (J : Json) {D : Type 0} (R : Readers J D) {M : Type 0} (now : ℕ → ℕ) where
  open J use {Value, parse, get, size}
  open R use {as_double, of_string, member, to_long}

  -- The loop, from index `i` on for a number of rounds.
  unfoldable pub load_skeletons : ℕ → ℕ → ℕ → Value → Viewport D M → Result (Viewport D M)
  load_skeletons zero i time_stamp skeletons v = ok v
  load_skeletons (suc n) i time_stamp skeletons v = do
    s ← new_skeleton J R (J.at skeletons i) time_stamp
    v' ← load_skeleton (now i) s v
    load_skeletons n (i + 1) time_stamp skeletons v'

  -- The counter of the loop is an `unsigned short`.
  unfoldable pub process_parsed : Value → Viewport D M → Result (Viewport D M)
  unfolding load_skeletons
  process_parsed root v = do
    seconds ← as_double (get root (codes "TIME_STAMP") (of_string (codes "0")))
    time_stamp ← to_long seconds
    skeletons ← member root (codes "SENSOR_JSON")
    let n = size skeletons
    if ltb n (2 ^ 16) then load_skeletons n 0 time_stamp skeletons v else err no_fuel

  unfoldable pub process_sensor_data : Bytes → Viewport D M → Result (Viewport D M)
  unfolding process_parsed
  process_sensor_data [] v = ok v
  process_sensor_data (c ∷ text) v = elim (parse (c ∷ text)) [
    | none ↦ ok v
    | some root ↦ process_parsed root v
  ]
