-- ===== src/Networks/RequestHandler/Endpoints.antt =====
-- Networks/RequestHandler.cpp, the endpoints in `handle_request`.
use minority_viewport.Base.{
  ℕ, Bool, true, false, [], ◌++◌, Bytes, codes, Option, none, some, Result, ok, err, undefined,
  ◌>>=◌, if◌then◌else◌,
}
use minority_viewport.Base.Decimal.{to_string}
use minority_viewport.Base.Texts.{bytes_eq}
use minority_viewport.Data.Json.{Json}
use minority_viewport.Data.Matrix.{Matrices}
use minority_viewport.Data.Skeleton.Reading.{Readers}
use minority_viewport.Data.Scene.{Scene}
use minority_viewport.Data.Scene.Writing.{scene_to_json}
use minority_viewport.Data.Sensor.{fetch}
use minority_viewport.Algorithms.Viewport.{
  Viewport, register_client, deregister_client, register_sensors, calibrate_scene_order,
}
use minority_viewport.Algorithms.Viewport.Sensors.{get_local_scene_by_sensor_id}
use minority_viewport.Algorithms.Viewport.Listing.{get_client_listing}
use minority_viewport.Algorithms.Viewport.Merging.{get_global_scene}
use minority_viewport.Algorithms.Viewport.Alignment.{calibrate_scenes}
use minority_viewport.Networks.Request.{Request}
use minority_viewport.Networks.RequestHandler.Numbers.{stoi}
use minority_viewport.Networks.RequestHandler.Paths.{request_header_val}

-- The file system: an `ofstream` on a path that is written to and closed (without effect if it cannot
-- be opened), and an `ifstream` that is read to its end (`none`: it cannot be opened).
pub record Files : Type 1 where
  pub Disk : Type 0
  pub write_file : Bytes → Bytes → Disk → Disk
  pub read_file : Bytes → Disk → Option Bytes

-- The libraries, and what the program asks of `double`: its text, and two comparisons.
pub record World (D : Type 0) : Type 1 where
  pub json : Json
  pub readers : Readers json D
  pub matrices : Matrices D
  pub files : Files
  pub show : D → Bytes
  pub is_zero : D → Bool
  pub near : D → D → Bool

-- What the allocator, `rand()` and the timer answer in one call, with the fuel for the loop that draws
-- an identifier.
pub record Answers : Type 0 where
  pub address : ℕ → ℕ
  pub fuel : ℕ
  pub rand : ℕ → ℕ
  pub now : ℕ → ℕ

module _ {D : Type 0} (W : World D) where
  pub record Server : Type 0 where
    pub viewport : Viewport D W.matrices.Mat
    pub disk : W.files.Disk

abbrev pub bool_text : Bool → Bytes
bool_text true = codes "true"
bool_text false = codes "false"

module _ {D : Type 0} (W : World D) where
  -- The body of an `if` on the path.
  abbrev pub at_path : Bytes → Bytes → (Server W → Result (Server W)) → Server W → Result (Server W)
  at_path path endpoint run s = if bytes_eq path endpoint then run s else ok s

module _ {D : Type 0} (W : World D) (doc_root : Bytes) where
  -- The file behind a path gets a new content.
  abbrev pub put : Bytes → Bytes → Server W → Server W
  put path content s = record s { disk = W.files.write_file (doc_root ++ path) content s.disk }

module _ {D : Type 0} (W : World D) (doc_root : Bytes) (a : Answers) (request : Request) where
  abbrev pub header_val : Bytes → Bytes
  header_val name = request_header_val request name

  -- The body of the first `if`, and so on in the order of the source.
  unfoldable pub register_client_endpoint : Bytes → Server W → Result (Server W)
  register_client_endpoint path s = do
    (id, v) ←
        register_client a.fuel a.rand (header_val (codes "PHYSICAL_LOC"))
          (header_val (codes "IP_ADDR")) s.viewport
    ok (
        put W doc_root path (codes "{\"client_id\":" ++ (to_string id ++ codes "}"))
          (record s { viewport = v }))

  unfoldable pub deregister_client_endpoint : Server W → Result (Server W)
  deregister_client_endpoint s = do
    id ← stoi (header_val (codes "CLIENT_ID"))
    v ← deregister_client id s.viewport
    ok (record s { viewport = v })

  unfoldable pub register_sensors_endpoint : Server W → Result (Server W)
  register_sensors_endpoint s = do
    id ← stoi (header_val (codes "CLIENT_ID"))
    v ←
        register_sensors W.json a.address W.matrices.empty id (header_val (codes "SENSOR_LIST"))
          s.viewport
    ok (record s { viewport = v })

  unfoldable pub listing_endpoint : Bytes → Server W → Result (Server W)
  listing_endpoint path s = do
    listing ← get_client_listing s.viewport
    ok (put W doc_root path listing s)

  unfoldable pub order_endpoint : Bytes → Server W → Result (Server W)
  order_endpoint path s = do
    (done, v) ← calibrate_scene_order s.viewport
    ok (
        put W doc_root path (codes "{\"result\":[" ++ (bool_text done ++ codes "]}"))
          (record s { viewport = v }))

  unfoldable pub calibrate_endpoint : Bytes → Server W → Result (Server W)
  calibrate_endpoint path s = do
    order_a ← stoi (header_val (codes "SCENE_A_ORDER"))
    order_b ← stoi (header_val (codes "SCENE_B_ORDER"))
    (done, v) ←
        calibrate_scenes W.json W.readers W.matrices W.is_zero order_a
          (header_val (codes "SKELETONS_A")) order_b (header_val (codes "SKELETONS_B")) s.viewport
    ok (
        put W doc_root path (codes "{\"result\":[" ++ (bool_text done ++ codes "]}"))
          (record s { viewport = v }))

  -- The text for the scene that the pointer is to, empty for the null pointer.
  unfoldable pub scene_text : Option (Scene D W.matrices.Mat) → Result Bytes
  scene_text none = ok []
  scene_text (some scene) = scene_to_json W.show scene

  -- `GetLocalSceneBySensorId` and the scene at the pointer.
  unfoldable pub local_scene : Bytes → Server W → Result (Option (Scene D W.matrices.Mat))
  local_scene sensor_id s = elim (get_local_scene_by_sensor_id sensor_id s.viewport) [
    | none ↦ ok none
    | some b ↦ do scene ← fetch b s.viewport.store; ok (some scene)
  ]

  -- With a type that is neither "global" nor "single" the pointer is not initialised, and the
  -- comparison with NULL is undefined.
  unfoldable pub data_endpoint : Bytes → Server W → Result (Server W)
  unfolding scene_text local_scene
  data_endpoint path s =
      let type = header_val (codes "Request-Type") in
      if bytes_eq type (codes "global")
      then (do
        (scene, v) ← get_global_scene W.matrices W.near a.rand a.now s.viewport
        text ← scene_text scene
        ok (put W doc_root path text (record s { viewport = v })))
      else if bytes_eq type (codes "single")
      then (do
        scene ← local_scene (header_val (codes "Sensor-Id")) s
        text ← scene_text scene
        ok (put W doc_root path text s))
      else err undefined

  -- All of them, one after the other.
  unfoldable pub endpoints : Bytes → Server W → Result (Server W)
  endpoints path s = do
    s1 ← at_path W path (codes "/api/clients/register.json") (register_client_endpoint path) s
    s2 ← at_path W path (codes "/api/clients/deregister.json") deregister_client_endpoint s1
    s3 ← at_path W path (codes "/api/sensors/register.json") register_sensors_endpoint s2
    s4 ← at_path W path (codes "/api/clients/listing.json") (listing_endpoint path) s3
    s5 ← at_path W path (codes "/api/visualisations/order.json") (order_endpoint path) s4
    s6 ← at_path W path (codes "/api/visualisations/calibrate.json") (calibrate_endpoint path) s5
    at_path W path (codes "/api/visualisations/data.json") (data_endpoint path) s6
