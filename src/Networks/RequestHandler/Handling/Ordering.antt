-- ===== src/Networks/RequestHandler/Handling/Ordering.antt =====
-- The request that orders the scenes, from the handler down to the links between them.
use minority_viewport.Base.{
  ℕ, ◌<◌, ◌≤◌, Bool, true, [], ◌++◌, Bytes, codes, map, length, some, ok, All, ◌≡◌, refl,
}
use minority_viewport.Base.Distinct.{Distinct}
use minority_viewport.Base.Texts.{bytes_eq, find_last}
use minority_viewport.Data.Scene.{null}
use minority_viewport.Algorithms.Viewport.{Viewport, calibrate_scene_order}
use minority_viewport.Algorithms.Viewport.Passes.{Timed}
use minority_viewport.Algorithms.Viewport.Calibration.{scenes, IsOrdered}
use minority_viewport.Algorithms.Viewport.Chain.Places.{IsChain}
use minority_viewport.Algorithms.Viewport.Chain.Linked.{calibrate_scene_order_linked}
use minority_viewport.Networks.Request.{Request}
use minority_viewport.Networks.Reply.{Reply}
use minority_viewport.Networks.RequestHandler.Endpoints.{
  World, Answers, Server, bool_text, endpoints, order_endpoint,
}
use minority_viewport.Networks.RequestHandler.Handling.{
  file_reply, send_file, handle_path, handle_request,
}
use minority_viewport.Networks.RequestHandler.Handling.Answering.{KeepsFile}
use minority_viewport.Networks.RequestHandler.Paths.{request_path, extension}

-- The path of the endpoint, and what it answers.
abbrev pub order_path : Bytes
order_path = codes "/api/visualisations/order.json"

abbrev pub order_text : Bool → Bytes
order_text done = codes "{\"result\":[" ++ (bool_text done ++ codes "]}")

module _ {D : Type 0} (W : World D) (doc_root : Bytes) (a : Answers) where
  handle_request-calibrate_scene_order :
      (request : Request) (rep : Reply) (s : Server W) (done : Bool) {v : Viewport D W.matrices.Mat}
      → request_path request.uri ≡ some order_path
      → KeepsFile W (doc_root ++ order_path)
      → calibrate_scene_order s.viewport ≡ ok (done, v)
      → (s' : Server W) × (handle_request W doc_root a request rep s
          ≡ ok (file_reply (order_text done) (codes "json") rep, s'))
        × (s'.viewport ≡ v)
  unfolding handle_request handle_path endpoints order_endpoint send_file bytes_eq extension
      find_last
  handle_request-calibrate_scene_order request rep s done {v} path disk ordered =
      let full : Bytes = doc_root ++ order_path in
      (
        record {
          viewport = v;
          disk = W.files.write_file full [] (W.files.write_file full (order_text done) s.disk);
        },
        rw path (rw ordered (rw (disk (order_text done) s.disk) refl)),
        refl,
      )

  -- A request for order.json, on a file system that keeps the endpoint's file, while all scenes of the
  -- clients' sensors are live, each has seen somebody, no two at the same time, and there are at least
  -- two: the reply appends the result true, as a JSON object, to the content, and behind it the scenes
  -- are ordered by their times, each once, with its position as its order and its neighbours in the order
  -- as its left and right scenes.
  pub handle_request-IsChain :
      (request : Request) (rep : Reply) (s : Server W) (f : ℕ → ℕ)
      → request_path request.uri ≡ some order_path
      → KeepsFile W (doc_root ++ order_path)
      → Timed f s.viewport.store (scenes f s.viewport)
      → All (λ i. 0 < f i) (scenes f s.viewport)
      → Distinct (map f (scenes f s.viewport))
      → 2 ≤ length (scenes f s.viewport)
      → (s' : Server W) × (handle_request W doc_root a request rep s
          ≡ ok (file_reply (order_text true) (codes "json") rep, s'))
        × IsOrdered f s.viewport s'.viewport
        × Distinct s'.viewport.ordered_scenes
        × IsChain 1 null s'.viewport.ordered_scenes s'.viewport.store
  handle_request-IsChain request rep s f path disk t p d l =
      let (v, e, o, k, c) = calibrate_scene_order_linked f s.viewport t p d l in
      let (s', g, same) = handle_request-calibrate_scene_order request rep s true path disk e in
      (s', g, rw same o, rw same k, rw same c)
