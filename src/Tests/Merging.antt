-- ===== src/Tests/Merging.antt =====
-- Algorithms/: merging two scenes and linking the scenes, at concrete inputs.
use minority_viewport.Base.{
  ◌+◌, ◌==◌, if◌then◌else◌, codes, some, none, ℕ, true, [], ◌∷◌, ok, ◌≡◌, refl, arith,
}
use minority_viewport.Base.Distinct.{Distinct}
use minority_viewport.Data.Scene.{Scene, null}
use minority_viewport.Algorithms.Viewport.Calibration.{IsOrdered}
use minority_viewport.Algorithms.Viewport.Chain.Places.{IsChain}
use minority_viewport.Algorithms.Viewport.Merging.{merge_scenes}
use minority_viewport.Base.Texts.{bytes_eq, has_dots}
use minority_viewport.Networks.Request.{Request}
use minority_viewport.Networks.Reply.{StatusType}
use minority_viewport.Networks.Connection.Serving.{no_reply}
use minority_viewport.Networks.RequestHandler.Endpoints.{Server}
use minority_viewport.Networks.RequestHandler.Handling.{file_reply, handle_request}
use minority_viewport.Networks.RequestHandler.Handling.Ordering.{order_text, handle_request-IsChain}
use minority_viewport.Networks.RequestHandler.Paths.{request_path}
use minority_viewport.Networks.RequestHandler.UrlDecode.{url_decode}
use minority_viewport.Algorithms.Viewport.{Viewport, all_scenes, add_scenes, set_insert}
use minority_viewport.Tests.Networks.{listing_request}
use minority_viewport.Tests.Handling.{answers}
use minority_viewport.Tests.World.{Rows, matrices, world, world-KeepsFile}
use minority_viewport.Tests.Algorithms.{times}
use minority_viewport.Tests.Scenes.{gallery, or_gallery, hall, lab}

abbrev draws : ℕ → ℕ
draws k = 105 + k

-- The scene at address 30 was the first to see somebody, the one at 20 the next.
abbrev at_time : ℕ → Scene ℕ Rows → Scene ℕ Rows
at_time t s = record s { first_skeleton_observed_time_ms = t }

abbrev watched : Server world
watched = record {
  viewport = record gallery {
    store = record {
      cell = λ a.
          if a == 20
          then some (at_time 250 hall)
          else if a == 30
          then some (at_time 100 lab)
          else none;
      made = 2;
    };
  };
  disk = λ path. none;
}

abbrev ordering : Request
ordering = record listing_request { uri = codes "/api/visualisations/order.json" }

handle_request-IsChain_example :
    (s' : Server world) × (handle_request world
        (codes "web")
        answers
        ordering
        (no_reply StatusType.ok)
        watched
      ≡ ok (file_reply (order_text true) (codes "json") (no_reply StatusType.ok), s'))
    × IsOrdered times watched.viewport s'.viewport
    × Distinct s'.viewport.ordered_scenes
    × IsChain 1 null s'.viewport.ordered_scenes s'.viewport.store
unfolding all_scenes add_scenes set_insert request_path url_decode has_dots bytes_eq
handle_request-IsChain_example =
    handle_request-IsChain world (codes "web") answers ordering (no_reply StatusType.ok) watched
      times refl (world-KeepsFile (codes "web/api/visualisations/order.json")) (refl, (refl, tt))
      (omega arith) (ground arith) (omega arith)

abbrev showing : Request
showing = record listing_request {
  uri = codes "/api/visualisations/data.json";
  headers = record { name = codes "Request-Type"; value = codes "global" } ∷ [];
}

abbrev unified : Viewport ℕ Rows
unified = or_gallery (merge_scenes matrices world.near answers.rand answers.now gallery)
