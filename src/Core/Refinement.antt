-- ===== src/Core/Refinement.antt =====
-- The servers' state against the registry of clients that it stands for.
use minority_viewport.Base.{◌∷◌, ℕ, Bytes, some, ok, ok-injective, ◌≡◌, refl, ap, subst}
use minority_viewport.Data.ClientsList.Registry.{registry}
use minority_viewport.Networks.RequestHandler.Paths.{request_path}
use minority_viewport.Networks.RequestHandler.Handling.Effects.{Effect, handle_request-Effect}
use minority_viewport.Data.Sensor.{write}
use minority_viewport.Algorithms.Viewport.{Viewport}
use minority_viewport.Algorithms.Viewport.SensorData.Loading.{process_sensor_data-Loaded}
use minority_viewport.Algorithms.Viewport.Registration.{registered}
use minority_viewport.Algorithms.Viewport.Soundness.{IsSound}
use minority_viewport.Networks.RequestHandler.Endpoints.{World, Server}
use minority_viewport.Networks.UdpServer.{
  Received, datagram, nothing, socket_error, up_to_zero, receive,
}
use minority_viewport.Core.{new_core, Step, request, reception, refresh, Reach}
use minority_viewport.Core.Running.{Reach-new_core}

module _ {D : Type 0} (W : World D) (doc_root : Bytes) where
  -- What a step means for the registry that the clients stand for.
  abbrev pub Refines : {s s' : Server W} → Step W doc_root s s' → Type 0
  Refines (request a q rep s r s' fresh e) =
      Effect W doc_root a q (request_path q.uri) (registered s.viewport) (registered s'.viewport)
  Refines (reception now x s v e) = registered v ≡ registered s.viewport
  Refines (refresh a now again next_lapse next_lapse' s scene scene' live e) =
      registered (record s.viewport { store = write a (some scene') s.viewport.store })
      ≡ registered s.viewport

  receive-clients :
      (now : ℕ → ℕ) (x : Received) (v : Viewport D W.matrices.Mat) {v' : Viewport D W.matrices.Mat}
      → IsSound v
      → receive W.json W.readers now x v ≡ ok v'
      → v'.clients ≡ v.clients
  unfolding receive
  receive-clients now (datagram c cs) v h e =
      (process_sensor_data-Loaded W.json W.readers now (up_to_zero (c ∷ cs)) v h.are_valid
        e).same_clients
  receive-clients now nothing v h e =
      subst (λ (w : Viewport D W.matrices.Mat). w.clients ≡ v.clients) (ok-injective e) refl
  receive-clients now socket_error v h e =
      subst (λ (w : Viewport D W.matrices.Mat). w.clients ≡ v.clients) (ok-injective e) refl

  Step-Refines : {s s' : Server W} (st : Step W doc_root s s') → IsSound s.viewport → Refines st
  Step-Refines (request a q rep s r s' fresh e) h =
      handle_request-Effect W doc_root a q rep s h fresh e
  Step-Refines (reception now x s v e) h = ap registry (receive-clients now x s.viewport h e)
  Step-Refines (refresh a now again next_lapse next_lapse' s scene scene' live e) h = refl

  -- From every state that is reached from the start, a step means one of these for the registry that the
  -- list of the clients stands for: a request whose path is that of registrations lets a client in,
  -- under an identifier from 1 to 1000 that was free, with the location and the address of the
  -- request's headers; a request on the path of removals lets exactly the client go whose identifier is
  -- read from the header CLIENT_ID, and who was registered; every other request, a datagram and a round
  -- of a refresh thread leave the registry as it is.
  pub Reach-Refines :
      (seconds now : ℕ) (disk : W.files.Disk) {s s' : Server W}
      → Reach W doc_root (new_core W seconds now disk).server s
      → (st : Step W doc_root s s') → Refines st
  Reach-Refines seconds now disk r st =
      Step-Refines st (Reach-new_core W doc_root seconds now disk r)
