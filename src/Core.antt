-- ===== src/Core.antt =====
-- MinorityViewport.cpp, the constructor of `Core`, and what happens to the state that its servers
-- share: requests over HTTP, datagrams over UDP, and the refresh threads of the scenes (Data/Scene.cpp,
-- `Clear`). Sockets and threads are left out: each of these events is one step.
pub mod Running
pub mod Refinement
use minority_viewport.Base.{
  ℕ, ◌+◌, List, [], ◌∷◌, Bytes, Option, none, some, Result, ok, err, null_pointer, ◌≡◌,
}
use minority_viewport.Data.Scene.{Scene, refresh_round}
use minority_viewport.Data.Sensor.{Store, write}
use minority_viewport.Data.ClientsList.{ClientsList, new_clients_list}
use minority_viewport.Data.Queues.{JobsQueue, new_jobs_queue}
use minority_viewport.Algorithms.Viewport.{Viewport, new_viewport}
use minority_viewport.Algorithms.Viewport.Ownership.Allocation.{IsFresh}
use minority_viewport.Misc.Timer.{Timer, new_timer, start}
use minority_viewport.Networks.Request.{Request}
use minority_viewport.Networks.Reply.{Reply}
use minority_viewport.Networks.RequestHandler.Endpoints.{World, Answers, Server}
use minority_viewport.Networks.RequestHandler.Handling.{handle_request}
use minority_viewport.Networks.UdpServer.{Received, receive}

-- The start of `main`, at the arguments behind the program's name: `none` when it throws, and otherwise
-- the texts that the constructor of `Core` gets. The pointer behind the last argument is null.
unfoldable pub program_arguments : List Bytes → Option (Result (Bytes × Bytes × Bytes))
program_arguments [] = none
program_arguments (address ∷ []) = some (err null_pointer)
program_arguments (address ∷ http_port ∷ []) = some (err null_pointer)
program_arguments (address ∷ http_port ∷ udp_port ∷ rest) = some (ok (address, http_port, udp_port))

module _ {D : Type 0} (W : World D) where
  pub record Core : Type 0 where
    pub time : Timer
    pub job_queue : JobsQueue
    pub server : Server W

  abbrev pub no_scenes : Store D W.matrices.Mat
  no_scenes = record { cell = λ a. none; made = 0 }

  -- The constructor, at an answer of `time`, an answer of `clock` and the files that there are.
  unfoldable pub new_core : ℕ → ℕ → W.files.Disk → Core
  new_core seconds now disk = record {
    time = start now (new_timer seconds);
    job_queue = new_jobs_queue;
    server = record {
      viewport = new_viewport W.matrices.empty new_clients_list no_scenes;
      disk = disk;
    };
  }

module _ {D : Type 0} (W : World D) (doc_root : Bytes) where
  -- What an event does to the state of the servers.
  pub data Step : Server W → Server W → Type 0 where
    -- at addresses from the allocator that are different, and at which nothing lives
    request :
        (a : Answers) (q : Request) (rep : Reply) (s : Server W) (r : Reply) (s' : Server W)
        → IsFresh a.address s.viewport.store
        → handle_request W doc_root a q rep s ≡ ok (r, s')
        → Step s s'
    reception :
        (now : ℕ → ℕ) (x : Received) (s : Server W) (v : Viewport D W.matrices.Mat)
        → receive W.json W.readers now x s.viewport ≡ ok v
        → Step s (record s { viewport = v })
    -- a round of the refresh thread of the scene at an address, at whatever lapse it stands
    refresh :
        (a now again next_lapse next_lapse' : ℕ) (s : Server W)
        (scene scene' : Scene D W.matrices.Mat)
        → s.viewport.store.cell a ≡ some scene
        → refresh_round now again (next_lapse, scene) ≡ some (next_lapse', scene')
        → Step s (record s {
          viewport = record s.viewport { store = write a (some scene') s.viewport.store };
        })

  pub data Reach (s : Server W) : Server W → Type 0 where
    here : Reach s s
    next : {t u : Server W} → Reach s t → Step t u → Reach s u
