-- ===== src/Core/Running.antt =====
-- What holds in every state that the servers reach.
use minority_viewport.Base.{
  ℕ, ◌+◌, List, [], ◌∷◌, Bytes, some, ok, ok-injective, >>=-eq-ok, ◌≡◌, subst, arith, Bool-cases,
  inl, inr,
}
use minority_viewport.Data.Scene.{
  signed_ltb, Scene, refresh_round, manual_clear, new_scene, new_unified_scene,
}
use minority_viewport.Data.Scene.Capacity.{IsValid, manual_clear-IsValid}
use minority_viewport.Data.ClientsList.{new_clients_list}
use minority_viewport.Algorithms.Viewport.{Viewport, new_viewport}
use minority_viewport.Algorithms.Viewport.SensorData.Loading.{
  at-AreValid, write-AreValid, write-alive,
}
use minority_viewport.Algorithms.Viewport.Soundness.{IsSound}
use minority_viewport.Algorithms.Viewport.Soundness.People.{process_sensor_data-IsSound}
use minority_viewport.Networks.RequestHandler.Endpoints.{World, Server}
use minority_viewport.Networks.RequestHandler.Handling.Soundness.{handle_request-IsSound}
use minority_viewport.Networks.UdpServer.{
  Received, datagram, nothing, socket_error, up_to_zero, receive, run,
}
use minority_viewport.Core.{new_core, Step, request, reception, refresh, Reach, here, next}

module _ {D M : Type 0} where
  refresh_round-IsValid :
      (now again next_lapse : ℕ) (s : Scene D M) {next_lapse' : ℕ} {s' : Scene D M}
      → IsValid s
      → refresh_round now again (next_lapse, s) ≡ some (next_lapse', s')
      → IsValid s'
  unfolding refresh_round
  refresh_round-IsValid now again next_lapse s {next_lapse'} {s'} h e =
      elim (Bool-cases s.refresh_thread_die) [
        | inl dies ↦ cc (rw dies at e)
        | inr lives ↦ elim (Bool-cases (signed_ltb next_lapse again)) [
          | inl lapsed ↦
              let same : manual_clear s ≡ s' = cc (rw (lives, lapsed) at e) in
              subst IsValid same (manual_clear-IsValid s)
          | inr early ↦ let same : s ≡ s' = cc (rw (lives, early) at e) in subst IsValid same h
        ]
      ]

module _ {D : Type 0} (W : World D) (doc_root : Bytes) where
  receive-IsSound :
      (now : ℕ → ℕ) (x : Received) (v : Viewport D W.matrices.Mat) {v' : Viewport D W.matrices.Mat}
      → IsSound v
      → receive W.json W.readers now x v ≡ ok v'
      → IsSound v'
  unfolding receive
  receive-IsSound now (datagram c cs) v h e =
      process_sensor_data-IsSound W.json W.readers W.matrices W.is_zero now (up_to_zero (c ∷ cs)) v
        h e
  receive-IsSound now nothing v h e = subst IsSound (ok-injective e) h
  receive-IsSound now socket_error v h e = subst IsSound (ok-injective e) h

  Step-IsSound : {s s' : Server W} → Step W doc_root s s' → IsSound s.viewport → IsSound s'.viewport
  Step-IsSound (request a q rep s r s' fresh e) h =
      handle_request-IsSound W doc_root a q rep s h fresh e
  Step-IsSound (reception now x s v e) h = receive-IsSound now x s.viewport h e
  Step-IsSound (refresh a now again next_lapse next_lapse' s scene scene' live e) h = record {
    clients_valid = h.clients_valid;
    are_valid =
        write-AreValid a scene' s.viewport.store
          (refresh_round-IsValid now again next_lapse scene
            (at-AreValid s.viewport.store h.are_valid live) e)
          h.are_valid;
    global_valid = h.global_valid;
    owned = λ b. omega (arith, h.owned b, write-alive a scene' s.viewport.store live b);
  }

  Reach-IsSound :
      {s s' : Server W} → IsSound s.viewport → Reach W doc_root s s' → IsSound s'.viewport
  Reach-IsSound h here = h
  Reach-IsSound h (next r st) = Step-IsSound st (Reach-IsSound h r)

  new_core-IsSound :
      (seconds now : ℕ) (disk : W.files.Disk)
      → IsSound (new_core W seconds now disk).server.viewport
  unfolding new_core new_viewport new_clients_list new_unified_scene new_scene
  new_core-IsSound seconds now disk = record {
    clients_valid = record { distinct = tt; within = tt };
    are_valid = λ a. tt;
    global_valid = record { sorted = tt; bounded = omega arith };
    owned = λ a. omega arith;
  }

  -- In every state that requests, datagrams and refresh threads lead to from the start, in any number,
  -- of any content and in any order, the identifiers of the clients are valid, every live scene and the
  -- global scene have at most three people, each under its own identifier, no two sensors of all
  -- clients have one scene, and the scene of every sensor is live.
  pub Reach-new_core :
      (seconds now : ℕ) (disk : W.files.Disk) {s : Server W}
      → Reach W doc_root (new_core W seconds now disk).server s
      → IsSound s.viewport
  Reach-new_core seconds now disk r = Reach-IsSound (new_core-IsSound seconds now disk) r

  run-Reach :
      (now : ℕ → ℕ → ℕ) (k : ℕ) (xs : List Received) (s t : Server W)
      {v : Viewport D W.matrices.Mat}
      → Reach W doc_root s t
      → run W.json W.readers now k xs t.viewport ≡ ok v
      → Reach W doc_root s (record t { viewport = v })
  unfolding run
  run-Reach now k [] s t r e =
      subst (λ v. Reach W doc_root s (record t { viewport = v })) (ok-injective e) r
  run-Reach now k (x ∷ xs) s t r e =
      let (v1, g, f) = >>=-eq-ok _ (receive W.json W.readers (now k) x t.viewport) e in
      run-Reach now (k + 1) xs s (record t { viewport = v1 }) (next r (reception (now k) x t v1 g))
        f
