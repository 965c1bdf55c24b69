-- ===== src/Networks/RequestHandler/Handling/Soundness.antt =====
-- What `handle_request` preserves of the viewport.
use minority_viewport.Base.{
  Bytes, codes, Result, ok, ok-injective, >>=-eq-ok, ◌≡◌, subst, Bool-cases, inl, inr,
}
use minority_viewport.Base.Texts.{bytes_eq}
use minority_viewport.Algorithms.Viewport.{
  register_client, deregister_client, register_sensors, calibrate_scene_order,
}
use minority_viewport.Algorithms.Viewport.Listing.{get_client_listing}
use minority_viewport.Algorithms.Viewport.Merging.{get_global_scene}
use minority_viewport.Algorithms.Viewport.Alignment.{calibrate_scenes}
use minority_viewport.Algorithms.Viewport.Ownership.Allocation.{
  IsFresh, register_client-IsFresh, deregister_client-IsFresh,
}
use minority_viewport.Algorithms.Viewport.Soundness.{IsSound}
use minority_viewport.Algorithms.Viewport.Soundness.Clients.{
  register_client-IsSound, deregister_client-IsSound, register_sensors-IsSound,
}
use minority_viewport.Algorithms.Viewport.Soundness.Scenes.{calibrate_scene_order-IsSound}
use minority_viewport.Algorithms.Viewport.Soundness.People.{
  calibrate_scenes-IsSound, get_global_scene-IsSound,
}
use minority_viewport.Networks.Request.{Request}
use minority_viewport.Networks.Reply.{Reply}
use minority_viewport.Networks.RequestHandler.Numbers.{stoi}
use minority_viewport.Networks.RequestHandler.Endpoints.{
  World, Answers, Server, header_val, scene_text, local_scene, register_client_endpoint,
  deregister_client_endpoint, register_sensors_endpoint, listing_endpoint, order_endpoint,
  calibrate_endpoint, data_endpoint,
}
use minority_viewport.Networks.RequestHandler.Handling.{handle_request}
use minority_viewport.Networks.RequestHandler.Handling.Keeping.{AreKept, handle_request-Leads}

module _ {D : Type 0} (W : World D) where
  -- If the computation returns, the viewport is sound then.
  abbrev Keeps : Result (Server W) → Type 0
  Keeps r = (s' : Server W) → r ≡ ok s' → IsSound s'.viewport

  returned :
      (s : Server W) {s' : Server W} → IsSound s.viewport → ok s ≡ ok s' → IsSound s'.viewport
  returned s h e = subst (λ (t : Server W). IsSound t.viewport) (ok-injective e) h

module _ {D : Type 0} (W : World D) (doc_root : Bytes) (a : Answers) (q : Request) (s : Server W)
    (h : IsSound s.viewport) where
  register_client_endpoint-Keeps :
      (path : Bytes) → Keeps W (register_client_endpoint W doc_root a q path s)
  unfolding register_client_endpoint
  register_client_endpoint-Keeps path s' e =
      let location = header_val W doc_root a q (codes "PHYSICAL_LOC") in
      let ip_addr = header_val W doc_root a q (codes "IP_ADDR") in
      let (r, g, f) = >>=-eq-ok _ (register_client a.fuel a.rand location ip_addr s.viewport) e in
      returned W _ (register_client-IsSound a.fuel a.rand location ip_addr s.viewport h g) f

  deregister_client_endpoint-Keeps : Keeps W (deregister_client_endpoint W doc_root a q s)
  unfolding deregister_client_endpoint
  deregister_client_endpoint-Keeps s' e =
      let (id, i, j) = >>=-eq-ok _ (stoi (header_val W doc_root a q (codes "CLIENT_ID"))) e in
      let (v, g, f) = >>=-eq-ok _ (deregister_client id s.viewport) j in
      returned W _ (deregister_client-IsSound id s.viewport h g) f

  register_sensors_endpoint-Keeps :
      IsFresh a.address s.viewport.store → Keeps W (register_sensors_endpoint W doc_root a q s)
  unfolding register_sensors_endpoint
  register_sensors_endpoint-Keeps fresh s' e =
      let raw = header_val W doc_root a q (codes "SENSOR_LIST") in
      let (id, i, j) = >>=-eq-ok _ (stoi (header_val W doc_root a q (codes "CLIENT_ID"))) e in
      let (v, g, f) =
        >>=-eq-ok _ (register_sensors W.json a.address W.matrices.empty id raw s.viewport) j in
      returned W _
        (register_sensors-IsSound W.json a.address W.matrices.empty id raw s.viewport fresh h g) f

  -- The registration and the removal of a client leave the allocator's answers free.
  register_client_endpoint-IsFresh :
      (path : Bytes) (s' : Server W)
      → IsFresh a.address s.viewport.store
      → register_client_endpoint W doc_root a q path s ≡ ok s'
      → IsFresh a.address s'.viewport.store
  unfolding register_client_endpoint
  register_client_endpoint-IsFresh path s' fresh e =
      let location = header_val W doc_root a q (codes "PHYSICAL_LOC") in
      let ip_addr = header_val W doc_root a q (codes "IP_ADDR") in
      let (r, g, f) = >>=-eq-ok _ (register_client a.fuel a.rand location ip_addr s.viewport) e in
      subst (λ (t : Server W). IsFresh a.address t.viewport.store) (ok-injective f)
        (register_client-IsFresh a.address a.fuel a.rand location ip_addr s.viewport fresh g)

  deregister_client_endpoint-IsFresh :
      (s' : Server W)
      → IsFresh a.address s.viewport.store
      → deregister_client_endpoint W doc_root a q s ≡ ok s'
      → IsFresh a.address s'.viewport.store
  unfolding deregister_client_endpoint
  deregister_client_endpoint-IsFresh s' fresh e =
      let (id, i, j) = >>=-eq-ok _ (stoi (header_val W doc_root a q (codes "CLIENT_ID"))) e in
      let (v, g, f) = >>=-eq-ok _ (deregister_client id s.viewport) j in
      subst (λ (t : Server W). IsFresh a.address t.viewport.store) (ok-injective f)
        (deregister_client-IsFresh a.address id s.viewport h.clients_valid fresh g)

  listing_endpoint-Keeps : (path : Bytes) → Keeps W (listing_endpoint W doc_root a q path s)
  unfolding listing_endpoint
  listing_endpoint-Keeps path s' e =
      let (listing, g, f) = >>=-eq-ok _ (get_client_listing s.viewport) e in returned W _ h f

  order_endpoint-Keeps : (path : Bytes) → Keeps W (order_endpoint W doc_root a q path s)
  unfolding order_endpoint
  order_endpoint-Keeps path s' e =
      let (r, g, f) = >>=-eq-ok _ (calibrate_scene_order s.viewport) e in
      returned W _ (calibrate_scene_order-IsSound s.viewport h g) f

  calibrate_endpoint-Keeps : (path : Bytes) → Keeps W (calibrate_endpoint W doc_root a q path s)
  unfolding calibrate_endpoint
  calibrate_endpoint-Keeps path s' e =
      let json_a = header_val W doc_root a q (codes "SKELETONS_A") in
      let json_b = header_val W doc_root a q (codes "SKELETONS_B") in
      let (m, i, j) = >>=-eq-ok _ (stoi (header_val W doc_root a q (codes "SCENE_A_ORDER"))) e in
      let (n, k, l) = >>=-eq-ok _ (stoi (header_val W doc_root a q (codes "SCENE_B_ORDER"))) j in
      let (r, g, f) =
        >>=-eq-ok _
          (calibrate_scenes W.json W.readers W.matrices W.is_zero m json_a n json_b s.viewport) l in
      returned W _
        (calibrate_scenes-IsSound W.json W.readers W.matrices W.is_zero m json_a n json_b s.viewport
          h g)
        f

  data_endpoint-Keeps : (path : Bytes) → Keeps W (data_endpoint W doc_root a q path s)
  unfolding data_endpoint
  data_endpoint-Keeps path s' e =
      let type = header_val W doc_root a q (codes "Request-Type") in
      elim (Bool-cases (bytes_eq type (codes "global"))) [
        | inl global ↦
            let (r, g, f) =
              >>=-eq-ok _ (get_global_scene W.matrices W.near a.rand a.now s.viewport)
                (rw global at e) in
            let (text, i, j) = >>=-eq-ok _ (scene_text W doc_root a q r.0) f in
            returned W _ (get_global_scene-IsSound W.matrices W.near a.rand a.now s.viewport h g) j
        | inr other ↦ elim (Bool-cases (bytes_eq type (codes "single"))) [
          | inl single ↦
              let sensor_id = header_val W doc_root a q (codes "Sensor-Id") in
              let (scene, g, f) =
                >>=-eq-ok _ (local_scene W doc_root a q sensor_id s) (rw (other, single) at e) in
              let (text, i, j) = >>=-eq-ok _ (scene_text W doc_root a q scene) f in returned W _ h j
          | inr neither ↦ cc (rw (other, neither) at e)
        ]
      ]

module _ {D : Type 0} (W : World D) (doc_root : Bytes) (a : Answers) (q : Request) where
  pub IsSound-AreKept :
      AreKept W doc_root a q (λ v. IsSound v × IsFresh a.address v.store) (λ v. IsSound v)
  IsSound-AreKept = record {
    weaker = λ v h. h.0;
    register = λ path s s' h e. (
      register_client_endpoint-Keeps W doc_root a q s h.0 path s' e,
      register_client_endpoint-IsFresh W doc_root a q s h.0 path s' h.1 e,
    );
    deregister = λ s s' h e. (
      deregister_client_endpoint-Keeps W doc_root a q s h.0 s' e,
      deregister_client_endpoint-IsFresh W doc_root a q s h.0 s' h.1 e,
    );
    sensors = λ s s' h e. register_sensors_endpoint-Keeps W doc_root a q s h.0 h.1 s' e;
    listing = λ path s s' h e. listing_endpoint-Keeps W doc_root a q s h path s' e;
    order = λ path s s' h e. order_endpoint-Keeps W doc_root a q s h path s' e;
    calibrate = λ path s s' h e. calibrate_endpoint-Keeps W doc_root a q s h path s' e;
    data_of = λ path s s' h e. data_endpoint-Keeps W doc_root a q s h path s' e;
  }

  -- Whatever the request, a call that returns leaves a sound viewport, if it was sound before and the
  -- allocator's answers are different addresses at which nothing lives.
  pub handle_request-IsSound :
      (rep : Reply) (s : Server W) {r : Reply × Server W}
      → IsSound s.viewport
      → IsFresh a.address s.viewport.store
      → handle_request W doc_root a q rep s ≡ ok r
      → IsSound r.1.viewport
  handle_request-IsSound rep s h fresh e =
      handle_request-Leads W doc_root a q (λ v. IsSound v × IsFresh a.address v.store)
        (λ v. IsSound v) IsSound-AreKept rep s (h, fresh) e
