-- ===== src/Networks/RequestHandler/Handling/Registration.antt =====
-- What `handle_request` does to the registry of the clients.
use minority_viewport.Base.{
  ℕ, List, [], ◌∷◌, Bool, Bytes, codes, Option, none, some, Result, ok, ok-injective, ◌>>=◌,
  >>=-eq-ok, ◌≡◌, refl, subst, Bool-cases, inl, inr,
}
use minority_viewport.Base.Texts.{bytes_eq}
use minority_viewport.Data.Matrix.{Matrices}
use minority_viewport.Data.Scene.{Scene}
use minority_viewport.Data.ClientsList.Registry.{Enters, Leaves}
use minority_viewport.Algorithms.Viewport.{
  Viewport, register_client, deregister_client, register_sensors, calibrate_scene_order,
}
use minority_viewport.Algorithms.Viewport.Listing.{get_client_listing}
use minority_viewport.Algorithms.Viewport.Merging.{merge_scenes, get_global_scene}
use minority_viewport.Algorithms.Viewport.Merging.People.{merge_scenes-IsMerged}
use minority_viewport.Algorithms.Viewport.Alignment.{calibrate_scenes}
use minority_viewport.Algorithms.Viewport.Registration.{
  registered, register_client-Enters, deregister_client-Leaves, calibrate_scene_order-clients,
  calibrate_scenes-clients,
}
use minority_viewport.Algorithms.Viewport.Registration.Sensors.{register_sensors-registered}
use minority_viewport.Algorithms.Viewport.Soundness.{IsSound}
use minority_viewport.Networks.Request.{Request}
use minority_viewport.Networks.RequestHandler.Numbers.{stoi}
use minority_viewport.Networks.RequestHandler.Endpoints.{
  World, Answers, Server, header_val, scene_text, local_scene, register_client_endpoint,
  deregister_client_endpoint, register_sensors_endpoint, listing_endpoint, order_endpoint,
  calibrate_endpoint, data_endpoint,
}

module _ {D : Type 0} (C : Matrices D) (near : D → D → Bool) (rand now : ℕ → ℕ) where
  open C use {Mat}

  got-clients :
      (ordered : List ℕ) (v : Viewport D Mat) {r : Option (Scene D Mat) × Viewport D Mat}
      → IsSound v
      → (elim ordered as (λ _. Result (Option (Scene D Mat) × Viewport D Mat)) [
        | [] ↦ ok (none, v)
        | a ∷ as' ↦ do v' ← merge_scenes C near rand now v; ok (some v'.global_scene, v')
      ])
        ≡ ok r
      → r.1.clients ≡ v.clients
  got-clients [] v h e =
      subst (λ (r : Option (Scene D Mat) × Viewport D Mat). r.1.clients ≡ v.clients)
        (ok-injective e) refl
  got-clients (a ∷ as') v h e =
      let (v1, g, f) = >>=-eq-ok _ (merge_scenes C near rand now v) e in
      subst (λ (r : Option (Scene D Mat) × Viewport D Mat). r.1.clients ≡ v.clients)
        (ok-injective f) (merge_scenes-IsMerged C near rand now v h.are_valid g).same_clients

  get_global_scene-clients :
      (v : Viewport D Mat) {r : Option (Scene D Mat) × Viewport D Mat}
      → IsSound v
      → get_global_scene C near rand now v ≡ ok r
      → r.1.clients ≡ v.clients
  unfolding get_global_scene
  get_global_scene-clients v h e = got-clients v.ordered_scenes v h e

module _ {D : Type 0} (W : World D) (doc_root : Bytes) (a : Answers) (q : Request) where
  -- What the headers say of the client.
  abbrev pub announced : Bytes × Bytes
  announced = (
    header_val W doc_root a q (codes "PHYSICAL_LOC"),
    header_val W doc_root a q (codes "IP_ADDR"),
  )

  pub register_client_endpoint-Enters :
      (path : Bytes) (s s' : Server W)
      → IsSound s.viewport
      → register_client_endpoint W doc_root a q path s ≡ ok s'
      → (id : ℕ) × Enters id announced (registered s.viewport) (registered s'.viewport)
  unfolding register_client_endpoint
  register_client_endpoint-Enters path s s' h e =
      let (r, g, f) =
        >>=-eq-ok _ (register_client a.fuel a.rand announced.0 announced.1 s.viewport) e in
      (
        r.0,
        subst
            (λ (t : Server W). Enters r.0 announced (registered s.viewport) (registered t.viewport))
            (ok-injective f)
            (register_client-Enters a.fuel a.rand announced.0 announced.1 s.viewport h.clients_valid
              g),
      )

  pub deregister_client_endpoint-Leaves :
      (s s' : Server W)
      → IsSound s.viewport
      → deregister_client_endpoint W doc_root a q s ≡ ok s'
      → (id : ℕ) × (stoi (header_val W doc_root a q (codes "CLIENT_ID")) ≡ ok id)
        × Leaves id (registered s.viewport) (registered s'.viewport)
  unfolding deregister_client_endpoint
  deregister_client_endpoint-Leaves s s' h e =
      let (id, i, j) = >>=-eq-ok _ (stoi (header_val W doc_root a q (codes "CLIENT_ID"))) e in
      let (v, g, f) = >>=-eq-ok _ (deregister_client id s.viewport) j in
      (
        id,
        i,
        subst (λ (t : Server W). Leaves id (registered s.viewport) (registered t.viewport))
            (ok-injective f) (deregister_client-Leaves id s.viewport h.clients_valid g),
      )

  pub register_sensors_endpoint-registered :
      (s s' : Server W)
      → register_sensors_endpoint W doc_root a q s ≡ ok s'
      → registered s'.viewport ≡ registered s.viewport
  unfolding register_sensors_endpoint
  register_sensors_endpoint-registered s s' e =
      let raw = header_val W doc_root a q (codes "SENSOR_LIST") in
      let (id, i, j) = >>=-eq-ok _ (stoi (header_val W doc_root a q (codes "CLIENT_ID"))) e in
      let (v, g, f) =
        >>=-eq-ok _ (register_sensors W.json a.address W.matrices.empty id raw s.viewport) j in
      subst (λ (t : Server W). registered t.viewport ≡ registered s.viewport) (ok-injective f)
        (λ x k.
          register_sensors-registered W.json a.address W.matrices.empty id raw s.viewport g k x)

  -- The clients are the same.
  abbrev pub Same : Server W → Server W → Type 0
  Same s t = t.viewport.clients ≡ s.viewport.clients

  pub listing_endpoint-Same :
      (path : Bytes) (s s' : Server W) → listing_endpoint W doc_root a q path s ≡ ok s' → Same s s'
  unfolding listing_endpoint
  listing_endpoint-Same path s s' e =
      let (listing, g, f) = >>=-eq-ok _ (get_client_listing s.viewport) e in
      subst (Same s) (ok-injective f) refl

  pub order_endpoint-Same :
      (path : Bytes) (s s' : Server W) → order_endpoint W doc_root a q path s ≡ ok s' → Same s s'
  unfolding order_endpoint
  order_endpoint-Same path s s' e =
      let (r, g, f) = >>=-eq-ok _ (calibrate_scene_order s.viewport) e in
      subst (Same s) (ok-injective f) (calibrate_scene_order-clients s.viewport g)

  pub calibrate_endpoint-Same :
      (path : Bytes) (s s' : Server W)
      → calibrate_endpoint W doc_root a q path s ≡ ok s'
      → Same s s'
  unfolding calibrate_endpoint
  calibrate_endpoint-Same path s s' e =
      let json_a = header_val W doc_root a q (codes "SKELETONS_A") in
      let json_b = header_val W doc_root a q (codes "SKELETONS_B") in
      let (m, i, j) = >>=-eq-ok _ (stoi (header_val W doc_root a q (codes "SCENE_A_ORDER"))) e in
      let (n, k, l) = >>=-eq-ok _ (stoi (header_val W doc_root a q (codes "SCENE_B_ORDER"))) j in
      let (r, g, f) =
        >>=-eq-ok _
          (calibrate_scenes W.json W.readers W.matrices W.is_zero m json_a n json_b s.viewport) l in
      subst (Same s) (ok-injective f) (
        calibrate_scenes-clients W.json W.readers W.matrices W.is_zero m json_a n json_b s.viewport
          g)

  pub data_endpoint-Same :
      (path : Bytes) (s s' : Server W)
      → IsSound s.viewport
      → data_endpoint W doc_root a q path s ≡ ok s'
      → Same s s'
  unfolding data_endpoint
  data_endpoint-Same path s s' h e =
      let type = header_val W doc_root a q (codes "Request-Type") in
      elim (Bool-cases (bytes_eq type (codes "global"))) [
        | inl global ↦
            let (r, g, f) =
              >>=-eq-ok _ (get_global_scene W.matrices W.near a.rand a.now s.viewport)
                (rw global at e) in
            let (text, i, j) = >>=-eq-ok _ (scene_text W doc_root a q r.0) f in
            subst (Same s) (ok-injective j)
              (get_global_scene-clients W.matrices W.near a.rand a.now s.viewport h g)
        | inr other ↦ elim (Bool-cases (bytes_eq type (codes "single"))) [
          | inl single ↦
              let sensor_id = header_val W doc_root a q (codes "Sensor-Id") in
              let (scene, g, f) =
                >>=-eq-ok _ (local_scene W doc_root a q sensor_id s) (rw (other, single) at e) in
              let (text, i, j) = >>=-eq-ok _ (scene_text W doc_root a q scene) f in
              subst (Same s) (ok-injective j) refl
          | inr neither ↦ cc (rw (other, neither) at e)
        ]
      ]
