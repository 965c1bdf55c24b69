-- ===== src/Networks/RequestHandler/Handling/Effects.antt =====
-- What a request does to the registry of the clients, by its path.
use minority_viewport.Base.{
  ℕ, ◌++◌, true, false, Bytes, codes, Option, none, some, ok, ok-injective, >>=-eq-ok, ◌≡◌, refl,
  sym, ap, subst, ◌∙◌, Bool-cases, inl, inr,
}
use minority_viewport.Base.Texts.{bytes_eq, eq_of_bytes_eq}
use minority_viewport.Data.ClientsList.Registry.{Registry, Enters, Leaves, registry}
use minority_viewport.Algorithms.Viewport.{Viewport}
use minority_viewport.Algorithms.Viewport.Ownership.Allocation.{IsFresh}
use minority_viewport.Algorithms.Viewport.Registration.{registered}
use minority_viewport.Algorithms.Viewport.Soundness.{IsSound}
use minority_viewport.Networks.Request.{Request}
use minority_viewport.Networks.Reply.{Reply}
use minority_viewport.Networks.RequestHandler.Numbers.{stoi}
use minority_viewport.Networks.RequestHandler.Paths.{request_path}
use minority_viewport.Networks.RequestHandler.Endpoints.{
  World, Answers, Server, header_val, register_client_endpoint, deregister_client_endpoint,
  register_sensors_endpoint, listing_endpoint, order_endpoint, calibrate_endpoint, endpoints,
}
use minority_viewport.Networks.RequestHandler.Handling.{
  send_file, handle_path, handle_checked, handle_request,
}
use minority_viewport.Networks.RequestHandler.Handling.Keeping.{at_path-Leads, send_found-viewport}
use minority_viewport.Networks.RequestHandler.Handling.Soundness.{IsSound-AreKept}
use minority_viewport.Networks.RequestHandler.Handling.Registration.{
  announced, register_client_endpoint-Enters, deregister_client_endpoint-Leaves,
  register_sensors_endpoint-registered, listing_endpoint-Same, order_endpoint-Same,
  calibrate_endpoint-Same, data_endpoint-Same,
}

abbrev register_path : Bytes
register_path = codes "/api/clients/register.json"

abbrev deregister_path : Bytes
deregister_path = codes "/api/clients/deregister.json"

module _ {D : Type 0} (W : World D) (doc_root : Bytes) (a : Answers) (q : Request) where
  -- A registration lets a client in, with what the headers say of it, a removal lets the client of the
  -- header CLIENT_ID go, and no other path changes the registry.
  abbrev pub EffectAt : Bytes → Registry → Registry → Type 0
  EffectAt path r t = elim (bytes_eq path register_path) as (λ _. Type 0) [
    | true ↦ (id : ℕ) × Enters id (announced W doc_root a q) r t
    | false ↦ elim (bytes_eq path deregister_path) as (λ _. Type 0) [
      | true ↦
          (id : ℕ) × (stoi (header_val W doc_root a q (codes "CLIENT_ID")) ≡ ok id) × Leaves id r t
      | false ↦ t ≡ r
    ]
  ]

  -- By what the checks of the path gave.
  abbrev pub Effect : Option Bytes → Registry → Registry → Type 0
  Effect none r t = t ≡ r
  Effect (some path) r t = EffectAt path r t

  abbrev Unchanged : Registry → Server W → Type 0
  Unchanged base s = IsSound s.viewport × (registered s.viewport ≡ base)

  same-Unchanged :
      (base : Registry) (s s' : Server W)
      → IsSound s'.viewport
      → s'.viewport.clients ≡ s.viewport.clients
      → Unchanged base s
      → Unchanged base s'
  same-Unchanged base s s' h e u = (h, ap registry e ∙ u.1)

  -- The endpoints behind the first two.
  later-Unchanged :
      (base : Registry) (path : Bytes) (s s' : Server W)
      → (bytes_eq path register_path) ≡ false
      → (bytes_eq path deregister_path) ≡ false
      → Unchanged base s
      → IsFresh a.address s.viewport.store
      → endpoints W doc_root a q path s ≡ ok s'
      → Unchanged base s'
  unfolding endpoints
  later-Unchanged base path s s' miss miss' u fresh e =
      let k = IsSound-AreKept W doc_root a q in
      let U = Unchanged base in
      at_path-Leads W U (λ t. U t × IsFresh a.address t.viewport.store) U path
        (codes "/api/sensors/register.json") (register_sensors_endpoint W doc_root a q) _
        (λ t i. i.0)
        (λ t t' i g. (
          k.sensors t t' (i.0.0, i.1) g,
          register_sensors_endpoint-registered W doc_root a q t t' g ∙ i.0.1,
        ))
        (at_path-Leads W U U U path (codes "/api/clients/listing.json")
          (listing_endpoint W doc_root a q path) _ (λ t i. i)
          (λ t t' i g.
            same-Unchanged base t t' (k.listing path t t' i.0 g)
              (listing_endpoint-Same W doc_root a q path t t' g) i)
          (at_path-Leads W U U U path (codes "/api/visualisations/order.json")
            (order_endpoint W doc_root a q path) _ (λ t i. i)
            (λ t t' i g.
              same-Unchanged base t t' (k.order path t t' i.0 g)
                (order_endpoint-Same W doc_root a q path t t' g) i)
            (at_path-Leads W U U U path (codes "/api/visualisations/calibrate.json")
              (calibrate_endpoint W doc_root a q path) _ (λ t i. i)
              (λ t t' i g.
                same-Unchanged base t t' (k.calibrate path t t' i.0 g)
                  (calibrate_endpoint-Same W doc_root a q path t t' g) i)
              (λ t i t' g.
                elim (Bool-cases (bytes_eq path (codes "/api/visualisations/data.json"))) [
                  | inl same ↦
                      let f = rw same at g in
                      same-Unchanged base t t' (k.data_of path t t' i.0 f)
                        (data_endpoint-Same W doc_root a q path t t' i.0 f) i
                  | inr other ↦ subst U (ok-injective (rw other at g)) i
                ]))))
        s (u, fresh) s' (rw (miss, miss') at e)

  -- On its path an endpoint runs alone.
  register-alone :
      (s s' : Server W)
      → endpoints W doc_root a q register_path s ≡ ok s'
      → register_client_endpoint W doc_root a q register_path s ≡ ok s'
  unfolding endpoints bytes_eq
  register-alone s s' e =
      let (t, g, f) = >>=-eq-ok _ (register_client_endpoint W doc_root a q register_path s) e in
      g ∙ f

  deregister-alone :
      (s s' : Server W)
      → endpoints W doc_root a q deregister_path s ≡ ok s'
      → deregister_client_endpoint W doc_root a q s ≡ ok s'
  unfolding endpoints bytes_eq
  deregister-alone s s' e =
      let (t, g, f) = >>=-eq-ok _ (deregister_client_endpoint W doc_root a q s) e in g ∙ f

  endpoints-EffectAt :
      (path : Bytes) (s s' : Server W)
      → IsSound s.viewport
      → IsFresh a.address s.viewport.store
      → endpoints W doc_root a q path s ≡ ok s'
      → EffectAt path (registered s.viewport) (registered s'.viewport)
  endpoints-EffectAt path s s' h fresh e = elim (Bool-cases (bytes_eq path register_path)) [
    | inl hit ↦
        let f =
          subst (λ p. endpoints W doc_root a q p s ≡ ok s') (eq_of_bytes_eq path register_path hit)
            e in
        rw (EffectAt, hit)
          (register_client_endpoint-Enters W doc_root a q register_path s s' h
            (register-alone s s' f))
    | inr miss ↦ elim (Bool-cases (bytes_eq path deregister_path)) [
      | inl hit ↦
          let f =
            subst (λ p. endpoints W doc_root a q p s ≡ ok s')
              (eq_of_bytes_eq path deregister_path hit) e in
          rw (EffectAt, miss, hit)
            (deregister_client_endpoint-Leaves W doc_root a q s s' h (deregister-alone s s' f))
      | inr miss' ↦
          rw (EffectAt, miss, miss')
            (later-Unchanged (registered s.viewport) path s s' miss miss' (h, refl) fresh e).1
    ]
  ]

  checked-Effect :
      (checked : Option Bytes) (rep : Reply) (s : Server W) {r : Reply × Server W}
      → IsSound s.viewport
      → IsFresh a.address s.viewport.store
      → handle_checked W doc_root a q checked rep s ≡ ok r
      → Effect checked (registered s.viewport) (registered r.1.viewport)
  unfolding handle_checked handle_path send_file
  checked-Effect none rep s h fresh e =
      subst (λ (r : Reply × Server W). registered r.1.viewport ≡ registered s.viewport)
        (ok-injective e) refl
  checked-Effect (some path) rep s h fresh e =
      let (s1, g, f) = >>=-eq-ok _ (endpoints W doc_root a q path s) e in
      let found = W.files.read_file (doc_root ++ path) s1.disk in
      subst
        (λ (r : Reply × Server W). EffectAt path (registered s.viewport) (registered r.1.viewport))
        (ok-injective f)
        (subst
          (λ (v : Viewport D W.matrices.Mat). EffectAt path (registered s.viewport) (registered v))
          (sym (
            send_found-viewport W doc_root a q (λ v. IsSound v) (λ v. IsSound v) path rep s1 found))
          (endpoints-EffectAt path s s1 h fresh g))

  pub handle_request-Effect :
      (rep : Reply) (s : Server W) {r : Reply × Server W}
      → IsSound s.viewport
      → IsFresh a.address s.viewport.store
      → handle_request W doc_root a q rep s ≡ ok r
      → Effect (request_path q.uri) (registered s.viewport) (registered r.1.viewport)
  unfolding handle_request
  handle_request-Effect rep s h fresh e = checked-Effect (request_path q.uri) rep s h fresh e
