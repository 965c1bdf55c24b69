-- ===== src/Networks/RequestHandler/Handling/Keeping.antt =====
-- What holds of the viewport before `handle_request` holds after it, if every endpoint preserves it.
use minority_viewport.Base.{
  ◌++◌, Bytes, codes, Option, none, some, Result, ok, ok-injective, ◌>>=◌, >>=-eq-ok, ◌≡◌, refl,
  sym, subst, Bool-cases, inl, inr,
}
use minority_viewport.Base.Texts.{bytes_eq}
use minority_viewport.Algorithms.Viewport.{Viewport}
use minority_viewport.Networks.Request.{Request}
use minority_viewport.Networks.Reply.{Reply}
use minority_viewport.Networks.RequestHandler.Endpoints.{
  World, Answers, Server, at_path, register_client_endpoint, deregister_client_endpoint,
  register_sensors_endpoint, listing_endpoint, order_endpoint, calibrate_endpoint, data_endpoint,
  endpoints,
}
use minority_viewport.Networks.RequestHandler.Handling.{
  send_found, send_file, handle_path, handle_checked, handle_request,
}
use minority_viewport.Networks.RequestHandler.Paths.{request_path, extension}

module _ {D : Type 0} (W : World D) (R : Server W → Type 0) where
  -- If the computation returns, the predicate holds then.
  abbrev pub Leads : Result (Server W) → Type 0
  Leads r = (s' : Server W) → r ≡ ok s' → R s'

  -- The body of an `if` on the path, and what comes behind it.
  pub at_path-Leads :
      (P Q : Server W → Type 0) (path endpoint : Bytes) (run next : Server W → Result (Server W))
      → ((t : Server W) → P t → Q t)
      → ((t t' : Server W) → P t → run t ≡ ok t' → Q t')
      → ((t : Server W) → Q t → Leads (next t))
      → (s : Server W) → P s
      → Leads (at_path W path endpoint run s >>= next)
  at_path-Leads P Q path endpoint run next weaker k l s h s' e =
      let (t, g, f) = >>=-eq-ok _ (at_path W path endpoint run s) e in
      elim (Bool-cases (bytes_eq path endpoint)) [
        | inl same ↦ l t (k s t h (rw same at g)) s' f
        | inr other ↦ l t (subst Q (ok-injective (rw other at g)) (weaker s h)) s' f
      ]

module _ {D : Type 0} (W : World D) (doc_root : Bytes) (a : Answers) (q : Request)
    (P Q : Viewport D W.matrices.Mat → Type 0) where
  -- `P` holds until sensors may be registered, and `Q` from then on.
  pub record AreKept : Type 0 where
    pub weaker : (v : Viewport D W.matrices.Mat) → P v → Q v
    pub register :
        (path : Bytes) (s s' : Server W)
        → P s.viewport
        → register_client_endpoint W doc_root a q path s ≡ ok s'
        → P s'.viewport
    pub deregister :
        (s s' : Server W)
        → P s.viewport
        → deregister_client_endpoint W doc_root a q s ≡ ok s'
        → P s'.viewport
    pub sensors :
        (s s' : Server W)
        → P s.viewport
        → register_sensors_endpoint W doc_root a q s ≡ ok s'
        → Q s'.viewport
    pub listing :
        (path : Bytes) (s s' : Server W)
        → Q s.viewport
        → listing_endpoint W doc_root a q path s ≡ ok s'
        → Q s'.viewport
    pub order :
        (path : Bytes) (s s' : Server W)
        → Q s.viewport
        → order_endpoint W doc_root a q path s ≡ ok s'
        → Q s'.viewport
    pub calibrate :
        (path : Bytes) (s s' : Server W)
        → Q s.viewport
        → calibrate_endpoint W doc_root a q path s ≡ ok s'
        → Q s'.viewport
    pub data_of :
        (path : Bytes) (s s' : Server W)
        → Q s.viewport
        → data_endpoint W doc_root a q path s ≡ ok s'
        → Q s'.viewport

  abbrev Before : Server W → Type 0
  Before s = P s.viewport

  abbrev After : Server W → Type 0
  After s = Q s.viewport

  endpoints-Leads :
      AreKept
      → (path : Bytes) (s : Server W) → P s.viewport
      → Leads W After (endpoints W doc_root a q path s)
  unfolding endpoints
  endpoints-Leads k path =
      at_path-Leads W After Before Before path (codes "/api/clients/register.json")
        (register_client_endpoint W doc_root a q path) _ (λ t i. i) (k.register path)
        (at_path-Leads W After Before Before path (codes "/api/clients/deregister.json")
          (deregister_client_endpoint W doc_root a q) _ (λ t i. i) k.deregister
          (at_path-Leads W After Before After path (codes "/api/sensors/register.json")
            (register_sensors_endpoint W doc_root a q) _ (λ t. k.weaker t.viewport) k.sensors
            (at_path-Leads W After After After path (codes "/api/clients/listing.json")
              (listing_endpoint W doc_root a q path) _ (λ t i. i) (k.listing path)
              (at_path-Leads W After After After path (codes "/api/visualisations/order.json")
                (order_endpoint W doc_root a q path) _ (λ t i. i) (k.order path)
                (at_path-Leads W After After After path (codes "/api/visualisations/calibrate.json")
                  (calibrate_endpoint W doc_root a q path) _ (λ t i. i) (k.calibrate path)
                  (λ t i s' e.
                    elim (Bool-cases (bytes_eq path (codes "/api/visualisations/data.json"))) [
                      | inl same ↦ k.data_of path t s' i (rw same at e)
                      | inr other ↦ subst After (ok-injective (rw other at e)) i
                    ]))))))

  pub send_found-viewport :
      (path : Bytes) (rep : Reply) (s : Server W) (found : Option Bytes)
      → (send_found W doc_root path rep s found).1.viewport ≡ s.viewport
  unfolding send_found
  send_found-viewport path rep s none = refl
  send_found-viewport path rep s (some content) =
      elim (Bool-cases (bytes_eq (extension path) (codes "json"))) [
        | inl json ↦ rw json refl
        | inr other ↦ rw other refl
      ]

  checked-Leads :
      AreKept
      → (checked : Option Bytes) (rep : Reply) (s : Server W) {r : Reply × Server W} → P s.viewport
      → handle_checked W doc_root a q checked rep s ≡ ok r
      → Q r.1.viewport
  unfolding handle_checked handle_path send_file
  checked-Leads k none rep s h e =
      subst (λ (r : Reply × Server W). Q r.1.viewport) (ok-injective e) (k.weaker s.viewport h)
  checked-Leads k (some path) rep s h e =
      let (s1, g, f) = >>=-eq-ok _ (endpoints W doc_root a q path s) e in
      let found = W.files.read_file (doc_root ++ path) s1.disk in
      subst (λ (r : Reply × Server W). Q r.1.viewport) (ok-injective f)
        (subst Q (sym (send_found-viewport path rep s1 found)) (endpoints-Leads k path s h s1 g))

  pub handle_request-Leads :
      AreKept
      → (rep : Reply) (s : Server W) {r : Reply × Server W} → P s.viewport
      → handle_request W doc_root a q rep s ≡ ok r
      → Q r.1.viewport
  unfolding handle_request
  handle_request-Leads k rep s h e = checked-Leads k (request_path q.uri) rep s h e
