-- ===== src/Algorithms/Viewport/Ownership/Changes.antt =====
-- The registration and the removal of clients keep the scenes with their owners.
use minority_viewport.Base.{
  ℕ, [], ◌∷◌, Bytes, some, ok, ok-injective, >>=-eq-ok, ◌≡◌, refl, subst, arith,
}
use minority_viewport.Base.OrderedMap.{bytes_order}
use minority_viewport.Data.Client.{Client, new_client, delete_sensors, delete_client}
use minority_viewport.Data.ClientsList.{at, add_client}
use minority_viewport.Data.ClientsList.Ids
use minority_viewport.Data.ClientsList.Ids.{add_client-IsValid}
use minority_viewport.Data.ClientsList.Removal.{remove_client-splits}
use minority_viewport.Algorithms.Viewport.{
  Viewport, register_client, deregister_client, erase_scenes,
}
use minority_viewport.Algorithms.Viewport.Ownership.{owners-append, IsOwned, alive-delete_sensors}

module _ {D M : Type 0} where
  pub register_client-IsOwned :
      (fuel : ℕ) (draws : ℕ → ℕ) (location ip_addr : Bytes) (v : Viewport D M) {id : ℕ}
      {v' : Viewport D M}
      → Ids.IsValid v.clients
      → IsOwned v
      → register_client fuel draws location ip_addr v ≡ ok (id, v')
      → IsOwned v'
  unfolding register_client
  register_client-IsOwned fuel draws location ip_addr v h o e =
      let (p, g, f) = >>=-eq-ok _ (add_client fuel draws location ip_addr v.clients) e in
      let list = (add_client-IsValid fuel draws location ip_addr v.clients h g).2 in
      subst (λ (r : ℕ × Viewport D M). IsOwned r.1) (ok-injective f)
        (λ a. rw list (
          omega (
            arith,
            o a,
            owners-append a v.clients.raw_client_list (new_client p.0 location ip_addr ∷ []),
          )))

  -- Removing a client deletes the scenes of its sensors, and no other client loses one: if no two
  -- sensors had one scene and the scene of every sensor was live, the same holds of those that stay.
  pub deregister_client-IsOwned :
      (id : ℕ) (v : Viewport D M) {c : Client}
      → Ids.IsValid v.clients
      → IsOwned v
      → at id v.clients.raw_client_list ≡ some c
      → (v' : Viewport D M) × (deregister_client id v ≡ ok v') × IsOwned v'
  unfolding deregister_client delete_client
  deregister_client-IsOwned id v {c} h o found =
      let (front, back, rest, before, removed, after) =
        remove_client-splits id c v.clients h found in
      (
        record v {
          clients = rest;
          store = delete_sensors c.sensors v.store;
          ordered_scenes = erase_scenes c.sensors v.ordered_scenes;
          scenes_set = erase_scenes c.sensors v.scenes_set;
        },
        rw (deregister_client, found, removed) refl,
        λ a. alive-delete_sensors a _ c.sensors v.store (
            rw after (
              omega (
                arith,
                owners-append a front back,
                owners-append a front (c ∷ back),
                rw before at (o a),
              ))),
      )
