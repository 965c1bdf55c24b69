-- ===== src/Algorithms/Viewport/Ownership/Allocation.antt =====
-- What `new` may answer: `new Scene` in Data/Sensor.cpp.
use minority_viewport.Base.{
  ℕ, ◌≤◌, List, [], ◌∷◌, Bytes, none, ok, ok-injective, >>=-eq-ok, ◌==◌, ==→eq, ◌≡◌, refl, subst,
  arith, Bool-cases, Option-cases, inl, inr,
}
use minority_viewport.Base.OrderedMap.{bytes_order}
use minority_viewport.Data.Sensor.{Sensor, Store, new_sensor, delete_sensor}
use minority_viewport.Data.Client.{delete_sensors, delete_client}
use minority_viewport.Data.ClientsList.{at, add_client}
use minority_viewport.Data.ClientsList.Ids
use minority_viewport.Data.ClientsList.Ids.{add_client-IsValid}
use minority_viewport.Data.ClientsList.Removal.{remove_client-splits}
use minority_viewport.Algorithms.Viewport.{Viewport, register_client, deregister_client}

module _ {D M : Type 0} where
  -- The addresses that the allocator is going to answer are different, and nothing lives there.
  pub record IsFresh (address : ℕ → ℕ) (store : Store D M) : Type 0 where
    pub different : (j k : ℕ) → address j ≡ address k → j ≡ k
    pub free : (k : ℕ) → store.made ≤ k → store.cell (address k) ≡ none

  pub new_sensor-IsFresh :
      (address : ℕ → ℕ) (empty : M) (id : Bytes) (store : Store D M)
      → IsFresh address store
      → IsFresh address (new_sensor address empty id store).1
  unfolding new_sensor
  new_sensor-IsFresh address empty id store f = record {
    different = f.different;
    free = λ k h. elim (Bool-cases (address k == address store.made)) [
      | inl same ↦
          let clash : k ≡ store.made = f.different k store.made (==→eq _ _ same) in
          absurd (omega (arith, h, clash))
      | inr other ↦ rw other (f.free k (omega (arith, h)))
    ];
  }

  delete_sensors-made :
      (m : List (Bytes × Sensor)) (store : Store D M) → (delete_sensors m store).made ≡ store.made
  unfolding delete_sensors delete_sensor
  delete_sensors-made [] store = refl
  delete_sensors-made ((id, s) ∷ m) store = delete_sensors-made m (delete_sensor s store)

  pub delete_sensors-dead :
      (m : List (Bytes × Sensor)) (store : Store D M) (a : ℕ)
      → store.cell a ≡ none
      → (delete_sensors m store).cell a ≡ none
  unfolding delete_sensors delete_sensor
  delete_sensors-dead [] store a e = e
  delete_sensors-dead ((id, s) ∷ m) store a e =
      delete_sensors-dead m (delete_sensor s store) a
        (elim (Bool-cases (a == s.scene)) [ inl same ↦ rw same refl | inr other ↦ rw other e ])

  pub deregister_client-IsFresh :
      (address : ℕ → ℕ) (id : ℕ) (v : Viewport D M) {v' : Viewport D M}
      → Ids.IsValid v.clients
      → IsFresh address v.store
      → deregister_client id v ≡ ok v'
      → IsFresh address v'.store
  unfolding deregister_client delete_client
  deregister_client-IsFresh address id v h f e =
      elim (Option-cases (at id v.clients.raw_client_list)) [
        | inl missing ↦ cc (rw (deregister_client, missing) at e)
        | inr (c, found) ↦
            let (front, back, rest, before, removed, after) =
              remove_client-splits id c v.clients h found in
            subst (λ (w : Viewport D M). IsFresh address w.store)
              (ok-injective (rw (deregister_client, found, removed) at e))
              (record {
                different = f.different;
                free = λ k l.
                    delete_sensors-dead c.sensors v.store (address k)
                      (f.free k (omega (arith, l, delete_sensors-made c.sensors v.store)));
              })
      ]

  pub register_client-IsFresh :
      (address : ℕ → ℕ) (fuel : ℕ) (draws : ℕ → ℕ) (location ip_addr : Bytes) (v : Viewport D M)
      {id : ℕ} {v' : Viewport D M}
      → IsFresh address v.store
      → register_client fuel draws location ip_addr v ≡ ok (id, v')
      → IsFresh address v'.store
  unfolding register_client
  register_client-IsFresh address fuel draws location ip_addr v f e =
      let (p, g, k) = >>=-eq-ok _ (add_client fuel draws location ip_addr v.clients) e in
      subst (λ (r : ℕ × Viewport D M). IsFresh address r.1.store) (ok-injective k) f
