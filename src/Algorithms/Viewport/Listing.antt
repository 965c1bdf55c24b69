-- ===== src/Algorithms/Viewport/Listing.antt =====
-- Algorithms/MinorityViewportAlgo.cpp, `GetClientListing`.
use minority_viewport.Base.{
  ℕ, List, [], ◌∷◌, ◌++◌, map, Bytes, codes, Result, ok, err, undefined, ◌>>=◌, each, All, ◌≡◌, ◌≢◌,
  refl,
}
use minority_viewport.Base.Document.{Document, array, object, end, field, print, print_items-append}
use minority_viewport.Data.Commas.{comma_list, documents, comma_list-print}
use minority_viewport.Data.Scene.{Scene}
use minority_viewport.Data.Sensor.{Store}
use minority_viewport.Data.Client.{Client}
use minority_viewport.Data.Client.Writing.{
  Live, client_to_json, client_document, client_to_json-print, client_to_json_empty,
}
use minority_viewport.Algorithms.Viewport.{Viewport}

module _ {D M : Type 0} where
  unfoldable pub get_client_listing : Viewport D M → Result Bytes
  get_client_listing v = do
    clients ← each (client_to_json v.store) v.clients.raw_client_list
    ok (codes "{\"clients\":[" ++ (comma_list clients ++ codes "]}"))

  abbrev pub listing_document : (ℕ → Scene D M) → List Client → Document
  listing_document scenes cs =
      object (field (codes "clients") (array (documents (client_document scenes) cs)) end)

  -- The client has sensors, and their scenes are live.
  abbrev pub IsListable : Store D M → (ℕ → Scene D M) → Client → Type 0
  IsListable store scenes c = (c.sensors ≢ []) × Live store scenes c.sensors

  each-IsListable :
      (store : Store D M) (scenes : ℕ → Scene D M) (cs : List Client)
      → All (IsListable store scenes) cs
      → each (client_to_json store) cs ≡ ok (map (λ c. print (client_document scenes c) []) cs)
  each-IsListable store scenes [] l = refl
  each-IsListable store scenes (c ∷ cs) l =
      rw (client_to_json-print store scenes c l.0.0 l.0.1, each-IsListable store scenes cs l.1) refl

  -- If every client has sensors and their scenes are live, the listing is the text of one object with
  -- an object for each client in an array, in the order of registration, and in each of these one for
  -- each of its sensors, with what its scene says of calibration and order.
  pub get_client_listing-print :
      (scenes : ℕ → Scene D M) (v : Viewport D M)
      → All (IsListable v.store scenes) v.clients.raw_client_list
      → get_client_listing v ≡ ok (print (listing_document scenes v.clients.raw_client_list) [])
  unfolding get_client_listing print
  get_client_listing-print scenes v l =
      rw (each-IsListable v.store scenes v.clients.raw_client_list l) (
        rw (comma_list-print (client_document scenes) v.clients.raw_client_list, print_items-append)
          refl)

  each-empty :
      (store : Store D M) (scenes : ℕ → Scene D M) (before after : List Client) (c : Client)
      → All (IsListable store scenes) before
      → c.sensors ≡ []
      → each (client_to_json store) (before ++ c ∷ after) ≡ err undefined
  each-empty store scenes [] after c l e = rw (client_to_json_empty store c e) refl
  each-empty store scenes (b ∷ before) after c l e =
      rw
        (
          client_to_json-print store scenes b l.0.0 l.0.1,
          each-empty store scenes before after c l.1 e,
        )
        refl

  -- As soon as one client has no sensors, as a client that has just registered, the listing is
  -- undefined.
  pub get_client_listing_empty :
      (scenes : ℕ → Scene D M) (v : Viewport D M) (before after : List Client) (c : Client)
      → v.clients.raw_client_list ≡ before ++ c ∷ after
      → All (IsListable v.store scenes) before
      → c.sensors ≡ []
      → get_client_listing v ≡ err undefined
  unfolding get_client_listing
  get_client_listing_empty scenes v before after c list l e =
      rw (list, each-empty v.store scenes before after c l e) refl
