-- ===== src/Data/Client/Writing.antt =====
-- Data/Client.cpp, `ToJSON`.
use minority_viewport.Base.{
  ℕ, List, [], ◌∷◌, ◌++◌, map, Bytes, codes, some, Result, ok, err, undefined, ◌>>=◌, each, All,
  ◌≡◌, ◌≢◌, refl,
}
use minority_viewport.Base.Decimal.{to_string}
use minority_viewport.Base.Document.{
  Document, token, string, array, object, end, field, print, print_items-append,
}
use minority_viewport.Data.Commas.{comma_list, documents, comma_list-print}
use minority_viewport.Data.Escape.{escape}
use minority_viewport.Data.Escape.Pass.{escaped, escape-escaped}
use minority_viewport.Data.Skeleton.Writing.{flag, flag_text, flag-print}
use minority_viewport.Data.Scene.{Scene}
use minority_viewport.Data.Sensor.{Sensor, Store, fetch}
use minority_viewport.Data.Client.{Client}

module _ {D M : Type 0} where
  -- The body of the loop, without the comma.
  unfoldable pub sensor_to_json : Store D M → Bytes × Sensor → Result Bytes
  sensor_to_json store (key, s) = do
    sensor_id ← escape s.id
    scene ← fetch s.scene store
    ok (
        codes "{\"id\":\""
        ++ (sensor_id
            ++ (codes "\",\"calibrated\":"
                ++ (flag_text scene.calibrated
                    ++ (codes ",\"ordering\":\"" ++ (to_string scene.ordering ++ codes "\"}"))))))

  -- `advance(end(), -1)` is undefined for an empty map.
  unfoldable pub sensors_to_json : Store D M → List (Bytes × Sensor) → Result Bytes
  sensors_to_json store [] = err undefined
  sensors_to_json store (e ∷ m) = do
    sensors ← each (sensor_to_json store) (e ∷ m)
    ok (comma_list sensors)

  unfoldable pub client_to_json : Store D M → Client → Result Bytes
  client_to_json store c = do
    sensors ← sensors_to_json store c.sensors
    ok (
        codes "{\"id\":"
        ++ (to_string c.id
            ++ (codes ",\"location\":\""
                ++ (c.location
                    ++ (codes "\",\"address\":\""
                        ++ (c.ip_addr ++ (codes "\",\"sensors\":[" ++ (sensors ++ codes "]}"))))))))

  -- The scenes of the sensors are live, and `scenes` are what the store has at their addresses.
  abbrev pub Live : Store D M → (ℕ → Scene D M) → List (Bytes × Sensor) → Type 0
  Live store scenes = All (λ e. store.cell e.1.scene ≡ some (scenes e.1.scene))

  abbrev pub sensor_document : (ℕ → Scene D M) → Bytes × Sensor → Document
  sensor_document scenes e = object (
      field (codes "id") (string (escaped e.1.id)) (
        field (codes "calibrated") (flag (scenes e.1.scene).calibrated)
          (field (codes "ordering") (string (to_string (scenes e.1.scene).ordering)) end)))

  abbrev pub client_document : (ℕ → Scene D M) → Client → Document
  client_document scenes c = object (
      field (codes "id") (token (to_string c.id)) (
        field (codes "location") (string c.location) (
          field (codes "address") (string c.ip_addr)
            (field (codes "sensors") (array (documents (sensor_document scenes) c.sensors)) end))))

  sensor_to_json-print :
      (store : Store D M) (scenes : ℕ → Scene D M) (e : Bytes × Sensor)
      → store.cell e.1.scene ≡ some (scenes e.1.scene)
      → sensor_to_json store e ≡ ok (print (sensor_document scenes e) [])
  unfolding sensor_to_json print
  sensor_to_json-print store scenes (key, s) live =
      rw (escape-escaped s.id, live, flag-print (scenes s.scene).calibrated) refl

  each-Live :
      (store : Store D M) (scenes : ℕ → Scene D M) (m : List (Bytes × Sensor))
      → Live store scenes m
      → each (sensor_to_json store) m ≡ ok (map (λ e. print (sensor_document scenes e) []) m)
  each-Live store scenes [] l = refl
  each-Live store scenes (e ∷ m) l =
      rw (sensor_to_json-print store scenes e l.0, each-Live store scenes m l.1) refl

  sensors_to_json-each :
      (store : Store D M) (m : List (Bytes × Sensor)) {texts : List Bytes}
      → m ≢ []
      → each (sensor_to_json store) m ≡ ok texts
      → sensors_to_json store m ≡ ok (comma_list texts)
  unfolding sensors_to_json
  sensors_to_json-each store [] n e = absurd (n refl)
  sensors_to_json-each store (x ∷ m) n e = rw e refl

  pub client_to_json-print :
      (store : Store D M) (scenes : ℕ → Scene D M) (c : Client)
      → c.sensors ≢ []
      → Live store scenes c.sensors
      → client_to_json store c ≡ ok (print (client_document scenes c) [])
  unfolding client_to_json print
  client_to_json-print store scenes c n l =
      rw (sensors_to_json-each store c.sensors n (each-Live store scenes c.sensors l))
        (rw (comma_list-print (sensor_document scenes) c.sensors, print_items-append) refl)

  pub client_to_json_empty :
      (store : Store D M) (c : Client) → c.sensors ≡ [] → client_to_json store c ≡ err undefined
  unfolding client_to_json sensors_to_json
  client_to_json_empty store c e = rw e refl
