-- ===== src/Data/Scene/Writing.antt =====
-- Data/Scene.cpp, `ToJSON`.
use minority_viewport.Base.{
  ℕ, Bool, true, false, [], ◌++◌, Bytes, codes, Result, ok, ◌>>=◌, each, each-map, ◌≡◌, refl,
}
use minority_viewport.Base.Decimal.{to_string}
use minority_viewport.Base.Document.{
  Document, token, string, array, object, end, field, print, print_items-append,
}
use minority_viewport.Data.Commas.{comma_list, documents, comma_list-print}
use minority_viewport.Data.Escape.{escape}
use minority_viewport.Data.Escape.Pass.{escaped, escape-escaped}
use minority_viewport.Data.Skeleton.{Skeleton}
use minority_viewport.Data.Skeleton.Writing.{
  skeleton_to_json, skeleton_document, skeleton_to_json-print,
}
use minority_viewport.Data.Scene.{Scene}

-- `to_string` of a `bool`.
abbrev pub bit : Bool → ℕ
bit true = 1
bit false = 0

module _ {D : Type 0} (show : D → Bytes) where
  abbrev pub entry_to_json : ℕ × Skeleton D → Result Bytes
  entry_to_json e = skeleton_to_json show e.1

  abbrev pub entry_document : ℕ × Skeleton D → Document
  entry_document e = skeleton_document show e.1

module _ {D M : Type 0} (show : D → Bytes) where
  unfoldable pub scene_to_json : Scene D M → Result Bytes
  scene_to_json s = do
    sensor_id ← escape s.sensor_id
    skeletons ← each (entry_to_json show) s.skeletons
    ok (
        codes "{\"sensorId\":\""
        ++ (sensor_id
            ++ (codes "\",\"dimensionX\":"
                ++ (to_string s.dimension_x
                    ++ (codes ",\"dimensionY\":"
                        ++ (to_string s.dimension_y
                            ++ (codes ",\"dimensionZ\":"
                                ++ (to_string s.dimension_z
                                    ++ (codes ",\"ordering\":"
                                        ++ (to_string s.ordering
                                            ++ (codes ",\"calibrated\":"
                                                ++ (to_string (bit s.calibrated)
                                                    ++ (codes ",\"skeletons\":["
                                                        ++ (comma_list skeletons
                                                            ++ codes "]}"))))))))))))))

  abbrev pub scene_document : Scene D M → Document
  scene_document s = object (
      field (codes "sensorId") (string (escaped s.sensor_id)) (
        field (codes "dimensionX") (token (to_string s.dimension_x)) (
          field (codes "dimensionY") (token (to_string s.dimension_y)) (
            field (codes "dimensionZ") (token (to_string s.dimension_z)) (
              field (codes "ordering") (token (to_string s.ordering)) (
                field (codes "calibrated") (token (to_string (bit s.calibrated))) (
                  field (codes "skeletons") (array (documents (entry_document show) s.skeletons))
                    end)))))))

  -- What is written for a scene is the text of its tree, with a tree for each of its skeletons in an
  -- array, in the order of the identifiers; the identifier of the sensor stands in it as the loop over
  -- the backslashes leaves it.
  pub scene_to_json-print : (s : Scene D M) → scene_to_json s ≡ ok (print (scene_document s) [])
  unfolding scene_to_json print
  scene_to_json-print s =
      rw
        (
          escape-escaped s.sensor_id,
          each-map (entry_to_json show) (λ e. print (entry_document show e) []) s.skeletons
              (λ e. skeleton_to_json-print show e.1),
        )
        (rw (comma_list-print (entry_document show) s.skeletons, print_items-append) refl)
