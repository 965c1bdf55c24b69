-- ===== src/Data/Skeleton/Writing.antt =====
-- Data/Joint.cpp and Data/Skeleton.cpp, the methods `ToJSON`. What `std::to_string` writes for a
-- `double` is a parameter.
use minority_viewport.Base.{
  ℕ, ◌-◌, ◌^◌, ltb, if◌then◌else◌, ◌∷◌, Bool, true, false, [], map, ◌++◌, Bytes, codes, Result, ok,
  ◌>>=◌, ◌≡◌, refl,
}
use mathlib.Core.Path.{fun_ext}
use minority_viewport.Base.Decimal.{to_string}
use minority_viewport.Base.Document.{
  Document, token, string, array, object, end, field, print, print_items-append,
}
use minority_viewport.Data.Commas.{comma_list, documents, comma_list-print}
use minority_viewport.Data.Escape.{escape}
use minority_viewport.Data.Escape.Pass.{escaped, escape-escaped}
use minority_viewport.Data.Skeleton.{Joint, Skeleton}

-- `std::to_string` of a `long`, from its pattern of 32 bits.
abbrev pub signed_text : ℕ → Bytes
signed_text n = if ltb n (2 ^ 31) then to_string n else b'-' ∷ to_string (2 ^ 32 - n)

abbrev pub flag_text : Bool → Bytes
flag_text true = codes "\"true\""
flag_text false = codes "\"false\""

abbrev pub flag : Bool → Document
flag true = string (codes "true")
flag false = string (codes "false")

pub flag-print : (b : Bool) (rest : Bytes) → flag_text b ++ rest ≡ print (flag b) rest
unfolding print
flag-print true rest = refl
flag-print false rest = refl

module _ {D : Type 0} (show : D → Bytes) where
  -- The key of the type has a colon of its own.
  unfoldable pub joint_to_json : Joint D → Bytes
  joint_to_json j =
      codes "{\"type:\":"
      ++ (to_string j.type
          ++ (codes ",\"X\":"
              ++ (show j.x
                  ++ (codes ",\"Y\":"
                      ++ (show j.y ++ (codes ",\"Z\":" ++ (show j.z ++ codes "}")))))))

  unfoldable pub skeleton_to_json : Skeleton D → Result Bytes
  skeleton_to_json s = do
    sensor_id ← escape s.sensor_id
    ok (
        codes "{\"id\":"
        ++ (to_string s.skeleton_id
            ++ (codes ",\"client_id\":"
                ++ (to_string s.client_id
                    ++ (codes ",\"sensor_id\":\""
                        ++ (sensor_id
                            ++ (codes "\",\"time_stamp\":"
                                ++ (signed_text s.time_stamp
                                    ++ (codes ",\"shared\":"
                                        ++ (flag_text s.shared
                                            ++ (codes ",\"pos_x\":"
                                                ++ (show s.pos_x
                                                    ++ (codes ",\"pos_y\":"
                                                        ++ (show s.pos_y
                                                            ++ (codes ",\"pos_z\":"
                                                            ++ (show s.pos_z
                                                            ++ (codes ",\"joints\":["
                                                            ++ (comma_list
                                                            (map joint_to_json s.joints)
                                                            ++ codes "]}"))))))))))))))))))

  abbrev pub joint_document : Joint D → Document
  joint_document j = object (
      field (codes "type:") (token (to_string j.type)) (
        field (codes "X") (token (show j.x))
          (field (codes "Y") (token (show j.y)) (field (codes "Z") (token (show j.z)) end))))

  abbrev pub skeleton_document : Skeleton D → Document
  skeleton_document s = object (
      field (codes "id") (token (to_string s.skeleton_id)) (
        field (codes "client_id") (token (to_string s.client_id)) (
          field (codes "sensor_id") (string (escaped s.sensor_id)) (
            field (codes "time_stamp") (token (signed_text s.time_stamp)) (
              field (codes "shared") (flag s.shared) (
                field (codes "pos_x") (token (show s.pos_x)) (
                  field (codes "pos_y") (token (show s.pos_y)) (
                    field (codes "pos_z") (token (show s.pos_z)) (
                      field (codes "joints") (array (documents joint_document s.joints))
                        end)))))))))

  joint_to_json-print : (j : Joint D) → joint_to_json j ≡ print (joint_document j) []
  unfolding joint_to_json print
  joint_to_json-print j = refl

  -- What is written for a skeleton is the text of its tree, with its joints in an array.
  pub skeleton_to_json-print :
      (s : Skeleton D) → skeleton_to_json s ≡ ok (print (skeleton_document s) [])
  unfolding skeleton_to_json print
  skeleton_to_json-print s =
      rw
        (
          escape-escaped s.sensor_id,
          fun_ext joint_to_json-print,
          comma_list-print joint_document s.joints,
          print_items-append,
          flag-print s.shared,
        )
        refl
