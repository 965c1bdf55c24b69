-- ===== src/Networks/MimeTypes.antt =====
-- Networks/MimeTypes.cpp: the type of a file by its extension.
use minority_viewport.Base.{List, [], ◌∷◌, Bytes, codes, if◌then◌else◌}
use minority_viewport.Base.Texts.{bytes_eq}

pub record Mapping : Type 0 where
  pub extension : Bytes
  pub mime_type : Bytes

-- The entries above the one that marks the end.
unfoldable pub mappings : List Mapping
mappings =
    record { extension = codes "gif"; mime_type = codes "image/gif" }
    ∷ record { extension = codes "htm"; mime_type = codes "text/html" }
    ∷ record { extension = codes "html"; mime_type = codes "text/html" }
    ∷ record { extension = codes "jpg"; mime_type = codes "image/jpeg" }
    ∷ record { extension = codes "png"; mime_type = codes "image/png" }
    ∷ record { extension = codes "css"; mime_type = codes "text/css" }
    ∷ record { extension = codes "js"; mime_type = codes "application/javascript" }
    ∷ []

-- The loop over the table.
unfoldable pub type_in : List Mapping → Bytes → Bytes
type_in [] extension = codes "text/plain"
type_in (m ∷ ms) extension =
    if bytes_eq m.extension extension then m.mime_type else type_in ms extension

unfoldable pub extension_to_type : Bytes → Bytes
extension_to_type extension = type_in mappings extension
