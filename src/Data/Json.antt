-- ===== src/Data/Json.antt =====
-- The JSON reader is a library, a copy of jsoncpp in Data/JSON: what the code calls of it.
use minority_viewport.Base.{ℕ, Bytes, Option, Result}

-- `Json::Value`, `Json::Reader::parse` on a text (`none`: it fails), `get` with a default, `[i]`,
-- `size` and `asString`, which throws on an array or an object.
pub record Json : Type 1 where
  pub Value : Type 0
  pub parse : Bytes → Option Value
  -- `get` and `[i]` are total here; jsoncpp asserts that the value is of a kind that has members
  -- or elements. The value that `NULL` becomes:
  pub null_value : Value
  pub get : Value → Bytes → Value → Value
  pub at : Value → ℕ → Value
  pub size : Value → ℕ
  pub as_string : Value → Result Bytes
