-- ===== src/Networks/Request.antt =====
-- Networks/Header.h and Networks/Request.h.
use minority_viewport.Base.{ℕ, List, [], Bytes}

pub record Header : Type 0 where
  pub name : Bytes
  pub value : Bytes

-- The two `int` fields are their 32-bit patterns.
pub record Request : Type 0 where
  pub method : Bytes
  pub uri : Bytes
  pub http_version_major : ℕ
  pub http_version_minor : ℕ
  pub headers : List Header

-- A `request` as `connection` holds it at first: its strings and its vector are empty, and its two
-- numbers are not initialised.
abbrev pub blank : ℕ → ℕ → Request
blank major minor = record {
  method = [];
  uri = [];
  http_version_major = major;
  http_version_minor = minor;
  headers = [];
}
