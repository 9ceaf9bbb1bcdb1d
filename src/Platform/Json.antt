-- ===== src/Platform/Json.antt =====
-- JsonCpp, as src/main.cpp and src/mysql_seckey.cc use it: a file that is opened and parsed, and
-- `root[key]` read as a string or as a number. Each may throw.
use security_transmission_pl.Base.{ℕ, List}
use security_transmission_pl.Base.Result.{Result}

pub record Json (Root : Type 0) : Type 0 where
  pub parse_file : List ℕ → Result Root
  pub as_string : Root → List ℕ → Result (List ℕ)
  pub as_uint : Root → List ℕ → Result ℕ
