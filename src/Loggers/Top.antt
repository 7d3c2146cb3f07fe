-- ===== src/Loggers/Top.antt =====
-- The top lists of the topmap library: `new_top_map` for a size, `put` for `Record`, and `get`.
use go_dns_collector.Base.{ℕ, List, Bytes, string_key, bytes_key}

pub record TopMap (Top : Type 0) : Type 0 where
  pub new_top_map : ℕ → Top
  pub put : Bytes → ℕ → Top → Top
  pub get : Top → List (Bytes × ℕ)
