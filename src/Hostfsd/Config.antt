-- ===== src/Hostfsd/Config.antt =====
-- tools/hostfsd/shinogi-hostfsd.c: what `main` settles before the first client.
use shinogi.Base.{Bool, Bytes}

-- `root`, with its length for `rootlen`, `read_only` and `label`.
pub record Config : Type 0 where
  pub root : Bytes
  pub read_only : Bool
  pub label : Bytes
