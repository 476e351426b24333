-- ===== src/Ctxt.antt =====
-- ctxt.h: the directories and the version, whose values the build generates.
use coreland_lua_ada_load.Base.{Bytes}

pub record Ctxt : Type 0 where
  pub bindir : Bytes
  pub incdir : Bytes
  pub dlibdir : Bytes
  pub slibdir : Bytes
  pub repos : Bytes
  pub version : Bytes
