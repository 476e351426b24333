-- ===== src/Locker/Ends.antt =====
-- SYSDEPS/sd-locker.c: how a part of a run ends.
use coreland_lua_ada_load.Locker.Process.{LockerState, Going, goes, exits, aborts, becomes, P, ◌>>◌}

module _ {W : Type 0} (E : W → Type 0) where
  -- The run goes on with a state of the kind Q, or has exited with a world of the kind E.
  abbrev pub Ends : (LockerState → Type 0) → Going W → Type 0
  Ends Q (goes s w) = Q s
  Ends Q (exits code text w) = E w
  Ends Q aborts = ⊥
  Ends Q (becomes argv w) = ⊥

  pub >>-Ends :
      (Q R : LockerState → Type 0) (m k : P W) (s : LockerState) (w : W)
      → Ends Q (m s w)
      → ((s' : LockerState) (w' : W) → Q s' → Ends R (k s' w'))
      → Ends R ((m >> k) s w)
  >>-Ends Q R m k s w h next = at (m s w) h
    where
      at : (o : Going W) → Ends Q o → Ends R (((λ (_ : LockerState) (_ : W). o) >> k) s w)
      at (goes s' w') q = next s' w' q
      at (exits code text w') q = q
      at aborts q = absurd q
      at (becomes argv w') q = absurd q
