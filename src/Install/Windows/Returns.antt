-- ===== src/Install/Windows/Returns.antt =====
-- install-win32.c: runs that return, and do not end in a fault.
use coreland_lua_ada_load.Install.Machine.{Machine, M, Out, done, early, fault, ◌>>=◌}

module _ {W : Type 0} where
  -- The run returns, with a result and a world of the kind.
  abbrev pub Returns : {A : Type 0} → (A → W → Type 0) → Out W A → Type 0
  Returns Q (done a s) = Q a s.world
  Returns Q (early st s) = ⊥
  Returns Q (fault e) = ⊥

  pub >>=-Returns :
      {A B : Type 0} (Q : A → W → Type 0) (R : B → W → Type 0) (m : M W A) (k : A → M W B)
      (s : Machine W)
      → Returns Q (m s)
      → ((a : A) (s' : Machine W) → Q a s'.world → Returns R (k a s'))
      → Returns R ((m >>= k) s)
  >>=-Returns {A = A} Q R m k s h next = at (m s) h
    where
      at : (o : Out W A) → Returns Q o → Returns R (((λ (_ : Machine W). o) >>= k) s)
      at (done a s') q = next a s' q
      at (early st s') q = absurd q
      at (fault e) q = absurd q

  pub Returns-map :
      {A : Type 0} (Q R : A → W → Type 0) (o : Out W A)
      → ((a : A) (w : W) → Q a w → R a w)
      → Returns Q o
      → Returns R o
  Returns-map Q R (done a s) f h = f a s.world h
  Returns-map Q R (early st s) f h = h
  Returns-map Q R (fault e) f h = h
