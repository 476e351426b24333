-- ===== src/Install/Windows/Security.antt =====
-- install-win32.c: what the API documents of the owners and groups of files.
use coreland_lua_ada_load.Base.{ℕ, Bytes, true, some, ◌≡◌}
use coreland_lua_ada_load.Install.Windows.{Api}

module _ {S D W : Type 0} (api : Api S D W) where
  -- What the API documents of the owner and the group of files, on which only SetFileSecurity has
  -- an effect, and of the owner and the group that a descriptor holds.
  pub record IsSecurity (owner group : Bytes → W → S) (names : D → S) : Type 0 where
    pub malloc-owner : (n : ℕ) (f : Bytes) (w : W) → owner f (api.malloc n w).1 ≡ owner f w
    pub malloc-group : (n : ℕ) (f : Bytes) (w : W) → group f (api.malloc n w).1 ≡ group f w
    pub initialize-owner : (f : Bytes) (w : W) → owner f (api.initialize_descriptor w).1 ≡ owner f w
    pub initialize-group : (f : Bytes) (w : W) → group f (api.initialize_descriptor w).1 ≡ group f w
    pub set_descriptor-owner :
        (d : D) (s : S) (f : Bytes) (w : W) → owner f (api.set_descriptor_owner d s w).1 ≡ owner f w
    pub set_descriptor-group :
        (d : D) (s : S) (f : Bytes) (w : W) → group f (api.set_descriptor_owner d s w).1 ≡ group f w
    pub set_descriptor-names :
        (d d' : D) (s : S) (w : W) → (api.set_descriptor_owner d s w).0 ≡ some d' → names d' ≡ s
    pub set_file-owner :
        (f : Bytes) (d : D) (w : W)
        → (api.set_file_owner f d w).0 ≡ true
        → owner f (api.set_file_owner f d w).1 ≡ names d
    pub set_file-group :
        (f : Bytes) (d : D) (w : W) → group f (api.set_file_owner f d w).1 ≡ group f w
    pub get_owner-owner :
        (n : ℕ) (f : Bytes) (w : W) → owner f (api.get_file_owner n f w).1 ≡ owner f w
    pub get_owner-group :
        (n : ℕ) (f : Bytes) (w : W) → group f (api.get_file_owner n f w).1 ≡ group f w
    pub get_group-group :
        (n : ℕ) (f : Bytes) (w : W) → group f (api.get_file_group n f w).1 ≡ group f w
    pub get_owner-reads :
        (n k : ℕ) (f : Bytes) (d : D) (s : S) (w w' : W)
        → (api.get_file_owner n f w).0 ≡ some (d, k)
        → api.descriptor_owner d w' ≡ some s
        → s ≡ owner f w
    pub get_group-reads :
        (n k : ℕ) (f : Bytes) (d : D) (s : S) (w w' : W)
        → (api.get_file_group n f w).0 ≡ some (d, k)
        → api.descriptor_group d w' ≡ some s
        → s ≡ group f w
    pub copy-same : (n : ℕ) (s c : S) (w : W) → (api.copy_sid n s w).0 ≡ some c → c ≡ s
    pub copy-group :
        (n : ℕ) (s : S) (f : Bytes) (w : W) → group f (api.copy_sid n s w).1 ≡ group f w
