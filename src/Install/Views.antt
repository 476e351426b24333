-- ===== src/Install/Views.antt =====
-- A view of the system's state is what the files look like: a reading stream, the current
-- directory and a flush do not show in it. Runs that keep a view, and the rule for two steps.
pub mod Translations
use coreland_lua_ada_load.Base.{ℕ, Bytes, ◌≡◌, subst, false}
use coreland_lua_ada_load.Install.Types.{is_ok}
use coreland_lua_ada_load.Install.Os.{Os}
use coreland_lua_ada_load.Install.Machine.{M, Machine, Out, done, early, fault, ◌>>=◌}

pub record IsFileView {W F : Type 0} (os : Os W) (view : W → F) : Type 0 where
  pub view-chdir : (d : Bytes) (w : W) → view (os.chdir d w).1 ≡ view w
  pub view-fopen_rb : (p : Bytes) (w : W) → view (os.fopen_rb p w).1 ≡ view w
  pub view-fread : (h n : ℕ) (w : W) → view (os.fread h n w).1 ≡ view w
  pub view-fclose_rb : (h : ℕ) (w : W) → view (os.fclose_rb h w).1 ≡ view w
  pub view-fflush_all : (w : W) → view (os.fflush_all w) ≡ view w

module _ {W F : Type 0} (view : W → F) where
  -- The run ends in a state with the same view, or in a fault; what it leaves early with is a failure.
  abbrev pub Shows : {A : Type 0} → F → Out W A → Type 0
  Shows f (done a s) = view s.world ≡ f
  Shows f (early st s) = (view s.world ≡ f) × (is_ok st ≡ false)
  Shows f (fault e) = Unit

  -- Wherever it starts.
  abbrev pub Keeps : {A : Type 0} → M W A → Type 0
  Keeps m = (s : Machine W) → Shows (view s.world) (m s)

  -- Two steps that keep the view keep it together.
  pub >>=-Keeps :
      {A B : Type 0} (m : M W A) (f : A → M W B)
      → Keeps m
      → ((a : A) → Keeps (f a))
      → Keeps (m >>= f)
  >>=-Keeps m f h k s = at (m s) (h s)
    where
      at :
          (o : Out W _)
          → Shows (view s.world) o
          → Shows
              (view s.world)
              (elim o [ done a s' ↦ f a s' | early st s' ↦ early st s' | fault x ↦ fault x ])
      at (done a s') e = subst (λ x. Shows x (f a s')) e (k a s')
      at (early st s') e = e
      at (fault x) e = tt
