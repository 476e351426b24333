-- ===== src/Install/Windows/Current.antt =====
-- install-win32.c: the current group.
use coreland_lua_ada_load.Base.{
  ℕ, Bool, true, false, Option, none, some, ◌==◌, ◌≡◌, arith, Option-cases, inl, inr,
}
use coreland_lua_ada_load.Install.Machine.{Machine, done}
use coreland_lua_ada_load.Install.Windows.{
  Api, SidPointer, not_int, insufficient_buffer, iwin32_user_primary_group, iwin32_gid_current,
}

-- The error's negation is 0 or 1, and so never the code of a short buffer.
not_int-small : (n : ℕ) → (not_int n == insufficient_buffer) ≡ false
not_int-small n = ground arith

module _ {S D W : Type 0} (api : Api S D W) where
  abbrev pub opens : Option ℕ → Bool
  opens none = false
  opens (some token) = true

  -- iwin32_gid_current never sets the group that it is asked for: it hands back the one that was
  -- there, and reports success wherever the process's token can be opened.
  pub iwin32_gid_current-same :
      (gid : SidPointer S) (s : Machine W)
      → (w : W) × (iwin32_gid_current api gid s
          ≡ done (opens (api.open_process_token s.world).0, gid) (record s { world = w }))
  unfolding iwin32_gid_current iwin32_user_primary_group
  iwin32_gid_current-same gid s = elim (Option-cases (api.open_process_token s.world).0) [
    | inl e ↦ ((api.open_process_token s.world).1, ground (arith, e))
    | inr (token, e) ↦
        let w1 = (api.open_process_token s.world).1 in
        (
          (api.token_group_size token w1).1,
          ground (arith, e, not_int-small (api.get_last_error (api.token_group_size token w1).1)),
        )
  ]
