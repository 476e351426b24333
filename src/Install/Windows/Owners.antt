-- ===== src/Install/Windows/Owners.antt =====
-- install-win32.c: who owns a file.
use coreland_lua_ada_load.Base.{
  ℕ, Bytes, Bool, true, false, Option, none, some, if◌then◌else◌, ◌≡◌, refl, ◌∙◌, ap, arith,
  Option-cases, inl, inr,
}
use coreland_lua_ada_load.Install.Machine.{Machine, pure, ◌>>=◌}
use coreland_lua_ada_load.Install.Windows.{
  buffer_size, Api, SidPointer, sid, or_return_if, copied, iwin32_file_set_sid,
  iwin32_file_set_ownership, iwin32_file_get_owner, iwin32_file_get_group,
  iwin32_file_get_ownership,
}
use coreland_lua_ada_load.Install.Windows.Security.{IsSecurity}
use coreland_lua_ada_load.Install.Windows.Returns.{Returns, >>=-Returns, Returns-map}

module _ {S D W : Type 0} (api : Api S D W) where
  module _ (owner group : Bytes → W → S) (names : D → S)
      (laws : IsSecurity api owner group names) where
    set_sid-Returns :
        (file : Bytes) (uid : S) (s : Machine W)
        → Returns
            (λ b w. (b ≡ true → owner file w ≡ uid) × (group file w ≡ group file s.world))
            (iwin32_file_set_sid api file (sid uid) s)
    unfolding iwin32_file_set_sid
    set_sid-Returns file uid s = elim (Option-cases (api.initialize_descriptor s.world).0) [
      | inl e ↦ grind (arith, laws.initialize-group)
      | inr (d, e) ↦
          let w1 = (api.initialize_descriptor s.world).1 in
          elim (Option-cases (api.set_descriptor_owner d uid w1).0) [
            | inl e' ↦ grind (arith, laws.initialize-group, laws.set_descriptor-group)
            | inr (d', e') ↦
                let w2 = (api.set_descriptor_owner d uid w1).1 in
                let names_uid = laws.set_descriptor-names d d' uid w1 e' in
                let named = laws.set_file-owner file d' w2 in
                let kept =
                  laws.set_file-group file d' w2
                  ∙ laws.set_descriptor-group d uid file w1
                  ∙ laws.initialize-group file s.world in
                let kept2 =
                  laws.set_descriptor-group d uid file w1 ∙ laws.initialize-group file s.world in
                ground (arith, e, e', names_uid, named, kept, kept2)
          ]
    ]

    -- A copy of what was read, or no success; the group is as it was.
    copied-Returns :
        (file : Bytes) (old : SidPointer S) (n : ℕ) (read : Option S) (x : S) (s : Machine W)
        → ((r : S) → read ≡ some r → r ≡ x)
        → Returns
            (λ r w. (r.0 ≡ true → r.1 ≡ sid x) × (group file w ≡ group file s.world))
            (copied api old n read s)
    copied-Returns file old n none x s h = ground arith
    copied-Returns file old n (some r) x s h =
        let w1 = (api.malloc n s.world).1 in
        let stored = laws.malloc-group n file s.world in
        let kept = laws.copy-group n r file w1 ∙ stored in
        elim (Option-cases (api.copy_sid n r w1).0) [
          | inl e ↦ ground (arith, e, stored, kept)
          | inr (c, e) ↦
              let same = ap sid (laws.copy-same n r c w1 e ∙ h r refl) in
              ground (arith, e, stored, kept, same)
        ]

    get_owner-Returns :
        (file : Bytes) (uid : SidPointer S) (s : Machine W)
        → Returns
            (λ r w.
              (r.0 ≡ true → r.1 ≡ sid (owner file s.world)) × (group file w ≡ group file s.world))
            (iwin32_file_get_owner api file uid s)
    unfolding iwin32_file_get_owner
    get_owner-Returns file uid s = elim (Option-cases (api.initialize_descriptor s.world).0) [
      | inl e ↦ ground (arith, e, laws.initialize-group file s.world)
      | inr (d, e) ↦
          let w1 = (api.initialize_descriptor s.world).1 in
          let w2 = (api.get_file_owner buffer_size file w1).1 in
          let kept =
            laws.get_owner-group buffer_size file w1 ∙ laws.initialize-group file s.world in
          elim (Option-cases (api.get_file_owner buffer_size file w1).0) [
            | inl e' ↦ ground (arith, e, e', kept)
            | inr ((d', k), e') ↦
                let copy =
                  Returns-map
                    (λ r w.
                      (r.0 ≡ true → r.1 ≡ sid (owner file s.world))
                      × (group file w ≡ group file w2))
                    (λ r w.
                      (r.0 ≡ true → r.1 ≡ sid (owner file s.world))
                      × (group file w ≡ group file s.world))
                    (copied api uid k (api.descriptor_owner d' w2) (record s { world = w2 }))
                    (λ r w q. (q.0, q.1 ∙ kept))
                    (copied-Returns file uid k (api.descriptor_owner d' w2) (owner file s.world)
                      (record s { world = w2 })
                      (λ r q.
                        laws.get_owner-reads buffer_size k file d' r w1 w2 e' q
                        ∙ laws.initialize-owner file s.world)) in
                ground (arith, e, e', copy)
          ]
    ]

    get_group-Returns :
        (file : Bytes) (gid : SidPointer S) (s : Machine W)
        → Returns
            (λ r w. r.0 ≡ true → r.1 ≡ sid (group file s.world))
            (iwin32_file_get_group api file gid s)
    unfolding iwin32_file_get_group
    get_group-Returns file gid s = elim (Option-cases (api.initialize_descriptor s.world).0) [
      | inl e ↦ ground (arith, e)
      | inr (d, e) ↦
          let w1 = (api.initialize_descriptor s.world).1 in
          let w2 = (api.get_file_group buffer_size file w1).1 in
          elim (Option-cases (api.get_file_group buffer_size file w1).0) [
            | inl e' ↦ ground (arith, e, e')
            | inr ((d', k), e') ↦
                let copy =
                  Returns-map
                    (λ r w.
                      (r.0 ≡ true → r.1 ≡ sid (group file s.world))
                      × (group file w ≡ group file w2))
                    (λ r w. r.0 ≡ true → r.1 ≡ sid (group file s.world))
                    (copied api gid k (api.descriptor_group d' w2) (record s { world = w2 }))
                    (λ r w q. q.0)
                    (copied-Returns file gid k (api.descriptor_group d' w2) (group file s.world)
                      (record s { world = w2 })
                      (λ r q.
                        laws.get_group-reads buffer_size k file d' r w1 w2 e' q
                        ∙ laws.initialize-group file s.world)) in
                ground (arith, e, e', copy)
          ]
    ]

    abbrev pub Read : Bytes → S → S → (Bool × (SidPointer S × SidPointer S)) → W → Type 0
    Read file o g r w = r.0 ≡ true → (r.1.0 ≡ sid o) × (r.1.1 ≡ sid g)

    get_ownership-Returns :
        (file : Bytes) (uid gid : SidPointer S) (s : Machine W)
        → Returns
            (Read file (owner file s.world) (group file s.world))
            (iwin32_file_get_ownership api file uid gid s)
    unfolding iwin32_file_get_ownership
    get_ownership-Returns file uid gid s =
        >>=-Returns
          (λ r w.
            (r.0 ≡ true → r.1 ≡ sid (owner file s.world)) × (group file w ≡ group file s.world))
          (Read file (owner file s.world) (group file s.world)) (iwin32_file_get_owner api file uid)
          _ s (get_owner-Returns file uid s) behind
      where
        behind :
            (r : Bool × SidPointer S) (s' : Machine W)
            → (r.0 ≡ true → r.1 ≡ sid (owner file s.world))
              × (group file s'.world ≡ group file s.world)
            → Returns (Read file (owner file s.world) (group file s.world)) (
                or_return_if
                  (false, (r.1, gid))
                  r.0
                  (iwin32_file_get_group api file gid >>= λ (grouped, gid').
                    pure (grouped, (r.1, gid')))
                  s')
        behind (false, uid') s' q = λ e. absurd (ground (arith, e))
        behind (true, uid') s' q =
            >>=-Returns (λ r w. r.0 ≡ true → r.1 ≡ sid (group file s'.world))
              (Read file (owner file s.world) (group file s.world))
              (iwin32_file_get_group api file gid) (λ (grouped, gid'). pure (grouped, (uid', gid')))
              s' (get_group-Returns file gid s')
              (λ (grouped, gid') s'' h e. (q.0 refl, h e ∙ ap sid q.1))

    -- Where the API behaves as it documents, setting an owner and reading the ownership again
    -- returns; if both report success, what is read is the owner that was set, and the group that
    -- the file had: a group that is set has no effect.
    pub get_ownership-set :
        (file : Bytes) (uid : S) (gid u g : SidPointer S) (s : Machine W)
        → Returns (Read file uid (group file s.world)) (
            (iwin32_file_set_ownership api file (sid uid) gid >>= λ set.
            if set then iwin32_file_get_ownership api file u g else pure (false, (u, g)))
              s)
    unfolding iwin32_file_set_ownership
    get_ownership-set file uid gid u g s =
        >>=-Returns (λ b w. (b ≡ true → owner file w ≡ uid) × (group file w ≡ group file s.world))
          (Read file uid (group file s.world)) (iwin32_file_set_sid api file (sid uid))
          (λ set. if set then iwin32_file_get_ownership api file u g else pure (false, (u, g))) s
          (set_sid-Returns file uid s) behind
      where
        behind :
            (set : Bool) (s' : Machine W)
            → (set ≡ true → owner file s'.world ≡ uid) × (group file s'.world ≡ group file s.world)
            → Returns
                (Read file uid (group file s.world))
                ((if set then iwin32_file_get_ownership api file u g else pure (false, (u, g))) s')
        behind false s' q = λ e. absurd (ground (arith, e))
        behind true s' q =
            Returns-map (Read file (owner file s'.world) (group file s'.world))
              (Read file uid (group file s.world)) (iwin32_file_get_ownership api file u g s')
              (λ r w h e. ((h e).0 ∙ ap sid (q.0 refl), (h e).1 ∙ ap sid q.1))
              (get_ownership-Returns file u g s')
