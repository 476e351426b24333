-- ===== src/Programs/Ending.antt =====
-- instchk.c, installer.c and deinstaller.c: the exit statuses.
use coreland_lua_ada_load.Base.{
  ℕ, true, Option, List, [], ◌∷◌, String, ◌≡◌, refl, ◌⊎◌, inl, inr, arith, Bool-cases, length,
  codes,
}
use coreland_lua_ada_load.Install.Types.{Status, InstallItem, is_ok}
use coreland_lua_ada_load.Install.Os.{Os}
use coreland_lua_ada_load.Install.Machine.{M, Machine, Out, done, early, fault, ◌>>=◌, pure}
use coreland_lua_ada_load.Install.Api.{
  install_callback_warn_set, install_callback_info_set, install, install_check, install_init,
}
use coreland_lua_ada_load.Programs.{
  Step, next, exits, report, after_item, each_item, started, start_work, exit_status, summary,
  installer_main, instchk_main, argument_flag,
}

module _ {W : Type 0} where
  -- What holds of a run that ends with a result.
  abbrev pub Ends : {A : Type 0} → (A → Machine W → Type 0) → Out W A → Type 0
  Ends Q (done a s) = Q a s
  Ends Q (early st s) = Unit
  Ends Q (fault e) = Unit

  >>=-Ends :
      {A B : Type 0} (m : M W A) (f : A → M W B) (Q : B → Machine W → Type 0)
      → ((a : A) (s : Machine W) → Ends Q (f a s))
      → (s : Machine W) → Ends Q ((m >>= f) s)
  >>=-Ends m f Q h s = at (m s)
    where
      at :
          (o : Out W _)
          → Ends Q (elim o [ done a s' ↦ f a s' | early st s' ↦ early st s' | fault x ↦ fault x ])
      at (done a s') = h a s'
      at (early st s') = tt
      at (fault x) = tt

  abbrev Goes : Step → Machine W → Type 0
  Goes next s = Unit
  Goes (exits code) s = code ≡ 112

  abbrev pub Exits : ℕ → Machine W → Type 0
  Exits code s = (code ≡ 0) ⊎ (code ≡ 112)

  -- A status of 0 is given only where no failed check is counted; the others are 1 and 112.
  abbrev pub Checks : ℕ → Machine W → Type 0
  Checks code s = ((code ≡ 0) × (s.failed ≡ 0)) ⊎ ((code ≡ 1) ⊎ (code ≡ 112))

  module _ (os : Os W) (defined : String → Option ℕ) where
    after_item-Goes :
        (progname : String) (st : Status) (s : Machine W)
        → Ends Goes (after_item os defined progname st s)
    unfolding after_item report
    after_item-Goes progname st s = ground arith

    go_on :
        (rest : M W Step) (o : Out W Step)
        → ((t : Machine W) → Ends Goes (rest t))
        → Ends Goes o
        → (s : Machine W)
        → Ends Goes
            (((λ (_ : Machine W). o) >>= elim [ next ↦ rest | exits code ↦ pure (exits code) ]) s)
    go_on rest (done next t) h k s = h t
    go_on rest (done (exits code) t) h k s = k
    go_on rest (early st t) h k s = tt
    go_on rest (fault x) h k s = tt

    each_item-Goes :
        (progname : String) (handle : InstallItem → M W Status) (items : List InstallItem)
        (s : Machine W)
        → Ends Goes (each_item os defined progname handle items s)
    unfolding each_item
    each_item-Goes progname handle [] s = tt
    each_item-Goes progname handle (ins ∷ items) s =
        >>=-Ends (handle ins) _ Goes
          (λ st t.
            go_on (each_item os defined progname handle items) (after_item os defined progname st t)
              (each_item-Goes progname handle items) (after_item-Goes progname st t) t)
          s

    summary-Checks : (count : ℕ) (s : Machine W) → Ends Checks (summary os defined count s)
    unfolding summary
    summary-Checks count s = ground arith

    exit_status-Exits :
        (m : M W Step) (s : Machine W) → Ends Goes (m s) → Ends Exits (exit_status m s)
    exit_status-Exits m s h = go (m s) h
      where
        go : (o : Out W Step) → Ends Goes o → Ends Exits (exit_status (λ _. o) s)
        go (done next t) h = inl refl
        go (done (exits code) t) h = inr h
        go (early st t) h = tt
        go (fault x) h = tt

    Checks-Checks :
        (m : M W Step) (count : ℕ) (s : Machine W)
        → Ends Goes (m s)
        → Ends Checks ((m >>= elim [ next ↦ summary os defined count | exits code ↦ pure code ]) s)
    Checks-Checks m count s h = go (m s) h
      where
        go :
            (o : Out W Step)
            → Ends Goes o
            → Ends Checks (
                ((λ (_ : Machine W). o)
                    >>= elim [ next ↦ summary os defined count | exits code ↦ pure code ])
                  s)
        go (done next t) h = summary-Checks count t
        go (done (exits code) t) h = inr (inr h)
        go (early st t) h = tt
        go (fault x) h = tt

    started-Ends :
        (progname : String) (work : M W ℕ) (Q : ℕ → Machine W → Type 0)
        → ((t : Machine W) → Q 112 t)
        → ((t : Machine W) → Ends Q (work t))
        → (s : Machine W) → Ends Q (started os defined progname work s)
    unfolding started
    started-Ends progname work Q failed h =
        >>=-Ends (install_init os (codes "conf-sosuffix")) _ Q (λ status t.
          elim (Bool-cases (is_ok status)) [
            | inl good ↦ rw good (begun t)
            | inr bad ↦ rw bad (
                >>=-Ends (report os defined progname ": fatal: init: " status) (λ _. pure 112) Q
                  (λ _. failed) t)
          ])
      where
        begun : (t : Machine W) → Ends Q (start_work work t)
        begun t =
            >>=-Ends (install_callback_warn_set true)
              (λ _. install_callback_info_set true >>= λ _. work) Q
              (λ _ u. >>=-Ends (install_callback_info_set true) (λ _. work) Q (λ _ v. h v) u) t

    -- The status that the installer ends with is 0 or 112.
    installer_main-Exits :
        (fuel : ℕ) (items : List InstallItem) (argc : ℕ) (s : Machine W)
        → Ends Exits (installer_main os defined fuel items argc s)
    unfolding installer_main
    installer_main-Exits fuel items argc =
        started-Ends "installer" _ Exits (λ t. inr refl)
          (λ t.
            exit_status-Exits
              (each_item os defined "installer" (λ ins. install os fuel ins (argument_flag argc))
                items)
              t
              (each_item-Goes "installer" (λ ins. install os fuel ins (argument_flag argc)) items
                t))

    -- The status that instchk ends with is 0, and then no failed check is counted, or it is 1 or
    -- 112.
    pub instchk_main-Checks :
        (items : List InstallItem) (s : Machine W) → Ends Checks (instchk_main os defined items s)
    unfolding instchk_main
    instchk_main-Checks items =
        started-Ends "instchk" _ Checks (λ t. inr (inr refl))
          (λ t.
            Checks-Checks (each_item os defined "instchk" (install_check os) items) (length items) t
              (each_item-Goes "instchk" (install_check os) items t))
