-- ===== src/Tests/Accounts.antt =====
-- A Windows system with one file: its owner and its group. The backend's theorems at it.
use coreland_lua_ada_load.Base.{
  ℕ, Bytes, true, false, none, some, [], if◌then◌else◌, ◌==◌, codes, replicate, ◌≡◌, refl, arith,
}
use coreland_lua_ada_load.Install.Os.{okay, fails}
use coreland_lua_ada_load.Install.Machine.{Machine, done, pure, ◌>>=◌}
use coreland_lua_ada_load.Install.Windows.{
  Api, sid, unset, iwin32_gid_current, iwin32_file_set_ownership, iwin32_file_get_ownership,
}
use coreland_lua_ada_load.Install.Windows.Current.{opens, iwin32_gid_current-same}
use coreland_lua_ada_load.Install.Windows.Security.{IsSecurity}
use coreland_lua_ada_load.Install.Windows.Returns.{Returns}
use coreland_lua_ada_load.Install.Windows.Owners.{Read, get_ownership-set}

abbrev Security : Type 0
Security = ℕ × ℕ

abbrev one_file : Api ℕ ℕ Security
one_file = record {
  malloc = λ n w. (true, w);
  lookup_account_name = λ n name w. (some 5, w);
  open_process_token = λ w. (some 1, w);
  token_group_size = λ t w. ((false, 16), w);
  token_group = λ t n w. (some 7, w);
  get_last_error = λ w. 122;
  equal_sid = λ a b. a == b;
  initialize_descriptor = λ w. (some 0, w);
  set_descriptor_owner = λ d s w. (some s, w);
  is_valid_descriptor = λ d w. true;
  set_file_owner = λ f d w. (true, (d, w.1));
  get_file_owner = λ n f w. (some (w.0, 64), w);
  get_file_group = λ n f w. (some (w.1, 64), w);
  descriptor_owner = λ d w. some d;
  descriptor_group = λ d w. some d;
  is_valid_sid = λ s w. true;
  copy_sid = λ n s w. (some s, w);
  sid_to_string = λ s w. (some (codes "S-1-1-0"), w);
  string_to_sid = λ text w. (none, w);
  chmod = λ f mode w. (okay tt, w);
  stat = λ f w. fails 2;
  mkdir = λ dir w. (okay tt, w);
}

abbrev owner_of : Bytes → Security → ℕ
owner_of f w = w.0

abbrev group_of : Bytes → Security → ℕ
group_of f w = w.1

one_file-IsSecurity : IsSecurity one_file owner_of group_of (λ d. d)
one_file-IsSecurity = record {
  malloc-owner = λ n f w. refl;
  malloc-group = λ n f w. refl;
  initialize-owner = λ f w. refl;
  initialize-group = λ f w. refl;
  set_descriptor-owner = λ d s f w. refl;
  set_descriptor-group = λ d s f w. refl;
  set_descriptor-names = λ d d' s w e. ground (arith, e);
  set_file-owner = λ f d w e. refl;
  set_file-group = λ f d w. refl;
  get_owner-owner = λ n f w. refl;
  get_owner-group = λ n f w. refl;
  get_group-group = λ n f w. refl;
  get_owner-reads = λ n k f d s w w' e q. ground (arith, e, q);
  get_group-reads = λ n k f d s w w' e q. ground (arith, e, q);
  copy-same = λ n s c w e. ground (arith, e);
  copy-group = λ n s f w. refl;
}

abbrev windows_start : Machine Security
windows_start = record {
  world = (3, 4);
  errno = 0;
  exec_suffix = replicate 16 0;
  dlib_suffix = [];
  failed = 0;
  info_set = false;
  warn_set = false;
  callback_data = 0;
  log = [];
}

get_ownership-set_example :
    Returns (Read one_file owner_of group_of (λ d. d) one_file-IsSecurity (codes "a") 5 4) (
      (iwin32_file_set_ownership one_file (codes "a") (sid 5) (sid 6) >>= λ set.
      if set
      then iwin32_file_get_ownership one_file (codes "a") unset unset
      else pure (false, (unset, unset)))
        windows_start)
get_ownership-set_example =
    get_ownership-set one_file owner_of group_of (λ d. d) one_file-IsSecurity (codes "a") 5 (sid 6)
      unset unset windows_start

iwin32_gid_current-same_example :
    (w : Security) × (iwin32_gid_current one_file unset windows_start
      ≡ done (opens one_file (some 1), unset) (record windows_start { world = w }))
iwin32_gid_current-same_example = iwin32_gid_current-same one_file unset windows_start
