-- ===== src/Install/Windows.antt =====
-- install-win32.c: the backend for Windows. A user's or group's id is a pointer to a security
-- identifier. The API is a parameter, with its types of identifiers and of security descriptors.
pub mod Current
pub mod Security
pub mod Returns
pub mod Owners
use coreland_lua_ada_load.Base.{
  ℕ, Bytes, Bool, true, false, Option, none, some, List, [], ◌∷◌, ◌++◌, ◌==◌, if◌then◌else◌, codes,
  length, drop, bit_and, ℤ, pos, negsuc,
}
use coreland_lua_ada_load.Install.Types.{Status, success, is_ok, StatBuf}
use coreland_lua_ada_load.Install.Os.{Reply}
use coreland_lua_ada_load.Install.Machine.{
  M, done, pure, ◌>>=◌, ◌>>◌, crash, null_pointer, query, call, ask, act, succeeded, warn, logged,
}

-- The calls of the API: none or false where a call fails.
pub record Api (S D W : Type 0) : Type 0 where
  pub malloc : ℕ → W → Bool × W
  -- LookupAccountName into a buffer of the size
  pub lookup_account_name : ℕ → Bytes → W → Option S × W
  pub open_process_token : W → Option ℕ × W
  -- GetTokenInformation (TokenPrimaryGroup): with no buffer its result and the size, and the group
  pub token_group_size : ℕ → W → (Bool × ℕ) × W
  pub token_group : ℕ → ℕ → W → Option S × W
  pub get_last_error : W → ℕ
  pub equal_sid : S → S → Bool
  pub initialize_descriptor : W → Option D × W
  pub set_descriptor_owner : D → S → W → Option D × W
  pub is_valid_descriptor : D → W → Bool
  -- SetFileSecurity and GetFileSecurity; the latter also gives the size of the descriptor.
  pub set_file_owner : Bytes → D → W → Bool × W
  pub get_file_owner : ℕ → Bytes → W → Option (D × ℕ) × W
  pub get_file_group : ℕ → Bytes → W → Option (D × ℕ) × W
  pub descriptor_owner : D → W → Option S
  pub descriptor_group : D → W → Option S
  pub is_valid_sid : S → W → Bool
  pub copy_sid : ℕ → S → W → Option S × W
  pub sid_to_string : S → W → Option Bytes × W
  pub string_to_sid : Bytes → W → Option S × W
  pub chmod : Bytes → ℕ → W → Reply (Unit {0}) × W
  pub stat : Bytes → W → Reply StatBuf
  pub mkdir : Bytes → W → Reply (Unit {0}) × W

-- A pointer to an identifier; one that is NULL or was never set; one to storage without one.
pub data SidPointer (S : Type 0) : Type 0 where
  sid : S → SidPointer S
  unset no_sid : SidPointer S

abbrev pub buffer_size : ℕ
buffer_size = 256

-- ERROR_INSUFFICIENT_BUFFER
abbrev pub insufficient_buffer : ℕ
insufficient_buffer = 122

-- `!n` of C
abbrev pub not_int : ℕ → ℕ
not_int n = if n == 0 then 1 else 0

-- The identifier is read.
abbrev pub at_sid : {S W : Type 0} → SidPointer S → M W S
at_sid (sid s) = pure s
at_sid unset = crash null_pointer
at_sid no_sid = crash null_pointer

-- `if (!call) return b;`
abbrev pub or_return : {W A B : Type 0} → B → Option A → (A → M W B) → M W B
or_return b none k = pure b
or_return b (some a) k = k a

abbrev pub or_return_if : {W B : Type 0} → B → Bool → M W B → M W B
or_return_if b false k = pure b
or_return_if b true k = k

module _ {S D W : Type 0} (api : Api S D W) where
  -- A result 0 or 1, and the id behind the call.
  abbrev pub Looked : Type 0
  Looked = Bool × SidPointer S

  unfoldable pub iwin32_get_sid : Bytes → SidPointer S → M W Looked
  iwin32_get_sid name ext_sid = do
    stored ← act (api.malloc buffer_size)
    or_return_if (false, ext_sid) stored
        (do
          found ← act (api.lookup_account_name buffer_size name)
          or_return (false, ext_sid) found (λ s. pure (true, sid s)))

  -- The group lies in storage that is freed at the end.
  unfoldable pub iwin32_user_primary_group : SidPointer S → M W Looked
  iwin32_user_primary_group gid = do
    token ← act api.open_process_token
    or_return (false, gid) token
        λ thread_tok. do
          (got, needed) ← act (api.token_group_size thread_tok)
          e ← ask api.get_last_error
          if got
              then pure (true, gid)
              else if not_int e == insufficient_buffer
              then (do
                stored ← act (api.malloc needed)
                or_return_if (false, gid) stored
                    (do
                      group ← act (api.token_group thread_tok needed)
                      pure (true, elim group [ none ↦ gid | some g ↦ no_sid ])))
              else pure (true, gid)

  unfoldable pub iwin32_compare_gid : SidPointer S → SidPointer S → M W Bool
  iwin32_compare_gid a b = do x ← at_sid a; y ← at_sid b; pure (api.equal_sid x y)

  unfoldable pub iwin32_compare_uid : SidPointer S → SidPointer S → M W Bool
  iwin32_compare_uid a b = do x ← at_sid a; y ← at_sid b; pure (api.equal_sid x y)

  unfoldable pub iwin32_gid_current : SidPointer S → M W Looked
  unfolding iwin32_user_primary_group
  iwin32_gid_current gid = iwin32_user_primary_group gid

  unfoldable pub iwin32_gid_lookup : Option Bytes → SidPointer S → M W Looked
  unfolding iwin32_get_sid
  iwin32_gid_lookup none gid = iwin32_get_sid (codes "None") gid
  iwin32_gid_lookup (some name) gid = iwin32_get_sid name gid

  unfoldable pub iwin32_uid_current : SidPointer S → M W Looked
  unfolding iwin32_get_sid
  iwin32_uid_current uid = iwin32_get_sid (codes "Administrator") uid

  unfoldable pub iwin32_uid_lookup : Option Bytes → SidPointer S → M W Looked
  unfolding iwin32_get_sid
  iwin32_uid_lookup none uid = iwin32_get_sid (codes "Administrator") uid
  iwin32_uid_lookup (some name) uid = iwin32_get_sid name uid

  unfoldable pub iwin32_file_set_sid : Bytes → SidPointer S → M W Bool
  iwin32_file_set_sid file pointer = do
    file_sd ← act api.initialize_descriptor
    or_return false file_sd λ d. do
      owner ← at_sid pointer
      owned ← act (api.set_descriptor_owner d owner)
      or_return false owned λ d'. do
        valid ← ask (api.is_valid_descriptor d')
        or_return_if false valid (act (api.set_file_owner file d'))

  unfoldable pub iwin32_file_set_ownership : Bytes → SidPointer S → SidPointer S → M W Bool
  unfolding iwin32_file_set_sid
  iwin32_file_set_ownership file uid gid = iwin32_file_set_sid file uid

  -- The identifier is copied into storage of the descriptor's size.
  abbrev pub copied : SidPointer S → ℕ → Option S → M W Looked
  copied old sd_size read =
      or_return (false, old) read
        λ s. do
          valid ← ask (api.is_valid_sid s)
          or_return_if (false, old) valid
              (do
                stored ← act (api.malloc sd_size)
                or_return_if (false, unset) stored
                    (do
                      copy ← act (api.copy_sid sd_size s)
                      or_return (false, no_sid) copy (λ c. pure (true, sid c))))

  unfoldable pub iwin32_file_get_owner : Bytes → SidPointer S → M W Looked
  iwin32_file_get_owner file uid = do
    file_sd ← act api.initialize_descriptor
    or_return (false, uid) file_sd
        λ d. do
          security ← act (api.get_file_owner buffer_size file)
          or_return (false, uid) security
              λ (d', sd_size). do read ← ask (api.descriptor_owner d'); copied uid sd_size read

  unfoldable pub iwin32_file_get_group : Bytes → SidPointer S → M W Looked
  iwin32_file_get_group file gid = do
    file_sd ← act api.initialize_descriptor
    or_return (false, gid) file_sd
        λ d. do
          security ← act (api.get_file_group buffer_size file)
          or_return (false, gid) security
              λ (d', sd_size). do read ← ask (api.descriptor_group d'); copied gid sd_size read

  unfoldable pub iwin32_file_get_ownership :
      Bytes → SidPointer S → SidPointer S → M W (Bool × (SidPointer S × SidPointer S))
  unfolding iwin32_file_get_owner iwin32_file_get_group
  iwin32_file_get_ownership file uid gid = do
    (owned, uid') ← iwin32_file_get_owner file uid
    or_return_if (false, (uid', gid)) owned
        (do (grouped, gid') ← iwin32_file_get_group file gid; pure (grouped, (uid', gid')))

  unfoldable pub iwin32_file_set_mode : Bytes → ℕ → M W Bool
  iwin32_file_set_mode file mode = call (api.chmod file mode) >>= succeeded

  -- `sb.st_mode & 0755`
  unfoldable pub iwin32_file_get_mode : Bytes → M W (Option ℕ)
  iwin32_file_get_mode file =
      query (api.stat file)
      >>= elim [ none ↦ pure none | some sb ↦ pure (some (bit_and sb.st_mode 0o755)) ]

  abbrev pub warn_copying : M W (Unit {0})
  warn_copying s =
      let tell =
        logged (warn (codes "filesystem does not support symlinks - copying") s.callback_data) in
      (if s.warn_set then tell else pure tt) s

  -- `copy` is install_file_copy over this backend.
  unfoldable pub iwin32_file_link :
      (Bytes → Bytes → SidPointer S → SidPointer S → ℕ → M W Status) → Bytes → Bytes → M W Bool
  unfolding iwin32_file_get_ownership iwin32_file_get_mode
  iwin32_file_link copy src dst = do
    warn_copying
    (owned, (uid, gid)) ← iwin32_file_get_ownership src unset unset
    or_return_if false owned (do
      got ← iwin32_file_get_mode src
      or_return false got λ mode. do status ← copy src dst uid gid mode; pure (is_ok status))

  -- memcpy (inst_exec_suffix, ".exe", 4)
  unfoldable pub iwin32_install_init : M W Status
  iwin32_install_init s =
      done success (record s { exec_suffix = codes ".exe" ++ drop 4 s.exec_suffix })

  -- The length, and the text that is written.
  unfoldable pub iwin32_fmt_gid : SidPointer S → M W (ℕ × Bytes)
  iwin32_fmt_gid gid = do
    s ← at_sid gid
    sid_str ← act (api.sid_to_string s)
    or_return (0, []) sid_str (λ text. pure (length text, text))

  unfoldable pub iwin32_fmt_uid : SidPointer S → M W (ℕ × Bytes)
  iwin32_fmt_uid uid = do
    s ← at_sid uid
    sid_str ← act (api.sid_to_string s)
    or_return (0, []) sid_str (λ text. pure (length text, text))

  unfoldable pub iwin32_scan_gid : Bytes → SidPointer S → M W (ℕ × SidPointer S)
  iwin32_scan_gid buffer gid = do
    read ← act (api.string_to_sid buffer)
    or_return (0, gid) read (λ s. pure (length buffer, sid s))

  unfoldable pub iwin32_scan_uid : Bytes → SidPointer S → M W (ℕ × SidPointer S)
  iwin32_scan_uid buffer uid = do
    read ← act (api.string_to_sid buffer)
    or_return (0, uid) read (λ s. pure (length buffer, sid s))

  unfoldable pub iwin32_umask : ℕ → M W ℕ
  iwin32_umask m = pure m

  -- The result of mkdir: 0, or -1 where it fails.
  unfoldable pub iwin32_mkdir : Bytes → ℕ → M W ℤ
  iwin32_mkdir dir mode =
      call (api.mkdir dir) >>= elim [ none ↦ pure (negsuc 0) | some u ↦ pure (pos 0) ]

-- free (id->value)
unfoldable pub iwin32_uid_free : {S : Type 0} → SidPointer S → SidPointer S
iwin32_uid_free uid = no_sid

unfoldable pub iwin32_gid_free : {S : Type 0} → SidPointer S → SidPointer S
iwin32_gid_free gid = no_sid
