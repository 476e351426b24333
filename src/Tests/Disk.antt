-- ===== src/Tests/Disk.antt =====
-- A small system for the tests: one file to read, one temporary and one destination file, and
-- the directories that were made. Only the path of the source opens, and no user has a name.
use coreland_lua_ada_load.Base.{
  ℕ, suc, ◌/◌, ◌<◌, Bytes, Bool, true, false, List, [], ◌∷◌, ◌++◌, ◌==◌, ◌≡◌, refl, sym, ap, arith,
  inl, codes, length, take, drop, take_of_length_le, take-append-drop,
}
use coreland_lua_ada_load.Install.Os.{Os, Reply, okay, fails}
use coreland_lua_ada_load.Install.Machine.{Machine}
use coreland_lua_ada_load.Install.Views.{IsFileView}
use coreland_lua_ada_load.Install.Copy.Streams.{AreStreams}
use coreland_lua_ada_load.Install.Copy.Atomic.{IsApart}
use coreland_lua_ada_load.Install.Copy.Success.{Works}

pub record DiskState : Type 0 where
  pub source : Bytes
  pub unread : Bytes
  pub temporary : Bytes
  pub target : Bytes
  pub made : List Bytes

abbrev pub nothing_found : Reply ℕ
nothing_found = fails 2

abbrev pub done_on : DiskState → Reply (Unit {0}) × DiskState
done_on d = (okay tt, d)

abbrev pub empty : Bytes → Bool
empty [] = true
empty (c ∷ cs) = false

abbrev pub disk_os : Os DiskState
disk_os = record {
  getpwnam = λ name d. nothing_found;
  getgrnam = λ name d. nothing_found;
  getuid = λ d. 1000;
  getgid = λ d. 100;
  stat = λ p d.
      okay (record { st_mode = 0o100644; st_uid = 1000; st_gid = 100; st_size = length d.target });
  lstat = λ p d.
      okay (record { st_mode = 0o100644; st_uid = 1000; st_gid = 100; st_size = length d.target });
  getcwd = λ n d. okay (codes "/tmp");
  chdir = λ p d. done_on d;
  chown = λ p u g d. done_on d;
  chmod = λ p m d. done_on d;
  symlink = λ a b d. done_on d;
  mkdir = λ p m d. (fails 17, record d { made = d.made ++ (p ∷ []) });
  rmdir = λ p d. done_on d;
  unlink = λ p d. done_on d;
  rename = λ a b d. done_on (record d { target = d.temporary });
  umask = λ m d. (18, d);
  fopen_rb = λ p d. (okay 3, record d { unread = d.source });
  fread = λ h n d. (take n d.unread, record d { unread = drop n d.unread });
  feof_rb = λ h d. empty d.unread;
  ferror_rb = λ h d. false;
  fclose_rb = λ h d. done_on d;
  fopen_wb = λ p d. (okay 4, record d { temporary = [] });
  fwrite = λ h b d. (length b, record d { temporary = d.temporary ++ b });
  feof_wb = λ h d. false;
  ferror_wb = λ h d. false;
  fflush = λ h d. done_on d;
  fclose_wb = λ h d. done_on d;
  fflush_all = λ d. d;
  s_isreg = λ m. m / 0o10000 == 8;
  s_ischr = λ m. m / 0o10000 == 2;
  s_isdir = λ m. m / 0o10000 == 4;
  s_islnk = λ m. m / 0o10000 == 10;
  s_issock = λ m. m / 0o10000 == 12;
  s_isfifo = λ m. m / 0o10000 == 1;
  eexist = 17;
  eisdir = 21;
  enametoolong = 36;
}

abbrev pub files : DiskState → List Bytes
files d = d.target ∷ d.made

pub files-IsFileView : IsFileView disk_os files
files-IsFileView = record {
  view-chdir = λ d w. refl;
  view-fopen_rb = λ p w. refl;
  view-fread = λ h n w. refl;
  view-fclose_rb = λ h w. refl;
  view-fflush_all = λ w. refl;
}

pub target-IsApart : (tmp : Bytes) → IsApart disk_os (λ d. d.target) tmp
target-IsApart tmp = record {
  view-fopen_rb = λ p w. refl;
  view-fread = λ h n w. refl;
  view-fclose_rb = λ h w. refl;
  view-fopen_wb = λ w. refl;
  view-fwrite = λ h b w. refl;
  view-fflush = λ h w. refl;
  view-fclose_wb = λ h w. refl;
  view-chmod = λ m w. refl;
  view-chown = λ u g w. refl;
  view-unlink = λ w. refl;
}

empty-eq : (b : Bytes) → empty b ≡ true → b ≡ []
empty-eq [] e = refl
empty-eq (c ∷ cs) e = absurd (ground arith)

-- A positive number of bytes is taken from what is left, until nothing is.
taken_none : (n : ℕ) (b : Bytes) → 0 < n → take n b ≡ [] → empty (drop n b) ≡ true
taken_none (suc n) [] h e = refl
taken_none (suc n) (c ∷ cs) h e = absurd (ground arith)
taken_none ℕ.zero b h e = absurd (omega arith)

pub streams-AreStreams : AreStreams disk_os 3 4 (λ d. d.unread) (λ d. d.temporary)
streams-AreStreams = record {
  fread-unread = λ n w. take-append-drop n w.unread;
  fread-written = λ n w. refl;
  feof_rb-unread = λ n w e f. empty-eq _ f;
  fread_stops = λ n w h e. inl (taken_none n w.unread h e);
  fwrite-written = λ b w. ap (◌++◌ w.temporary) (whole b);
  fwrite-unread = λ b w. refl;
  fwrite_stops = λ b w h e. absurd (omega arith);
  feof_wb_false = λ w. refl;
}
  where
    whole : (b : Bytes) → b ≡ take (length b) b
    whole b = sym (take_of_length_le (length b) b (omega arith))

pub streams-Works : (tmp dst : Bytes) → Works disk_os 3 4 tmp dst (λ d. d.temporary) (λ d. d.target)
streams-Works tmp dst = record {
  ferror_rb_false = λ w. refl;
  ferror_wb_false = λ w. refl;
  fflush-okay = λ w. refl;
  fflush-written = λ w. refl;
  chmod-okay = λ m w. refl;
  chmod-written = λ m w. refl;
  chown-okay = λ u g w. refl;
  chown-written = λ u g w. refl;
  fclose_wb-okay = λ w. refl;
  fclose_wb-written = λ w. refl;
  fclose_rb-okay = λ w. refl;
  fclose_rb-written = λ w. refl;
  rename-okay = λ w. refl;
  rename-contents = λ w. refl;
}

abbrev pub start : Machine DiskState
start = record {
  world = record {
    source = codes "so\n";
    unread = [];
    temporary = [];
    target = codes "old";
    made = [];
  };
  errno = 0;
  exec_suffix = [];
  dlib_suffix = [];
  failed = 0;
  info_set = true;
  warn_set = false;
  callback_data = 0;
  log = [];
}
