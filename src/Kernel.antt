-- ===== src/Kernel.antt =====
-- pkg/kernel: the kernels that BPF programs are built against, and how their sources come to the
-- disk. The disk, the external commands, the joining of paths and the package kconfig are
-- arguments. What the verbose mode prints is left out.
pub mod Table
pub mod Fetched
pub mod Disk
mod Tests
use conntracct.Prelude.{
  ℕ, Bool, true, false, List, [], ◌∷◌, ◌++◌, Option, none, some, String, ◌==◌, ◌⊎◌, inl, inr,
  if◌then◌else◌, length, ◌-◌, take, drop, leb, ◌&&◌, ◌<◌,
}
use conntracct.Text.{Text, codes, text_eq, split, trim_right}

abbrev pub Params : Type 0
Params = List (Text × Text)

pub record Kernel : Type 0 where
  pub version : Text
  pub url : Text
  pub params : Params
  pub probes : List Text

-- `strings.TrimSuffix(s, suffix)`.
unfoldable pub trim_end : Text → Text → Text
trim_end suffix s =
    let n = length s - length suffix in
    if leb (length suffix) (length s) && text_eq (drop n s) suffix then take n s else s

-- `trimExt`.
unfoldable pub trim_ext : Text → Text
trim_ext name = trim_end (codes ".tar.xz") (trim_end (codes ".tar.gz") name)

abbrev pub slash : ℕ
slash = b'/'

last_part : Text → List Text → Text
last_part p [] = p
last_part p (q ∷ ps) = last_part q ps

-- `path.Base`.
base_of : Text → Text → Text
unfolding last_part
base_of [] [] = codes "."
base_of (c ∷ s) [] = codes "/"
base_of path (c ∷ s) = last_part [] (split slash (c ∷ s))

unfoldable pub base : Text → Text
unfolding base_of
base path = base_of path (trim_right slash path)

unfoldable pub archive_name : Kernel → Text
archive_name k = base k.url

-- The name without the extension of the archive.
unfoldable pub name : Kernel → Text
name k = trim_ext (archive_name k)

-- What `os.Stat` answers.
pub data Stat : Type 0 where
  exists missing failed : Stat

-- The disk and the commands: `os.Stat`, `os.MkdirAll`, `sh.Run` and the reading, merging and
-- writing of a kernel configuration. `none` is a nil error.
pub record Host : Type 1 where
  pub World : Type 0
  pub KConfig : Type 0
  pub join : Text → Text → Text
  pub stat : Text → World → Stat
  pub mkdir_all : Text → World → World × Option String
  pub run : List Text → World → World × Option String
  pub read_config : Text → World → String ⊎ KConfig
  pub merge : Params → KConfig → KConfig
  pub write_config : Text → KConfig → World → World × Option String

abbrev pub curl_command : Text → Text → List Text
curl_command url path = codes "curl" ∷ codes "-L" ∷ url ∷ codes "-o" ∷ path ∷ []

abbrev pub tar_command : Text → Text → List Text
tar_command archive dest = codes "tar" ∷ codes "xf" ∷ archive ∷ codes "-C" ∷ dest ∷ []

-- The next step of a chain, unless there was an error.
infixl 5 ◌then_do◌
abbrev pub ◌then_do◌ :
    {World : Type 0}
    → World × Option String
    → (World → World × Option String)
    → World × Option String
(w, some e) then_do next = (w, some e)
(w, none) then_do next = next w

module _ (host : Host) where
  open host use {World, join, stat, mkdir_all, run, read_config, merge, write_config}

  abbrev pub archive_path : Text → Kernel → Text
  archive_path build_dir k = join build_dir (archive_name k)

  abbrev pub directory : Text → Kernel → Text
  directory build_dir k = join build_dir (name k)

  -- An answer of `os.Stat` other than that the path is missing counts as existing.
  unfoldable pub unless_there : Stat → List Text → World → World × Option String
  unless_there missing command w = run command w
  unless_there exists command w = (w, none)
  unless_there failed command w = (w, none)

  unfoldable pub curl : Text → Text → World → World × Option String
  unfolding unless_there
  curl url path w = unless_there (stat path w) (curl_command url path) w

  unfoldable pub unarchive : Text → Text → Text → World → World × Option String
  unfolding unless_there
  unarchive archive dest check w = unless_there (stat check w) (tar_command archive dest) w

  unfoldable pub fetch : Text → Kernel → World → World × Option String
  fetch build_dir k w =
      mkdir_all build_dir w
      then_do curl k.url (archive_path build_dir k)
      then_do unarchive (archive_path build_dir k) build_dir (directory build_dir k)

  unfoldable pub merged : Text → Params → String ⊎ host.KConfig → World → World × Option String
  merged kcfile params (inl e) w = (w, some e)
  merged kcfile params (inr kc) w = write_config kcfile (merge params kc) w

  unfoldable pub chosen : Option Params → Params → Params
  chosen none own = own
  chosen (some ps) own = ps

  -- `Configure`; without parameters it takes those of the kernel.
  unfoldable pub configure : Text → Kernel → Option Params → World → World × Option String
  unfolding merged chosen
  configure build_dir k given w =
      let dir = directory build_dir k in
      let kcfile = join dir (codes ".config") in
      run (codes "make" ∷ codes "-C" ∷ dir ∷ codes "defconfig" ∷ []) w
      then_do (λ u. merged kcfile (chosen given k.params) (read_config kcfile u) u)
      then_do run (codes "make" ∷ codes "-C" ∷ dir ∷ codes "olddefconfig" ∷ codes "prepare" ∷ [])
