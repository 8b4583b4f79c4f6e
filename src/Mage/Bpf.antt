-- ===== src/Mage/Bpf.antt =====
-- magefile-bpf.go: the kernels are fetched and configured at once, and the probe is compiled against
-- each of them if its source is newer than the object.
pub mod Fetching
pub mod Complete
pub mod Sources
mod Tests
pub mod Documented
pub mod Fresh
use conntracct.Prelude.{
  ℕ, zero, suc, Bool, true, false, List, [], ◌∷◌, ◌++◌, map, Option, none, some, String, ◌⊎◌, inl,
  inr,
}
use conntracct.Text.{Text, codes}
use conntracct.Kernel.{
  Kernel, Host, archive_path, directory, curl, unarchive, merged, chosen, ◌then_do◌,
}
use conntracct.Mage.{Tools}

abbrev pub bpf_build_path : Text
bpf_build_path = codes "build/bpf/"

abbrev pub bpf_acct_build_path : Text
bpf_acct_build_path = bpf_build_path ++ codes "acct/"

abbrev pub bpf_acct_probe : Text
bpf_acct_probe = codes "bpf/acct.c"

abbrev include_dir : Text → Text → Text
include_dir dir p = codes "-I" ++ (dir ++ p)

abbrev pub clang_command : Text → Text → List Text
clang_command src dir =
    codes "clang"
    ∷ codes "-D__KERNEL__"
    ∷ codes "-D__BPF_TRACING__"
    ∷ codes "-fno-stack-protector"
    ∷ codes "-Wno-address-of-packed-member"
    ∷ codes "-Wno-gnu-variable-sized-type-not-at-end"
    ∷ codes "-Wno-unused-value"
    ∷ codes "-Wno-pointer-sign"
    ∷ codes "-Wno-compare-distinct-pointer-types"
    ∷ codes "-Wunused"
    ∷ codes "-Wall"
    ∷ codes "-Werror"
    ∷ codes "-O2"
    ∷ codes "-emit-llvm"
    ∷ codes "-ferror-limit=1"
    ∷ codes "-c"
    ∷ src
    ∷ codes "-o"
    ∷ codes "-"
    ∷ map (include_dir dir) (
        codes "/include"
        ∷ codes "/include/uapi"
        ∷ codes "/arch/x86/include"
        ∷ codes "/arch/x86/include/generated"
        ∷ [])

abbrev pub llc_command : Text → List Text
llc_command dst = codes "llc" ∷ codes "-march=bpf" ∷ codes "-filetype=obj" ∷ codes "-o" ∷ dst ∷ []

abbrev pub statik_command : List Text
statik_command =
    codes "statik"
    ∷ codes "-f"
    ∷ codes "-c"
    ∷ []
    ∷ codes "-src"
    ∷ bpf_build_path
    ∷ codes "-dest"
    ∷ codes "pkg/"
    ∷ codes "-p"
    ∷ codes "bpf"
    ∷ []

-- An error that is there already stays: `errgroup` keeps the first.
unfoldable pub first_error : Option String → Option String → Option String
first_error none e = e
first_error (some d) e = some d

module _ (host : Host) where
  open host use {World, join, mkdir_all, run, read_config}

  abbrev pub Action : Type 0
  Action = World → World × Option String

  -- One goroutine of `Kernels`: the calls of `Fetch` and of `Configure(nil)`, which end at an error. A
  -- command and the look at the disk before it are one call.
  unfoldable pub job : Text → Kernel → List Action
  job build_dir k =
      let dir = directory host build_dir k in
      let archive = archive_path host build_dir k in
      let kcfile = join dir (codes ".config") in
      mkdir_all build_dir
      ∷ curl host k.url archive
      ∷ unarchive host archive build_dir dir
      ∷ run (codes "make" ∷ codes "-C" ∷ dir ∷ codes "defconfig" ∷ [])
      ∷ (λ w. merged host kcfile (chosen host none k.params) (read_config kcfile w) w)
      ∷ run (codes "make" ∷ codes "-C" ∷ dir ∷ codes "olddefconfig" ∷ codes "prepare" ∷ [])
      ∷ []

  unfoldable pub in_turn : List Action → Action
  in_turn [] w = (w, none)
  in_turn (a ∷ rest) w = a w then_do in_turn rest

  abbrev pub Jobs : Type 0
  Jobs = List (List Action)

  -- What is left of a goroutine after a call.
  unfoldable pub stepped : List Action → Jobs → World × Option String → Jobs × World × Option String
  stepped rest jobs (w, none) = (rest ∷ jobs, w, none)
  stepped rest jobs (w, some e) = ([] ∷ jobs, w, some e)

  -- The next call of the i-th goroutine, and its error.
  unfoldable pub advance : ℕ → Jobs → World → Jobs × World × Option String
  unfolding stepped
  advance i [] w = ([], w, none)
  advance zero ([] ∷ jobs) w = ([] ∷ jobs, w, none)
  advance zero ((a ∷ rest) ∷ jobs) w = stepped rest jobs (a w)
  advance (suc i) (j ∷ jobs) w = let (js, u, e) = advance i jobs w in (j ∷ js, u, e)

  -- `Wait`: every goroutine is run to its end.
  unfoldable pub finish : Jobs → Option String → Action
  finish [] e w = (w, e)
  finish (j ∷ jobs) e w = let (u, d) = in_turn j w in finish jobs (first_error e d) u

  -- The goroutines in the order of a schedule, and what it leaves of them one after the other.
  unfoldable pub scheduled : List ℕ → Jobs → Option String → Action
  scheduled [] jobs e w = finish jobs e w
  scheduled (i ∷ is) jobs e w =
      let (js, u, d) = advance i jobs w in scheduled is js (first_error e d) u

  -- `Kernels`, for an order of the map of kernels.
  unfoldable pub kernels : Text → List Kernel → List ℕ → Action
  kernels build_dir fetches schedule w = scheduled schedule (map (job build_dir) fetches) none w

-- What the runtime chooses in a run of `Build`: the orders of the two iterations over the map of
-- kernels, and the schedule of the goroutines.
pub record Choice : Type 0 where
  pub order : List Kernel
  pub fetches : List Kernel
  pub schedule : List ℕ

module _ (host : Host) (tools : Tools host) (build_dir : Text) where
  open host use {World, join, mkdir_all, run}
  open tools use {remove_all, newer, start, run_into, wait}

  configs : List Kernel → Action host
  configs [] w = (w, none)
  configs (k ∷ ks) w =
      remove_all (join (directory host build_dir k) (codes ".config")) w then_do configs ks

  -- `Clean`.
  unfoldable pub clean : List Kernel → Action host
  unfolding configs
  clean order w = remove_all bpf_build_path w then_do configs order

  -- `buildProbe`.
  unfoldable pub build_probe : Text → Text → Text → Action host
  build_probe src dst dir w =
      start (llc_command dst) w
      then_do run_into (clang_command src dir)
      then_do wait (llc_command dst)

  abbrev pub object_path : Kernel → Text
  object_path k = join bpf_acct_build_path (k.version ++ codes ".o")

  -- `mg.Deps(Bpf.Kernels)` runs the target once. Its error ends the program, which counts as an error
  -- of the caller here.
  unfoldable pub deps : Choice → Bool → Action host
  deps ch true w = (w, none)
  deps ch false w = kernels host build_dir ch.fetches ch.schedule w

  -- What follows the answer of `target.Path`.
  unfoldable pub unless_fresh :
      Choice → Kernel → (Bool → Action host) → Bool → String ⊎ Bool → Action host
  unless_fresh ch k next done (inl e) w = (w, some e)
  unless_fresh ch k next done (inr false) w = next done w
  unless_fresh ch k next done (inr true) w =
      deps ch done w
      then_do build_probe bpf_acct_probe (object_path k) (directory host build_dir k)
      then_do next true

  -- The loop of `Build`; `done` says that the kernels were fetched.
  unfoldable pub build_all : Choice → List Kernel → Bool → Action host
  build_all ch [] done w = (w, none)
  build_all ch (k ∷ ks) done w =
      unless_fresh ch k (build_all ch ks) done (newer (object_path k) (bpf_acct_probe ∷ []) w) w

  -- `Build`.
  unfoldable pub build : Choice → Action host
  build ch w =
      mkdir_all bpf_acct_build_path w then_do build_all ch ch.order false then_do run statik_command
