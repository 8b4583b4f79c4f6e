-- ===== src/Bpf/Loading.antt =====
-- `Select` of pkg/bpf/selector.go and `NewProbe` of pkg/bpf/probe.go: from the running kernel to a
-- loaded program. What the system answers is an argument.
pub mod Outcome
mod Tests
use conntracct.Prelude.{
  ℕ, List, [], ◌∷◌, ◌++◌, Option, none, some, String, Go, ok, ◌>>=◌, ◌⊎◌, inl, inr,
}
use conntracct.Text.{Text, codes, trim_right}
use conntracct.Kernel.{Kernel}
use conntracct.Bpf.Config.{Config, ConfigError, configure_probe}
use conntracct.Bpf.Helper.{HelperError, kernel_release, check_probe_ksyms}
use conntracct.Bpf.Selector.{Semver, find_probe}

pub data SelectError : Type 0 where
  no_files : String → SelectError
  not_a_version : SelectError
  unreadable : Text → String → SelectError

pub data LoadError : Type 0 where
  uname_failed : String → LoadError
  release_failed ksyms_failed : HelperError → LoadError
  selecting : SelectError → LoadError
  load_failed : Text → Text → LoadError
  configuring : ConfigError → LoadError

-- uname, the embedded files, /proc/kallsyms, and gobpf's `Load` and `UpdateElement`.
pub record Answers : Type 0 where
  pub uname : String ⊎ Text
  pub files : String ⊎ (Text → String ⊎ List ℕ)
  pub kallsyms : String ⊎ Text
  pub load : List ℕ → Option Text
  pub update : ℕ → ℕ → Option String

-- What `NewProbe` has made when it succeeds: its probe is a new one with the kernel's kprobes.
pub record Loaded : Type 0 where
  pub kernel : Kernel
  pub program : List ℕ
  pub writes : List (ℕ × ℕ)

abbrev pub bpf_file : Kernel → Text
bpf_file k = codes "/acct/" ++ (k.version ++ codes ".o")

pub opened : Kernel → String ⊎ List ℕ → SelectError ⊎ (List ℕ × Kernel)
opened k (inl e) = inl (unreadable (bpf_file k) e)
opened k (inr b) = inr (b, k)

pub found : (Text → String ⊎ List ℕ) → (Unit {0}) ⊎ Kernel → SelectError ⊎ (List ℕ × Kernel)
unfolding opened
found read (inl e) = inl not_a_version
found read (inr k) = opened k (read (bpf_file k))

-- `Select`.
pub select :
    (lib : Semver)
    → String ⊎ (Text → String ⊎ List ℕ)
    → Text
    → List (Text × Kernel)
    → Go (SelectError ⊎ (List ℕ × Kernel))
unfolding found
select lib (inl e) kr kernels = ok (inl (no_files e))
select lib (inr read) kr kernels = find_probe lib kr kernels >>= λ r. ok (found read r)

configured : Kernel → List ℕ → List (ℕ × ℕ) × Option ConfigError → LoadError ⊎ Loaded
configured k b (writes, none) = inr (record { kernel = k; program = b; writes = writes })
configured k b (writes, some e) = inl (configuring e)

loaded : Answers → Config → List ℕ → Kernel → Option Text → LoadError ⊎ Loaded
unfolding configured
loaded sys cfg b k none = configured k b (configure_probe sys.update cfg)
loaded sys cfg b k (some e) = inl (load_failed k.version (trim_right 0 e))

checked :
    Answers
    → Config
    → List ℕ
    → Kernel
    → List Text × Option HelperError
    → List Text × (LoadError ⊎ Loaded)
unfolding loaded
checked sys cfg b k (ksyms, none) = (ksyms, loaded sys cfg b k (sys.load b))
checked sys cfg b k (ksyms, some e) = (ksyms, inl (ksyms_failed e))

selected :
    Answers
    → Config
    → List Text
    → SelectError ⊎ (List ℕ × Kernel)
    → Go (List Text × (LoadError ⊎ Loaded))
unfolding checked
selected sys cfg ksyms (inl e) = ok (ksyms, inl (selecting e))
selected sys cfg ksyms (inr (b, k)) =
    check_probe_ksyms sys.kallsyms ksyms k.probes >>= λ r. ok (checked sys cfg b k r)

released :
    (lib : Semver)
    → Answers
    → Config
    → List (Text × Kernel)
    → List Text
    → HelperError ⊎ Text
    → Go (List Text × (LoadError ⊎ Loaded))
unfolding selected
released lib sys cfg kernels ksyms (inl e) = ok (ksyms, inl (release_failed e))
released lib sys cfg kernels ksyms (inr kr) =
    select lib sys.files kr kernels >>= λ r. selected sys cfg ksyms r

named :
    (lib : Semver)
    → Answers
    → Config
    → List (Text × Kernel)
    → List Text
    → String ⊎ Text
    → Go (List Text × (LoadError ⊎ Loaded))
unfolding released
named lib sys cfg kernels ksyms (inl e) = ok (ksyms, inl (uname_failed e))
named lib sys cfg kernels ksyms (inr uname) =
    kernel_release uname >>= λ r. released lib sys cfg kernels ksyms r

-- `NewProbe`, with the stored symbols, which the check replaces.
pub new_probe :
    (lib : Semver)
    → Answers
    → Config
    → List (Text × Kernel)
    → List Text
    → Go (List Text × (LoadError ⊎ Loaded))
unfolding named
new_probe lib sys cfg kernels ksyms = named lib sys cfg kernels ksyms sys.uname
