-- ===== src/Mage/App.antt =====
-- magefile.go: the application is built if a file of its directories is newer.
use mathlib.Core.Path.{subst}
use conntracct.Prelude.{
  ◌≡◌, refl, sym, ap, Bool, true, false, List, [], ◌∷◌, Option, none, some, String, ◌⊎◌, inl, inr,
}
use conntracct.Text.{Text, codes}
use conntracct.Kernel.{Host, ◌then_do◌}
use conntracct.Kernel.Fetched.{then_do-none}
use conntracct.Mage.{Tools, Link, absent, symlink, other}

abbrev pub app : Text
app = codes "conntracct"

abbrev pub build_path : Text
build_path = codes "build/conntracct"

abbrev pub go_build : List Text
go_build = codes "go" ∷ codes "build" ∷ codes "-o" ∷ build_path ∷ []

abbrev pub setcap : Text → List Text
setcap path =
    codes "sudo"
    ∷ codes "setcap"
    ∷ codes "cap_sys_admin,cap_ipc_lock,cap_net_admin,cap_dac_override,cap_sys_resource+eip"
    ∷ path
    ∷ []

abbrev pub watched : List Text
watched = codes "bpf" ∷ codes "pkg" ∷ codes "cmd" ∷ codes "internal" ∷ []

module _ (host : Host) (tools : Tools host) where
  open host use {World, run}
  open tools use {rm, newer_in, lstat, eval_symlinks, read_link}

  abbrev resolved : Text → World → Link → Option Text → Text
  resolved path w absent target = path
  resolved path w other target = path
  resolved path w symlink none = read_link path w
  resolved path w symlink (some p) = p

  -- `realPath`.
  abbrev pub real_path : Text → World → Text
  real_path path w = resolved path w (lstat path w) (eval_symlinks path w)

  -- What follows the answer of `target.Dir`. The path is resolved before the old binary is removed.
  unfoldable pub replaced : String ⊎ Bool → World → World × Option String
  replaced (inl e) w = (w, some e)
  replaced (inr false) w = (w, none)
  replaced (inr true) w =
      let path = real_path build_path w in rm path w then_do run go_build then_do run (setcap path)

  -- `Build`.
  unfoldable pub build : World → World × Option String
  build w = replaced (newer_in build_path watched w) w

  -- `Dev`.
  abbrev pub dev : World → World × Option String
  dev w =
      run
        (codes "docker-compose"
          ∷ codes "-f"
          ∷ codes "test/docker-compose.yml"
          ∷ codes "-p"
          ∷ app
          ∷ codes "up"
          ∷ codes "-d"
          ∷ [])
        w
      then_do run (codes "modd" ∷ [])

  -- `Generate`.
  abbrev pub generate : World → World × Option String
  generate w = run (codes "go" ∷ codes "generate" ∷ codes "-x" ∷ codes "./..." ∷ []) w

  -- `Lint`.
  abbrev pub lint : World → World × Option String
  lint w = run (codes "golangci-lint" ∷ codes "run" ∷ []) w

  abbrev pub IsUpToDate : World → Type 0
  IsUpToDate w = newer_in build_path watched w ≡ inr false

  -- What is documented: the binary that `go build -o` writes is newer than its sources, and setcap
  -- changes no time of modification.
  pub record Behaves : Type 0 where
    pub go_builds : (w : World) → (run go_build w).1 ≡ none → IsUpToDate (run go_build w).0
    pub setcap_keeps : (path : Text) (w : World) → IsUpToDate w → IsUpToDate (run (setcap path) w).0

  replaced-IsUpToDate :
      Behaves
      → (w : World) (a : String ⊎ Bool) → newer_in build_path watched w ≡ a
      → (replaced a w).1 ≡ none
      → IsUpToDate (replaced a w).0
  unfolding replaced
  replaced-IsUpToDate laws w (inl e) h ok = cc
  replaced-IsUpToDate laws w (inr false) h ok = h
  replaced-IsUpToDate laws w (inr true) h ok =
      let path = real_path build_path w in
      let (built, capable, last) =
        then_do-none (rm path w then_do run go_build) (run (setcap path)) ok in
      let (removed, made, first) = then_do-none (rm path w) (run go_build) built in
      subst (λ x. IsUpToDate x.0) (sym last)
        (laws.setcap_keeps path _
          (subst (λ x. IsUpToDate x.0) (sym first) (laws.go_builds (rm path w).0 made)))

  -- If the tools behave as documented, then after a `Build` that reports no error another one runs no
  -- command, leaves the disk as it is and reports no error.
  pub build_again :
      Behaves → (w : World) → (build w).1 ≡ none → build (build w).0 ≡ ((build w).0, none)
  unfolding build replaced
  build_again laws w ok =
      ap (λ a. replaced a (build w).0)
        (replaced-IsUpToDate laws w (newer_in build_path watched w) refl ok)
