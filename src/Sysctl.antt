-- ===== src/Sysctl.antt =====
-- internal/sysctl, pkg/bpf/sysctl.go and internal/config: the sysctls that the program sets. The
-- package go-sysctl is not part of the repository: it is an argument.
pub mod Applied
mod Tests
use conntracct.Prelude.{
  Bool, true, false, List, [], ◌∷◌, Option, none, some, String, str_eq, if◌then◌else◌,
}

pub data SysctlError : Type 0 where
  get_failed set_failed : String → SysctlError

-- Reading and setting a sysctl of a machine; `none` is an error.
pub record SysctlLib : Type 1 where
  pub Machine : Type 0
  pub get : String → Machine → Option String
  pub set : String → String → Machine → Option Machine

module _ (lib : SysctlLib) where
  open lib use {Machine, get, set}

  -- `Apply`, over the entries of the map in the order of the iteration. What it logs is left out.
  unfoldable pub apply : List (String × String) → Machine → Machine × Option SysctlError
  apply [] m = (m, none)
  apply ((ctl, v) ∷ rest) m = elim (get ctl m) [
    | none ↦ (m, some (get_failed ctl))
    | some cur ↦
        if str_eq cur v
        then apply rest m
        else elim (set ctl v m) [ none ↦ (m, some (set_failed ctl)) | some n ↦ apply rest n ]
  ]

  -- `bpf.Sysctls`, which is all that `config.Init` calls.
  abbrev pub wanted : List (String × String)
  wanted =
      ("net.netfilter.nf_conntrack_acct", "1") ∷ ("net.netfilter.nf_conntrack_timestamp", "1") ∷ []

  unfoldable pub sysctls : Machine → Machine × Option SysctlError
  sysctls m = apply wanted m
