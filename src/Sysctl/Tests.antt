-- ===== src/Sysctl/Tests.antt =====
-- A machine with the two conntrack sysctls of the program.
use conntracct.Prelude.{
  ◌≡◌, refl, sym, ap, ◌∙◌, Option, none, some, String, str_eq, str_eq_iff, if◌then◌else◌, All,
}
use conntracct.Sysctl.{SysctlLib, apply, wanted}
use conntracct.Sysctl.Applied.{Behaves, Fresh, IsMap, apply-Holds}

-- The value of every sysctl is known and can be set.
abbrev table : SysctlLib
table = record {
  Machine = String → String;
  get = λ ctl m. some (m ctl);
  set = λ ctl v m. some (λ other. if str_eq other ctl then v else m other);
}

read : String → Option (String → String) → Option String
read ctl none = none
read ctl (some m) = some (m ctl)

table-Behaves : Behaves table
unfolding read
table-Behaves = record {
  reads_back = λ ctl v m n e. ap (read ctl) (sym e) ∙ rw ((str_eq_iff ctl ctl).1 refl);
  keeps_others = λ ctl v other m n e f. ap (read other) (sym e) ∙ rw f;
}

abbrev all_off : String → String
all_off ctl = "0"

wanted-IsMap : IsMap (wanted table)
wanted-IsMap = ((refl, tt), (tt, tt))

apply-Holds_example :
    ((other : String)
      → Fresh other (wanted table)
      → table.get other (apply table (wanted table) all_off).0 ≡ some "0")
    × ((apply table (wanted table) all_off).1 ≡ none
        → All (λ e. table.get e.0 (apply table (wanted table) all_off).0 ≡ some e.1) (wanted table))
    × (All (λ e. table.get e.0 all_off ≡ some e.1) (wanted table)
        → apply table (wanted table) all_off ≡ (all_off, none))
apply-Holds_example = apply-Holds table table-Behaves (wanted table) all_off wanted-IsMap
