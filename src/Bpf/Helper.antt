-- ===== src/Bpf/Helper.antt =====
-- pkg/bpf/helper.go: the release of the running kernel, and the check that a probe's functions are
-- among the kernel's symbols.
pub mod Symbols
pub mod Release
pub mod Tests
use conntracct.Prelude.{
  ℕ, Bool, true, false, List, [], ◌∷◌, Option, none, some, String, Go, ok, panic, ◌>>=◌, ◌⊎◌, inl,
  inr, if◌then◌else◌, zero, suc, ◌++◌, ◌&&◌, not, leb, ◌==◌,
}
use conntracct.Text.{Text, split}
use conntracct.Kallsyms.{KsymsError, refresh, find}

pub data HelperError : Type 0 where
  ksyms_failed : KsymsError → HelperError
  split_kprobe : Text → HelperError
  sym_not_found : Text → HelperError
  invalid_release : Text → HelperError

abbrev pub is_empty : Text → Bool
is_empty [] = true
is_empty (c ∷ s) = false

abbrev pub slash : ℕ
slash = b'/'

-- The symbol, if there are just two parts.
second_of_two : List Text → Option Text
second_of_two [] = none
second_of_two (a ∷ []) = none
second_of_two (a ∷ b ∷ []) = some b
second_of_two (a ∷ b ∷ c ∷ ps) = none

-- What the loop returns at one probe: `none` goes on.
unfoldable pub check_probe : List Text → Text → Option HelperError
unfolding second_of_two
check_probe ksyms p = elim (second_of_two (split slash p)) [
  | none ↦ some (split_kprobe p)
  | some symbol ↦ elim (find symbol ksyms).1 [
    | some e ↦ some (ksyms_failed e)
    | none ↦ if (find symbol ksyms).0 then none else some (sym_not_found symbol)
  ]
]

unfoldable pub check_probes : List Text → List Text → Option HelperError
check_probes ksyms [] = none
check_probes ksyms (p ∷ ps) = elim (check_probe ksyms p) [
  | some e ↦ some e
  | none ↦ check_probes ksyms ps
]

checked : List Text → List Text × Option KsymsError → List Text × Option HelperError
checked probes (ksyms, some e) = (ksyms, some (ksyms_failed e))
checked probes (ksyms, none) = (ksyms, check_probes ksyms probes)

-- `checkProbeKsyms`, which stores the symbols anew: the arguments are what reading the file gives,
-- the stored symbols, and the probes.
unfoldable pub check_probe_ksyms :
    (String ⊎ Text) → List Text → List Text → Go (List Text × Option HelperError)
unfolding checked
check_probe_ksyms file ksyms probes = refresh file ksyms >>= λ r. ok (checked probes r)

-- `uname.Release[:bytes.IndexByte(uname.Release[:], 0)]`, which panics without a zero byte.
unfoldable pub until_nul : Text → Go Text
until_nul [] = panic
until_nul (c ∷ s) = let rest = until_nul s in if c == 0 then ok [] else (rest >>= λ t. ok (c ∷ t))

abbrev pub is_digit : ℕ → Bool
is_digit c = leb b'0' c && leb c b'9'

-- `\d{1,3}` takes as many digits as it can, here of at most k: a shorter match helps nothing, since
-- what follows in the expression is never a digit. The result is what it takes, and the rest.
unfoldable pub take_digits : ℕ → Text → Text × Text
take_digits zero s = ([], s)
take_digits (suc k) [] = ([], [])
take_digits (suc k) (c ∷ s) =
    let r = take_digits k s in if is_digit c then (c ∷ r.0, r.1) else ([], c ∷ s)

-- A dot and then one to three digits, with the dot.
dotted : Text → Option (Text × Text)
dotted [] = none
dotted (c ∷ s) =
    let r = take_digits 3 s in if c == b'.' && not (is_empty r.0) then some (c ∷ r.0, r.1) else none

-- `.*$` matches a rest without a newline.
one_line : Text → Bool
one_line [] = true
one_line (c ∷ s) = not (c == 10) && one_line s

captured : Text → Text → Option Text
captured v rest = if one_line rest then some v else none

-- The group `(?:\.\d{1,3})?`, and then the end of the expression.
patch : Text → Text → Option Text
patch v rest = elim (dotted rest) [ none ↦ captured v rest | some p ↦ captured (v ++ p.0) p.1 ]

minor : Text → Text → Option Text
minor v rest = elim (dotted rest) [ none ↦ none | some p ↦ patch (v ++ p.0) p.1 ]

-- The first group of the expression, if it matches.
match_release : Text → Option Text
match_release s = let r = take_digits 3 s in if is_empty r.0 then none else minor r.0 r.1

-- `kernelRelease`, on the bytes of `uname`.
unfoldable pub kernel_release : Text → Go (HelperError ⊎ Text)
unfolding match_release minor patch captured one_line dotted
kernel_release uname = until_nul uname >>= λ release. elim (match_release release) [
  | none ↦ ok (inl (invalid_release release))
  | some v ↦ ok (inr v)
]
