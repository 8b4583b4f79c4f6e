-- ===== src/Kallsyms.antt =====
-- pkg/kallsyms: the kernel's symbols, parsed from /proc/kallsyms and searched. The package variable
-- is an argument, and a call that changes it returns it.
pub mod Parse
mod Tests
use conntracct.Prelude.{
  ℕ, ◌≡◌, refl, Bool, true, false, List, [], ◌∷◌, Option, none, some, String, Go, ok, panic, ◌>>=◌,
  ◌⊎◌, inl, inr, get_elem?, if◌then◌else◌,
}
use conntracct.Text.{Text, text_eq, split, trim_suffix, replace_all}

pub data KsymsError : Type 0 where
  no_ksyms : KsymsError
  read_failed : String → KsymsError

abbrev newline : ℕ
newline = 10

abbrev tab : ℕ
tab = 9

abbrev space : ℕ
space = b' '

-- The loop over the lines; a line with less than three columns panics.
third_columns : List Text → Go (List Text)
third_columns [] = ok []
third_columns (l ∷ ls) = elim (get_elem? (split space (replace_all tab space l)) 2) [
  | none ↦ panic
  | some sym ↦ third_columns ls >>= λ syms. ok (sym ∷ syms)
]

-- `Refresh`, where reading the file gives its bytes or fails.
unfoldable pub refresh : (String ⊎ Text) → List Text → Go (List Text × Option KsymsError)
unfolding third_columns
refresh (inl e) ksyms = ok (ksyms, some (read_failed e))
refresh (inr f) ksyms =
    third_columns (split newline (trim_suffix newline f)) >>= λ out. ok (out, none)

-- `Get`.
unfoldable pub get : List Text → List Text × Option KsymsError
get [] = ([], some no_ksyms)
get (s ∷ ss) = (s ∷ ss, none)

-- The loop of `Find`.
contains : Text → List Text → Bool
contains sym [] = false
contains sym (v ∷ vs) = let rest = contains sym vs in if text_eq v sym then true else rest

unfoldable pub find : Text → List Text → Bool × Option KsymsError
unfolding contains
find sym [] = (false, some no_ksyms)
find sym (s ∷ ss) = (contains sym (s ∷ ss), none)
