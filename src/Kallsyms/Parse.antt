-- ===== src/Kallsyms/Parse.antt =====
-- `Refresh` on a file as the kernel writes it, and `Find` on the result.
use mathlib.Core.List.{
  Mem, mem-cons_self, mem-cons_of_mem, eq-or-mem_of_mem-cons, not-mem-nil, append_assoc, append-nil,
}
use mathlib.Core.Logic.Or
use conntracct.Prelude.{
  ◌≡◌, ◌≢◌, ◌↔◌, refl, sym, ap, ◌∙◌, true, false, List, [], ◌∷◌, ◌++◌, map, Option, none, some, ok,
  inl, inr, All, All-append, arith, Bool-cases,
}
use conntracct.Text.{
  Text, text_eq, text_eq_iff, split, replace_all, Free, split-Free, split-append,
  trim_suffix-append_one, replace_all-Free, replace_all-append,
}
use conntracct.Kallsyms.{third_columns, refresh, find, contains, no_ksyms}

-- A line of /proc/kallsyms: an address, a type and a name, and a tab before the module if there is
-- one.
pub record Line : Type 0 where
  pub address : Text
  pub kind : Text
  pub name : Text
  pub in_module : Option Text

-- No column holds a separator.
abbrev pub IsColumn : Text → Type 0
IsColumn t = Free 32 t × Free 9 t × Free 10 t

abbrev IsModule : Option Text → Type 0
IsModule none = Unit {0}
IsModule (some m) = IsColumn m

pub record IsLine (l : Line) : Type 0 where
  pub address : IsColumn l.address
  pub kind : IsColumn l.kind
  pub name : IsColumn l.name
  pub in_module : IsModule l.in_module

abbrev after_name : Option Text → Text
after_name none = []
after_name (some m) = 9 ∷ m

abbrev pub format_line : Line → Text
format_line l = l.address ++ (32 ∷ (l.kind ++ (32 ∷ (l.name ++ after_name l.in_module))))

abbrev pub format : List Line → Text
format [] = []
format (l ∷ ls) = format_line l ++ (10 ∷ format ls)

-- The columns of a line once its tab is a space.
abbrev rest_columns : Option Text → List Text
rest_columns none = []
rest_columns (some m) = m ∷ []

replace_all-column :
    (a r : Text) → Free 9 a → replace_all 9 32 (a ++ (32 ∷ r)) ≡ a ++ (32 ∷ replace_all 9 32 r)
unfolding replace_all
replace_all-column a r h = replace_all-append 9 32 a (32 ∷ r) ∙ rw (replace_all-Free 9 32 a h)

split-name :
    (name : Text) (m : Option Text)
    → IsColumn name
    → IsModule m
    → split 32 (replace_all 9 32 (name ++ after_name m)) ≡ name ∷ rest_columns m
unfolding replace_all
split-name name none h k =
    ap (split 32)
      (replace_all-append 9 32 name [] ∙ rw (replace_all-Free 9 32 name h.1) (append-nil name))
    ∙ split-Free 32 name h.0
split-name name (some m) h k =
    ap (split 32) (
      replace_all-append 9 32 name (9 ∷ m)
      ∙ rw (replace_all-Free 9 32 name h.1, replace_all-Free 9 32 m k.1))
    ∙ split-append 32 name m h.0
    ∙ ap (◌∷◌ name) (split-Free 32 m k.0)

split-format_line :
    (l : Line)
    → IsLine l
    → split 32 (replace_all 9 32 (format_line l))
      ≡ l.address ∷ l.kind ∷ l.name ∷ rest_columns l.in_module
split-format_line l h =
    let tail = l.name ++ after_name l.in_module in
    ap (split 32) (
      replace_all-column l.address (l.kind ++ (32 ∷ tail)) h.address.1
      ∙ ap (λ r. l.address ++ (32 ∷ r)) (replace_all-column l.kind tail h.kind.1))
    ∙ split-append 32 l.address (l.kind ++ (32 ∷ replace_all 9 32 tail)) h.address.0
    ∙ ap (◌∷◌ l.address) (
        split-append 32 l.kind (replace_all 9 32 tail) h.kind.0
        ∙ ap (◌∷◌ l.kind) (split-name l.name l.in_module h.name h.in_module))

-- No line of a file holds a newline.
after_name-Free : (m : Option Text) → IsModule m → Free 10 (after_name m)
after_name-Free none h = tt
after_name-Free (some m) h = (refl, h.2)

format_line-Free : (l : Line) → IsLine l → Free 10 (format_line l)
format_line-Free l h = All-append _ l.address _ h.address.2 (
  refl,
  All-append _ l.kind _ h.kind.2
      (refl, All-append _ l.name _ h.name.2 (after_name-Free l.in_module h.in_module)),
)

-- The file without its last newline.
abbrev body : Line → List Line → Text
body l [] = format_line l
body l (m ∷ ls) = format_line l ++ (10 ∷ body m ls)

format-body : (l : Line) (ls : List Line) → format (l ∷ ls) ≡ body l ls ++ (10 ∷ [])
format-body l [] = refl
format-body l (m ∷ ls) =
    ap (λ r. format_line l ++ (10 ∷ r)) (format-body m ls)
    ∙ sym (append_assoc (format_line l) (10 ∷ body m ls) (10 ∷ []))

split-body :
    (l : Line) (ls : List Line)
    → All IsLine (l ∷ ls)
    → split 10 (body l ls) ≡ map format_line (l ∷ ls)
split-body l [] h = split-Free 10 (format_line l) (format_line-Free l h.0)
split-body l (m ∷ ls) h =
    split-append 10 (format_line l) (body m ls) (format_line-Free l h.0)
    ∙ ap (◌∷◌ (format_line l)) (split-body m ls h.1)

third_columns-map :
    (ls : List Line)
    → All IsLine ls
    → third_columns (map format_line ls) ≡ ok (map (λ l. l.name) ls)
unfolding third_columns
third_columns-map [] h = refl
third_columns-map (l ∷ ls) h =
    rw (third_columns, split-format_line l h.0) (rw (third_columns-map ls h.1))

-- From a file of at least one line, each with an address, a type and a name that hold no space, tab
-- or newline, and perhaps a module behind a tab, `Refresh` stores just the names, in order,
-- whatever was stored before.
pub refresh-format :
    (l : Line) (ls : List Line) (ksyms : List Text)
    → All IsLine (l ∷ ls)
    → refresh (inr (format (l ∷ ls))) ksyms ≡ ok (map (λ k. k.name) (l ∷ ls), none)
unfolding refresh
refresh-format l ls ksyms h =
    rw (format-body l ls, trim_suffix-append_one 10 (body l ls), split-body l ls h)
      (rw (third_columns-map (l ∷ ls) h))

contains-Mem : (symbol : Text) (vs : List Text) → (contains symbol vs ≡ true) ↔ Mem symbol vs
unfolding contains
contains-Mem symbol [] = (λ h. cc, λ m. absurd (not-mem-nil m))
contains-Mem symbol (v ∷ vs) = elim (Bool-cases (text_eq v symbol)) [
  | inl t ↦ (λ h. rw ((text_eq_iff v symbol).0 t) mem-cons_self, λ h. rw t)
  | inr f ↦ (
    λ h. mem-cons_of_mem v ((contains-Mem symbol vs).0 (rw f at h)),
    λ h.
        Or.elim (hlevel) (eq-or-mem_of_mem-cons h)
          (λ e. absurd (ground (arith, e, f, text_eq_iff v symbol)))
          (λ m. rw f ((contains-Mem symbol vs).1 m)),
  )
]

-- `Find` reports an error exactly if nothing is stored, and otherwise answers whether the symbol is
-- among the stored ones.
pub find-Mem :
    (symbol : Text) (ksyms : List Text)
    → (ksyms ≡ [] → find symbol ksyms ≡ (false, some no_ksyms))
      × (ksyms ≢ [] → (find symbol ksyms).1 ≡ none)
      × (((find symbol ksyms).0 ≡ true) ↔ Mem symbol ksyms)
unfolding find
find-Mem symbol [] = (λ _. refl, λ h. absurd (h refl), (λ h. cc, λ m. absurd (not-mem-nil m)))
find-Mem symbol (s ∷ ss) = (λ h. cc, λ _. refl, contains-Mem symbol (s ∷ ss))
