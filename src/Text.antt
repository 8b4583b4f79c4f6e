-- ===== src/Text.antt =====
-- Go strings that the program takes apart or builds, as the list of their bytes.
pub mod Decimal
use Prim.Native.Char.{code}
use conntracct.Prelude.{
  ℕ, zero, suc, ◌+◌, ◌-◌, ◌/◌, ◌%◌, ◌≡◌, ◌↔◌, refl, ap, Bool, true, false, ◌&&◌, List, [], ◌∷◌,
  ◌++◌, String, ltb, ◌==◌, ==_iff, arith, if◌then◌else◌, All,
}

abbrev pub Text : Type 0
Text = List ℕ

-- The bytes of an ASCII literal.
abbrev pub codes : String → Text
codes String.[] = []
codes (String.◌∷◌ c s) = code c ∷ codes s

-- `s == t`.
unfoldable pub text_eq : Text → Text → Bool
text_eq [] [] = true
text_eq [] (d ∷ t) = false
text_eq (c ∷ s) [] = false
text_eq (c ∷ s) (d ∷ t) = c == d && text_eq s t

pub text_eq_iff : (s t : Text) → (text_eq s t ≡ true) ↔ (s ≡ t)
unfolding text_eq
text_eq_iff [] [] = (λ h. refl, λ h. refl)
text_eq_iff [] (d ∷ t) = (λ h. cc, λ h. cc)
text_eq_iff (c ∷ s) [] = (λ h. cc, λ h. cc)
text_eq_iff (c ∷ s) (d ∷ t) =
    let ih = text_eq_iff s t in (λ h. ground (arith, ih.0), λ h. ground (arith, ih.1))

-- A digit of `strconv.FormatUint`.
abbrev digit : ℕ → ℕ
digit d = if ltb d 10 then b'0' + d else b'a' + (d - 10)

-- The digits of n in a base, before what is written already. A uint64 has at most 64.
format_from : ℕ → ℕ → ℕ → Text → Text
format_from zero base n acc = acc
format_from (suc fuel) base n acc =
    let rest = format_from fuel base (n / base) (digit (n % base) ∷ acc) in
    if ltb n base then digit n ∷ acc else rest

-- `strconv.FormatUint(n, base)`.
unfoldable pub format_uint : ℕ → ℕ → Text
unfolding format_from
format_uint base n = format_from 64 base n []

-- `strings.Split(s, sep)` for a separator of one byte: there is always a first part.
extend : ℕ → List Text → List Text
extend c [] = (c ∷ []) ∷ []
extend c (p ∷ ps) = (c ∷ p) ∷ ps

unfoldable pub split : ℕ → Text → List Text
unfolding extend
split sep [] = [] ∷ []
split sep (c ∷ s) = let rest = split sep s in if c == sep then [] ∷ rest else extend c rest

-- `strings.TrimSuffix(s, suffix)` for a suffix of one byte.
unfoldable pub trim_suffix : ℕ → Text → Text
trim_suffix c [] = []
trim_suffix c (x ∷ []) = if x == c then [] else x ∷ []
trim_suffix c (x ∷ y ∷ s) = x ∷ trim_suffix c (y ∷ s)

-- `strings.TrimRight(s, cutset)` for a cutset of one byte.
unfoldable pub trim_right : ℕ → Text → Text
trim_right cut [] = []
trim_right cut (c ∷ s) =
    let rest = trim_right cut s in
    elim rest [ [] ↦ (if c == cut then [] else c ∷ []) | ◌∷◌ d ds ↦ c ∷ d ∷ ds ]

-- `strings.Replace(s, old, new, -1)` for bytes.
unfoldable pub replace_all : ℕ → ℕ → Text → Text
replace_all old new [] = []
replace_all old new (c ∷ s) = (if c == old then new else c) ∷ replace_all old new s

-- The byte does not occur.
abbrev pub Free : ℕ → Text → Type 0
Free c s = All (λ x. (x == c) ≡ false) s

pub split-Free : (sep : ℕ) (s : Text) → Free sep s → split sep s ≡ s ∷ []
unfolding split extend
split-Free sep [] h = refl
split-Free sep (c ∷ s) h = rw (h.0, split-Free sep s h.1)

-- A part that is free of the separator is split off.
pub split-append :
    (sep : ℕ) (s t : Text) → Free sep s → split sep (s ++ (sep ∷ t)) ≡ s ∷ split sep t
unfolding split extend
split-append sep [] t h = rw ((==_iff sep sep).1 refl)
split-append sep (c ∷ s) t h = rw (h.0, split-append sep s t h.1)

pub trim_suffix-append_one : (c : ℕ) (s : Text) → trim_suffix c (s ++ (c ∷ [])) ≡ s
unfolding trim_suffix
trim_suffix-append_one c [] = rw ((==_iff c c).1 refl)
trim_suffix-append_one c (x ∷ []) = rw ((==_iff c c).1 refl)
trim_suffix-append_one c (x ∷ y ∷ s) = ap (◌∷◌ x) (trim_suffix-append_one c (y ∷ s))

pub replace_all-Free : (old new : ℕ) (s : Text) → Free old s → replace_all old new s ≡ s
unfolding replace_all
replace_all-Free old new [] h = refl
replace_all-Free old new (c ∷ s) h = rw (h.0, replace_all-Free old new s h.1)

pub replace_all-append :
    (old new : ℕ) (s t : Text)
    → replace_all old new (s ++ t) ≡ replace_all old new s ++ replace_all old new t
unfolding replace_all
replace_all-append old new [] t = refl
replace_all-append old new (c ∷ s) t =
    ap (◌∷◌ (if c == old then new else c)) (replace_all-append old new s t)
