-- ===== src/Sysctl/Applied.antt =====
-- What `Apply` leaves on the machine.
use mathlib.Core.Path.{subst}
use conntracct.Prelude.{
  ◌≡◌, refl, sym, ap, ◌∙◌, false, List, [], ◌∷◌, Option, none, some, String, str_eq, str_eq_iff,
  All, Bool-cases, Option-cases, arith, inl, inr,
}
use conntracct.Sysctl.{SysctlLib, SysctlError, get_failed, set_failed, apply}

-- No entry has this key.
abbrev pub Fresh : String → List (String × String) → Type 0
Fresh ctl entries = All (λ e. str_eq ctl e.0 ≡ false) entries

abbrev pub IsMap : List (String × String) → Type 0
IsMap [] = Unit {0}
IsMap ((ctl, v) ∷ rest) = Fresh ctl rest × IsMap rest

module _ (lib : SysctlLib) where
  open lib use {Machine, get, set}

  -- What is documented of the package: a value that was set is read back, and setting one sysctl
  -- leaves the others.
  pub record Behaves : Type 0 where
    pub reads_back : (ctl v : String) (m n : Machine) → set ctl v m ≡ some n → get ctl n ≡ some v
    pub keeps_others :
        (ctl v other : String) (m n : Machine)
        → set ctl v m ≡ some n
        → str_eq other ctl ≡ false
        → get other n ≡ get other m

  abbrev Holds : Machine → String × String → Type 0
  Holds m e = get e.0 m ≡ some e.1

  -- The cases of one round of the loop.
  data Round (ctl v : String) (rest : List (String × String)) (m : Machine) : Type 0 where
    fails : (e : SysctlError) → apply lib ((ctl, v) ∷ rest) m ≡ (m, some e) → Round ctl v rest m
    skips :
        get ctl m ≡ some v → apply lib ((ctl, v) ∷ rest) m ≡ apply lib rest m → Round ctl v rest m
    sets :
        (n : Machine)
        → set ctl v m ≡ some n
        → apply lib ((ctl, v) ∷ rest) m ≡ apply lib rest n
        → Round ctl v rest m

  Round-cases : (ctl v : String) (rest : List (String × String)) (m : Machine) → Round ctl v rest m
  unfolding apply
  Round-cases ctl v rest m = elim (Option-cases (get ctl m)) [
    | inl n ↦ fails (get_failed ctl) (rw (apply, n))
    | inr (cur, c) ↦ elim (Bool-cases (str_eq cur v)) [
      | inl t ↦ skips (c ∙ ap some ((str_eq_iff cur v).0 t)) (rw (apply, c) (rw t))
      | inr f ↦ elim (Option-cases (set ctl v m)) [
        | inl n ↦ fails (set_failed ctl) (rw (apply, c) (rw (f, n)))
        | inr (n, s) ↦ sets n s (rw (apply, c) (rw (f, s)))
      ]
    ]
  ]

  apply-other :
      Behaves
      → (entries : List (String × String)) (m : Machine) (other : String) → Fresh other entries
      → get other (apply lib entries m).0 ≡ get other m
  unfolding apply
  apply-other laws [] m other h = refl
  apply-other laws ((ctl, v) ∷ rest) m other h = elim (Round-cases ctl v rest m) [
    | fails e q ↦ ap (λ r. get other r.0) q
    | skips held q ↦ ap (λ r. get other r.0) q ∙ apply-other laws rest m other h.1
    | sets n s q ↦
        ap (λ r. get other r.0) q
        ∙ (apply-other laws rest n other h.1 ∙ laws.keeps_others ctl v other m n s h.0)
  ]

  after-Holds :
      (ctl v : String) (rest : List (String × String)) {x y : Machine × Option SysctlError}
      → x ≡ y
      → get ctl y.0 ≡ some v
      → All (Holds y.0) rest
      → All (Holds x.0) ((ctl, v) ∷ rest)
  after-Holds ctl v rest r here there =
      subst (λ z. All (Holds z.0) ((ctl, v) ∷ rest)) (sym r) (here, there)

  apply_success-Holds :
      Behaves
      → (entries : List (String × String)) (m : Machine) → IsMap entries
      → (apply lib entries m).1 ≡ none
      → All (Holds (apply lib entries m).0) entries
  apply_success-Holds laws [] m h q = tt
  apply_success-Holds laws ((ctl, v) ∷ rest) m h q = elim (Round-cases ctl v rest m) [
    | fails e r ↦ absurd (ground (arith, q, ap (λ x. x.1) r))
    | skips held r ↦
        after-Holds ctl v rest r (apply-other laws rest m ctl h.0 ∙ held)
          (apply_success-Holds laws rest m h.1 (rw r at q))
    | sets n s r ↦
        after-Holds ctl v rest r (apply-other laws rest n ctl h.0 ∙ laws.reads_back ctl v m n s)
          (apply_success-Holds laws rest n h.1 (rw r at q))
  ]

  apply-again :
      (entries : List (String × String)) (m : Machine)
      → All (Holds m) entries
      → apply lib entries m ≡ (m, none)
  unfolding apply
  apply-again [] m h = refl
  apply-again ((ctl, v) ∷ rest) m h =
      rw (apply, h.0) (rw ((str_eq_iff v v).1 refl) (apply-again rest m h.1))

  -- If go-sysctl behaves as documented, `Apply` leaves every sysctl that is not in the map as it
  -- was, also when it fails; when it reports no error, every entry of the map holds; and a
  -- machine on which every entry holds already is left alone, without an error.
  pub apply-Holds :
      Behaves
      → (entries : List (String × String)) (m : Machine) → IsMap entries
      → ((other : String) → Fresh other entries → get other (apply lib entries m).0 ≡ get other m)
        × ((apply lib entries m).1 ≡ none → All (Holds (apply lib entries m).0) entries)
        × (All (Holds m) entries → apply lib entries m ≡ (m, none))
  apply-Holds laws entries m h =
      (apply-other laws entries m, apply_success-Holds laws entries m h, apply-again entries m)
