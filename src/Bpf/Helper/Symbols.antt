-- ===== src/Bpf/Helper/Symbols.antt =====
-- `checkProbeKsyms` accepts just the probes whose functions the kernel has.
use mathlib.Core.List.{Mem}
use conntracct.Prelude.{
  ◌≡◌, ◌≢◌, ◌↔◌, refl, sym, ap, ◌∙◌, true, false, List, [], ◌∷◌, ◌++◌, map, Option, none, some, ok,
  inl, inr, All, Bool-cases, arith,
}
use conntracct.Text.{Text, split, Free, split-append, split-Free}
use conntracct.Kallsyms.{find}
use conntracct.Kallsyms.Parse.{Line, IsLine, format, refresh-format, find-Mem}
use conntracct.Bpf.Helper.{
  HelperError, sym_not_found, slash, second_of_two, check_probe, check_probes, checked,
  check_probe_ksyms,
}

-- A probe, `kprobe/<symbol>` or `kretprobe/<symbol>`.
pub record KProbe : Type 0 where
  pub kind : Text
  pub symbol : Text

abbrev pub format_probe : KProbe → Text
format_probe p = p.kind ++ (slash ∷ p.symbol)

pub record IsKProbe (p : KProbe) : Type 0 where
  pub kind : Free slash p.kind
  pub symbol : Free slash p.symbol

split-format_probe :
    (p : KProbe) → IsKProbe p → split slash (format_probe p) ≡ p.kind ∷ p.symbol ∷ []
split-format_probe p h =
    split-append slash p.kind p.symbol h.kind ∙ ap (◌∷◌ p.kind) (split-Free slash p.symbol h.symbol)

-- One probe passes if its symbol is stored, and is the error otherwise.
check_probe-present :
    (p : KProbe) (ksyms : List Text)
    → IsKProbe p
    → (find p.symbol ksyms).1 ≡ none
    → (find p.symbol ksyms).0 ≡ true
    → check_probe ksyms (format_probe p) ≡ none
unfolding check_probe second_of_two
check_probe-present p ksyms h n t =
    rw (check_probe, split-format_probe p h) (rw (second_of_two, n, t))

check_probe-absent :
    (p : KProbe) (ksyms : List Text)
    → IsKProbe p
    → (find p.symbol ksyms).1 ≡ none
    → (find p.symbol ksyms).0 ≡ false
    → check_probe ksyms (format_probe p) ≡ some (sym_not_found p.symbol)
unfolding check_probe second_of_two
check_probe-absent p ksyms h n f =
    rw (check_probe, split-format_probe p h) (rw (second_of_two, n, f))

abbrev Present : List Text → KProbe → Type 0
Present ksyms p = Mem p.symbol ksyms

check_probes-next :
    (p : Text) (ps ksyms : List Text)
    → check_probe ksyms p ≡ none
    → check_probes ksyms (p ∷ ps) ≡ check_probes ksyms ps
unfolding check_probes
check_probes-next p ps ksyms h = rw (check_probes, h)

check_probes-stop :
    (p : Text) (ps ksyms : List Text) (e : HelperError)
    → check_probe ksyms p ≡ some e
    → check_probes ksyms (p ∷ ps) ≡ some e
unfolding check_probes
check_probes-stop p ps ksyms e h = rw (check_probes, h)

-- The probes pass exactly if every symbol is stored.
check_probes-Present :
    (ps : List KProbe) (ksyms : List Text)
    → ksyms ≢ []
    → All IsKProbe ps
    → (check_probes ksyms (map format_probe ps) ≡ none) ↔ All (Present ksyms) ps
unfolding check_probes
check_probes-Present [] ksyms some_syms h = (λ _. tt, λ _. refl)
check_probes-Present (p ∷ ps) ksyms some_syms h =
    let (_, found, decides) = find-Mem p.symbol ksyms in
    let n = found some_syms in
    elim (Bool-cases (find p.symbol ksyms).0) [
      | inl t ↦
          let (only_if, when) = check_probes-Present ps ksyms some_syms h.1 in
          let next =
            check_probes-next (format_probe p) (map format_probe ps) ksyms
              (check_probe-present p ksyms h.0 n t) in
          (λ e. (decides.0 t, only_if (sym next ∙ e)), λ e. next ∙ when e.1)
      | inr f ↦
          let stop =
            check_probes-stop (format_probe p) (map format_probe ps) ksyms _
              (check_probe-absent p ksyms h.0 n f) in
          (λ e. absurd (ground (arith, e, stop)), λ e. absurd (ground (arith, f, decides.1 e.0)))
    ]

-- On a file of at least one line, each with an address, a type and a name that hold no space, tab
-- or newline, the check stores the names of the file anew. It passes a list of probes that are each
-- a kind and a symbol around one slash exactly if every symbol is a name of the file.
pub check_probe_ksyms-format :
    (l : Line) (ls : List Line) (ksyms : List Text) (ps : List KProbe)
    → All IsLine (l ∷ ls)
    → All IsKProbe ps
    → (r : Option HelperError) × (check_probe_ksyms
          (inr (format (l ∷ ls)))
          ksyms
          (map format_probe ps)
        ≡ ok (map (λ k. k.name) (l ∷ ls), r))
      × ((r ≡ none) ↔ All (λ p. Mem p.symbol (map (λ k. k.name) (l ∷ ls))) ps)
unfolding check_probe_ksyms checked
check_probe_ksyms-format l ls ksyms ps h k = (
  check_probes (map (λ m. m.name) (l ∷ ls)) (map format_probe ps),
  rw (refresh-format l ls ksyms h),
  check_probes-Present ps (map (λ m. m.name) (l ∷ ls)) (λ e. absurd (cc)) k,
)
