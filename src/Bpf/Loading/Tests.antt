-- ===== src/Bpf/Loading/Tests.antt =====
-- A Fedora kernel, with two programs of which the older one is chosen.
use mathlib.Core.List.{Mem}
use conntracct.Prelude.{
  ℕ, ◌≡◌, refl, Bool, true, List, [], ◌∷◌, ◌++◌, map, none, some, String, ok, ◌⊎◌, inl, inr, All,
  leb, ◌==◌, Bool-cases, if◌then◌else◌,
}
use conntracct.Text.{Text, codes, text_eq, trim_right}
use conntracct.Kallsyms.Parse.{format}
use conntracct.Bpf.Config.{Config, ConfigError, configure_probe}
use conntracct.Bpf.Helper.{HelperError}
use conntracct.Bpf.Helper.Release.{release_text}
use conntracct.Bpf.Helper.Symbols.{KProbe, IsKProbe, format_probe}
use conntracct.Bpf.Helper.Tests.{
  fedora, fedora-IsRelease, fedora-Free, nf_free, nf_free-IsLine, on_free, on_free-IsKProbe,
}
use conntracct.Bpf.Selector.{kernel_at}
use conntracct.Bpf.Selector.Choice.{Chosen}
use conntracct.Bpf.Selector.Tests.{bytes, built, built-parsed}
use conntracct.Bpf.Loading.{
  Answers, unreadable, selecting, ksyms_failed, load_failed, configuring, bpf_file, new_probe,
}
use conntracct.Bpf.Loading.Outcome.{new_probe_loads}

abbrev read : Text → String ⊎ List ℕ
read path = inr (7 ∷ [])

abbrev fedora_answers : Answers
fedora_answers = record {
  uname = inr (release_text fedora ++ (0 ∷ []));
  files = inr read;
  kallsyms = inr (format (nf_free ∷ []));
  load = λ b. none;
  update = λ k v. none;
}

abbrev config : Config
config = record { cooldown_millis = 2000 }

-- The probes of the kernel of a version.
abbrev is_built : ℕ → Bool
is_built v = if text_eq (codes "4") (v ∷ []) then true else text_eq (codes "5") (v ∷ [])

abbrev probes_of : ℕ → List KProbe
probes_of v = if is_built v then on_free ∷ [] else []

built-probes : (v : ℕ) → (kernel_at built (v ∷ [])).probes ≡ map format_probe (probes_of v)
unfolding kernel_at
built-probes v = elim (Bool-cases (text_eq (codes "4") (v ∷ []))) [
  | inl t ↦ rw t refl
  | inr f ↦ elim (Bool-cases (text_eq (codes "5") (v ∷ []))) [
    | inl t ↦ rw f (rw t refl)
    | inr g ↦ rw f (rw g refl)
  ]
]

probes_of-IsKProbe : (v : ℕ) → All IsKProbe (probes_of v)
probes_of-IsKProbe v = elim (Bool-cases (is_built v)) [
  | inl t ↦ rw t (on_free-IsKProbe, tt)
  | inr f ↦ rw f tt
]

abbrev names : List Text
names = codes "free" ∷ []

new_probe_loads_example :
    (v : ℕ) × Chosen bytes (λ w. leb w 52) (λ w. w == 52) (52 ∷ 53 ∷ []) v
    × ((e : String)
        → read (bpf_file (kernel_at built (v ∷ []))) ≡ inl e
        → new_probe bytes fedora_answers config built []
          ≡ ok ([], inl (selecting (unreadable (bpf_file (kernel_at built (v ∷ []))) e))))
    × ((b : List ℕ)
        → read (bpf_file (kernel_at built (v ∷ []))) ≡ inr b
        → (All (λ p. Mem p.symbol names) (probes_of v) → ⊥)
        → (e : HelperError) × (new_probe bytes fedora_answers config built []
            ≡ ok (names, inl (ksyms_failed e))))
    × ((b : List ℕ) (e : Text)
        → read (bpf_file (kernel_at built (v ∷ []))) ≡ inr b
        → All (λ p. Mem p.symbol names) (probes_of v)
        → fedora_answers.load b ≡ some e
        → new_probe bytes fedora_answers config built []
          ≡ ok (names, inl (load_failed (kernel_at built (v ∷ [])).version (trim_right 0 e))))
    × ((b : List ℕ) (ws : List (ℕ × ℕ)) (e : ConfigError)
        → read (bpf_file (kernel_at built (v ∷ []))) ≡ inr b
        → All (λ p. Mem p.symbol names) (probes_of v)
        → fedora_answers.load b ≡ none
        → configure_probe fedora_answers.update config ≡ (ws, some e)
        → new_probe bytes fedora_answers config built [] ≡ ok (names, inl (configuring e)))
    × ((b : List ℕ) (ws : List (ℕ × ℕ))
        → read (bpf_file (kernel_at built (v ∷ []))) ≡ inr b
        → All (λ p. Mem p.symbol names) (probes_of v)
        → fedora_answers.load b ≡ none
        → configure_probe fedora_answers.update config ≡ (ws, none)
        → new_probe bytes fedora_answers config built []
          ≡ ok
              (names, inr (record { kernel = kernel_at built (v ∷ []); program = b; writes = ws })))
new_probe_loads_example =
    new_probe_loads bytes fedora_answers config built fedora [] read nf_free [] [] 52 (52 ∷ 53 ∷ [])
      (λ w. leb w 52) (λ w. w == 52) probes_of refl refl refl fedora-IsRelease fedora-Free
      (nf_free-IsLine, tt) refl built-parsed (λ e. absurd (cc)) refl refl built-probes
      probes_of-IsKProbe
