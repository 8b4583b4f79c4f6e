-- ===== src/Bpf/Selector/Tests.antt =====
-- Two kernels, of versions that are one byte.
use conntracct.Prelude.{ℕ, ◌≡◌, refl, List, [], ◌∷◌, Option, none, some, ok, inr, leb, ◌==◌, String}
use conntracct.Text.{Text, codes}
use conntracct.Kernel.{Kernel}
use conntracct.Bpf.Selector.{Semver, kernel_at, must, versions_of, find_probe}
use conntracct.Bpf.Selector.Choice.{Chosen, find_probe-Chosen}

abbrev first_byte : Text → Option ℕ
first_byte [] = none
first_byte (c ∷ s) = some c

abbrev pub bytes : Semver
bytes = record {
  Version = ℕ;
  parse = first_byte;
  sort = λ vs. vs;
  show = λ v. v ∷ [];
  up_to = λ k. elim (first_byte k) [ none ↦ none | some c ↦ some (λ v. leb v c) ];
  patches_of = λ kv. some (λ v. v == kv);
}

abbrev pub kernel : String → Kernel
kernel v = record {
  version = codes v;
  url = codes "https";
  params = [];
  probes = codes "kprobe/free" ∷ [];
}

abbrev pub built : List (Text × Kernel)
built = (codes "4", kernel "4") ∷ (codes "5", kernel "5") ∷ []

pub built-parsed : versions_of bytes built ≡ ok (52 ∷ 53 ∷ [])
unfolding versions_of must
built-parsed = refl

find_probe-Chosen_example :
    (v : ℕ) × Chosen bytes (λ w. leb w 54) (λ w. w == 54) (52 ∷ 53 ∷ []) v
    × (find_probe bytes (codes "6") built ≡ ok (inr (kernel_at built (v ∷ []))))
find_probe-Chosen_example =
    find_probe-Chosen bytes (codes "6") built 54 (52 ∷ 53 ∷ []) (λ w. leb w 54) (λ w. w == 54) refl
      built-parsed (λ e. absurd (cc)) refl refl
