-- ===== src/Bpf/Selector.antt =====
-- pkg/bpf/selector.go: the choice of the BPF program for a kernel, out of the kernels that programs
-- were built against. The semver package is not part of the repository: it is an argument.
pub mod Choice
pub mod Tests
use conntracct.Prelude.{
  ℕ, ◌≡◌, Bool, true, false, List, [], ◌∷◌, Option, none, some, Go, ok, panic, ◌>>=◌, ◌⊎◌, inl, inr,
  if◌then◌else◌,
}
use conntracct.Text.{Text, text_eq}
use conntracct.Kernel.{Kernel}

abbrev zero_kernel : Kernel
zero_kernel = record { version = []; url = []; params = []; probes = [] }

-- `kernels[v]`: a missing key gives the zero value.
unfoldable pub kernel_at : List (Text × Kernel) → Text → Kernel
kernel_at [] v = zero_kernel
kernel_at ((key, k) ∷ kernels) v =
    let rest = kernel_at kernels v in if text_eq key v then k else rest

-- The semver package: parsing, sorting and printing of versions, and the two ranges that the
-- program asks for, `<= k` and `major.minor.x`.
pub record Semver : Type 1 where
  pub Version : Type 0
  pub parse : Text → Option Version
  pub sort : List Version → List Version
  pub show : Version → Text
  pub up_to : Text → Option (Version → Bool)
  pub patches_of : Version → Option (Version → Bool)

module _ (lib : Semver) where
  open lib use {Version, parse, sort, show, up_to, patches_of}

  -- `semver.MustParse` and `semver.MustParseRange` panic on an error.
  unfoldable pub must : {A : Type 0} → Option A → Go A
  must none = panic
  must (some a) = ok a

  -- The versions of all the kernels, in the order of the iteration over the map.
  unfoldable pub versions_of : List (Text × Kernel) → Go (List Version)
  versions_of [] = ok []
  versions_of ((key, k) ∷ kernels) =
      must (parse key) >>= λ v. versions_of kernels >>= λ vs. ok (v ∷ vs)

  -- `findRange`: the last version in the range. A later one has been looked at before.
  unfoldable pub find_range : List Version → (Version → Bool) → Option Text
  find_range [] in_range = none
  find_range (v ∷ vs) in_range = elim (find_range vs in_range) [
    | some s ↦ some s
    | none ↦ if in_range v then some (show v) else none
  ]

  -- `versions[0]` panics on an empty slice.
  lowest : List Version → List (Text × Kernel) → Go Kernel
  lowest [] kernels = panic
  lowest (v ∷ vs) kernels = ok (kernel_at kernels (show v))

  by_patch : Version → List Version → List (Text × Kernel) → Go Kernel
  by_patch kv versions kernels = must (patches_of kv) >>= λ in_range.
      elim (find_range versions in_range) [
        | some s ↦ ok (kernel_at kernels s)
        | none ↦ lowest versions kernels
      ]

  choose : Text → Version → List Version → List (Text × Kernel) → Go Kernel
  choose k kv versions kernels = must (up_to k) >>= λ in_range.
      elim (find_range versions in_range) [
        | some s ↦ ok (kernel_at kernels s)
        | none ↦ by_patch kv versions kernels
      ]

  -- `findProbe`; the error is that of parsing k.
  unfoldable pub find_probe : Text → List (Text × Kernel) → Go (Unit {0} ⊎ Kernel)
  unfolding choose by_patch lowest
  find_probe k kernels = elim (parse k) [
    | none ↦ ok (inl tt)
    | some kv ↦ versions_of kernels >>= λ vs. choose k kv (sort vs) kernels >>= λ r. ok (inr r)
  ]
