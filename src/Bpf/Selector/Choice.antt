-- ===== src/Bpf/Selector/Choice.antt =====
-- Which kernel `findProbe` chooses.
use conntracct.Prelude.{
  ◌≡◌, ◌≢◌, refl, ap, Bool, true, false, List, [], ◌∷◌, ◌++◌, none, some, Go, ok, ◌>>=◌, ◌⊎◌, inl,
  inr, All, Bool-cases,
}
use conntracct.Text.{Text}
use conntracct.Kernel.{Kernel}
use conntracct.Bpf.Selector.{
  Semver, kernel_at, must, versions_of, find_range, lowest, by_patch, choose, find_probe,
}

module _ (lib : Semver) where
  open lib use {Version, parse, sort, show, up_to, patches_of}

  -- v is the last version of the list that is in the range.
  pub record IsLast (versions : List Version) (in_range : Version → Bool) (v : Version)
      : Type 0 where
    pub before : List Version
    pub after : List Version
    pub splits : versions ≡ before ++ (v ∷ after)
    pub fits : in_range v ≡ true
    pub no_later : All (λ w. in_range w ≡ false) after

  abbrev pub NoneIn : List Version → (Version → Bool) → Type 0
  NoneIn versions in_range = All (λ w. in_range w ≡ false) versions

  find_range-IsLast :
      (versions : List Version) (in_range : Version → Bool)
      → ((v : Version) × IsLast versions in_range v
          × (find_range lib versions in_range ≡ some (show v)))
        ⊎ (NoneIn versions in_range × (find_range lib versions in_range ≡ none))
  unfolding find_range
  find_range-IsLast [] in_range = inr (tt, refl)
  find_range-IsLast (v ∷ vs) in_range = elim (find_range-IsLast vs in_range) [
    | inl (w, last, found) ↦ inl (
      w,
      record {
        before = v ∷ last.before;
        after = last.after;
        splits = ap (◌∷◌ v) last.splits;
        fits = last.fits;
        no_later = last.no_later;
      },
      rw (find_range, found),
    )
    | inr (nowhere, missed) ↦ elim (Bool-cases (in_range v)) [
      | inl t ↦ inl (
        v,
        record { before = []; after = vs; splits = refl; fits = t; no_later = nowhere },
        rw (find_range, missed) (rw t),
      )
      | inr f ↦ inr ((f, nowhere), rw (find_range, missed) (rw f))
    ]
  ]

  -- The version that is to be chosen out of the sorted ones: the last one up to the running
  -- kernel's, else the last patch release of its minor release, else the first one of all.
  pub data Chosen (below patch : Version → Bool) (versions : List Version) (v : Version)
      : Type 0 where
    highest_below : IsLast versions below v → Chosen below patch versions v
    highest_patch : NoneIn versions below → IsLast versions patch v → Chosen below patch versions v
    lowest_of_all :
        NoneIn versions below
        → NoneIn versions patch
        → (rest : List Version) → versions ≡ v ∷ rest
        → Chosen below patch versions v

  Picks : (below patch : Version → Bool) → List Version → List (Text × Kernel) → Go Kernel → Type 0
  Picks below patch versions kernels found =
      (v : Version) × Chosen below patch versions v × (found ≡ ok (kernel_at kernels (show v)))

  lowest-Picks :
      (below patch : Version → Bool) (versions : List Version) (kernels : List (Text × Kernel))
      → versions ≢ []
      → NoneIn versions below
      → NoneIn versions patch
      → Picks below patch versions kernels (lowest lib versions kernels)
  unfolding Picks lowest
  lowest-Picks below patch [] kernels h a b = absurd (h refl)
  lowest-Picks below patch (v ∷ vs) kernels h a b = (v, lowest_of_all a b vs refl, refl)

  by_patch-Picks :
      (below patch : Version → Bool) (kv : Version) (versions : List Version)
      (kernels : List (Text × Kernel))
      → versions ≢ []
      → patches_of kv ≡ some patch
      → NoneIn versions below
      → Picks below patch versions kernels (by_patch lib kv versions kernels)
  unfolding Picks by_patch must
  by_patch-Picks below patch kv versions kernels h p a = elim (find_range-IsLast versions patch) [
    | inl (v, last, found) ↦ (v, highest_patch a last, rw (by_patch, p) (rw (must, ◌>>=◌, found)))
    | inr (nowhere, missed) ↦
        let (v, chosen, done) = lowest-Picks below patch versions kernels h a nowhere in
        (v, chosen, rw (by_patch, p) (rw (must, ◌>>=◌, missed) done))
  ]

  choose-Picks :
      (below patch : Version → Bool) (k : Text) (kv : Version) (versions : List Version)
      (kernels : List (Text × Kernel))
      → versions ≢ []
      → up_to k ≡ some below
      → patches_of kv ≡ some patch
      → Picks below patch versions kernels (choose lib k kv versions kernels)
  unfolding Picks choose must
  choose-Picks below patch k kv versions kernels h b p = elim (find_range-IsLast versions below) [
    | inl (v, last, found) ↦ (v, highest_below last, rw (choose, b) (rw (must, ◌>>=◌, found)))
    | inr (nowhere, missed) ↦
        let (v, chosen, done) = by_patch-Picks below patch kv versions kernels h p nowhere in
        (v, chosen, rw (choose, b) (rw (must, ◌>>=◌, missed) done))
  ]

  -- If the release, the kernels' versions and the two ranges parse, and there is a kernel, then
  -- `findProbe` returns the kernel of one version of the sorted ones: the last one that is not
  -- above the running kernel, else the last patch release of the running kernel's minor release,
  -- else the first one of all.
  pub find_probe-Chosen :
      (k : Text) (kernels : List (Text × Kernel)) (kv : Version) (vs : List Version)
      (below patch : Version → Bool)
      → parse k ≡ some kv
      → versions_of lib kernels ≡ ok vs
      → sort vs ≢ []
      → up_to k ≡ some below
      → patches_of kv ≡ some patch
      → (v : Version) × Chosen below patch (sort vs) v
        × (find_probe lib k kernels ≡ ok (inr (kernel_at kernels (show v))))
  unfolding Picks find_probe
  find_probe-Chosen k kernels kv vs below patch parsed all_parsed h b p =
      let (v, chosen, done) = choose-Picks below patch k kv (sort vs) kernels h b p in
      (v, chosen, rw (find_probe, parsed) (rw (all_parsed) (rw (◌>>=◌, done))))
