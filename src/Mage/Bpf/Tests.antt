-- ===== src/Mage/Bpf/Tests.antt =====
-- The fetching of two kernels at once, to the disk of Kernel/Disk.
use conntracct.Prelude.{ℕ, ◌≡◌, refl, inl, inr, List, [], ◌∷◌, none, All, Bool-cases}
use conntracct.Text.{Text, codes, text_eq, split, trim_right}
use conntracct.Kernel.{
  directory, Kernel, curl, unarchive, unless_there, merged, base, archive_name, trim_ext, trim_end,
  name,
}
use conntracct.Kernel.Table.{build_dir, mark_nft_nat, acct_v1}
use conntracct.Kernel.Fetched.{IsThere}
use conntracct.Kernel.Disk.{
  disk, IsMade, has, has-first, has-more, has-IsThere, IsThere-has, run-Keeps, disk-Behaves,
}
use conntracct.Mage.Bpf.{kernels, scheduled, advance, stepped, finish, in_turn, job, first_error}
use conntracct.Mage.Bpf.Sources.{Keeping, HasSources, kernels-HasSources}

abbrev old_linux : Kernel
old_linux = record {
  version = codes "4.9.142";
  url = codes "https://cdn.kernel.org/pub/linux/kernel/v4.x/linux-4.9.142.tar.xz";
  params = mark_nft_nat;
  probes = acct_v1;
}

abbrev new_linux : Kernel
new_linux = record {
  version = codes "4.17.9";
  url = codes "https://cdn.kernel.org/pub/linux/kernel/v4.x/linux-4.17.9.tar.xz";
  params = mark_nft_nat;
  probes = acct_v1;
}

abbrev two : List Kernel
two = old_linux ∷ new_linux ∷ []

-- The second goroutine starts, and they take turns for a while.
abbrev turns : List ℕ
turns = 1 ∷ 0 ∷ 1 ∷ 1 ∷ 0 ∷ 0 ∷ []

mkdir_all-IsThere :
    (d p : Text) (w : List Text) → IsThere disk p w → IsThere disk p (disk.mkdir_all d w).0
mkdir_all-IsThere d p w h = elim (Bool-cases (has d w)) [
  | inl t ↦ rw t h
  | inr f ↦ rw f (has-IsThere p (d ∷ w) (has-more p d w (IsThere-has p w h)))
]

disk-Keeping : Keeping disk build_dir IsMade
disk-Keeping = record {
  fetching = λ k. disk-Behaves k;
  mkdir_keeps = λ d p w h. mkdir_all-IsThere d p w h;
  defconfig_keeps = λ k p w h.
      (run-Keeps (codes "make" ∷ codes "-C" ∷ directory disk build_dir k ∷ codes "defconfig" ∷ [])
          w).1
        p h;
  prepare_keeps = λ k p w h.
      (run-Keeps
          (codes "make"
            ∷ codes "-C"
            ∷ directory disk build_dir k
            ∷ codes "olddefconfig"
            ∷ codes "prepare"
            ∷ [])
          w).1
        p h;
  config_keeps = λ f kc p w h. has-IsThere p (f ∷ w) (has-more p f w (IsThere-has p w h));
  config_writes = λ f kc w h. has-IsThere f (f ∷ w) (has-first f w);
}

kernels-two : (kernels disk build_dir two turns []).1 ≡ none
unfolding kernels scheduled advance stepped finish in_turn job first_error curl unarchive
    unless_there merged name archive_name base trim_ext trim_end trim_right split text_eq
kernels-two = refl

kernels-HasSources_example :
    All (HasSources disk build_dir (kernels disk build_dir two turns []).0) two
kernels-HasSources_example =
    kernels-HasSources disk build_dir IsMade disk-Keeping two turns [] kernels-two
