-- ===== src/Mage/Bpf/Sources.antt =====
-- `Kernels`: the sources of every kernel are there at the end.
use conntracct.Prelude.{ℕ, ◌≡◌, refl, ◌⊎◌, inl, inr, List, [], ◌∷◌, map, none, String, All, All-map}
use conntracct.Text.{Text, codes}
use conntracct.Kernel.{
  Kernel, Host, Stat, exists, missing, failed, Params, archive_path, directory, curl, unarchive,
  unless_there, curl_command, tar_command, merged, chosen,
}
use conntracct.Kernel.Fetched.{Behaves, IsThere, made-IsThere}
use conntracct.Mage.Bpf.{Jobs, job, kernels}
use conntracct.Mage.Bpf.Fetching.{AllKept, jobs-AllKept}
use conntracct.Mage.Bpf.Complete.{Ahead, Pending, scheduled-Pending}

All-three :
    {A : Type 0} (P Q R : A → Type 0)
    → (xs : List A) → All P xs
    → All Q xs
    → All R xs
    → All (λ x. P x × Q x × R x) xs
All-three P Q R [] p q r = tt
All-three P Q R (x ∷ xs) p q r = ((p.0, q.0, r.0), All-three P Q R xs p.1 q.1 r.1)

module _ (host : Host) (build_dir : Text) where
  open host use {World, KConfig, join, stat, mkdir_all, run, read_config, write_config}

  abbrev pub config_path : Kernel → Text
  config_path k = join (directory host build_dir k) (codes ".config")

  -- What is documented: the commands of `Fetch` behave, a configuration is written to its path, and no
  -- call takes away what is there.
  pub record Keeping (IsDir : Text → World → Type 0) : Type 0 where
    pub fetching : (k : Kernel) → Behaves host build_dir k IsDir
    pub mkdir_keeps : (d p : Text) (w : World) → IsThere host p w → IsThere host p (mkdir_all d w).0
    pub defconfig_keeps :
        (k : Kernel) (p : Text) (w : World)
        → IsThere host p w
        → IsThere host p
            (run
              (codes "make" ∷ codes "-C" ∷ directory host build_dir k ∷ codes "defconfig" ∷ [])
              w).0
    pub prepare_keeps :
        (k : Kernel) (p : Text) (w : World)
        → IsThere host p w
        → IsThere host p
            (run
              (codes "make"
                ∷ codes "-C"
                ∷ directory host build_dir k
                ∷ codes "olddefconfig"
                ∷ codes "prepare"
                ∷ [])
              w).0
    pub config_keeps :
        (f : Text) (kc : KConfig) (p : Text) (w : World)
        → IsThere host p w
        → IsThere host p (write_config f kc w).0
    pub config_writes :
        (f : Text) (kc : KConfig) (w : World)
        → (write_config f kc w).1 ≡ none
        → IsThere host f (write_config f kc w).0

  -- The archive, the directory and the configuration of a kernel are there.
  abbrev pub HasSources : World → Kernel → Type 0
  HasSources w k =
      IsThere host (archive_path host build_dir k) w
      × IsThere host (directory host build_dir k) w
      × IsThere host (config_path k) w

  module _ (IsDir : Text → World → Type 0) (laws : Keeping IsDir) where
    unless_there-IsThere :
        (s : Stat) (c : List Text) (p : Text) (w : World)
        → IsThere host p (run c w).0
        → IsThere host p w
        → IsThere host p (unless_there host s c w).0
    unfolding unless_there
    unless_there-IsThere missing c p w ran h = ran
    unless_there-IsThere exists c p w ran h = h
    unless_there-IsThere failed c p w ran h = h

    merged-IsThere :
        (f : Text) (ps : Params) (kc : String ⊎ KConfig) (p : Text) (w : World)
        → IsThere host p w
        → IsThere host p (merged host f ps kc w).0
    unfolding merged
    merged-IsThere f ps (inl e) p w h = h
    merged-IsThere f ps (inr kc) p w h = laws.config_keeps f (host.merge ps kc) p w h

    writes-IsThere :
        (f : Text) (ps : Params) (kc : String ⊎ KConfig) (w : World)
        → (merged host f ps kc w).1 ≡ none
        → IsThere host f (merged host f ps kc w).0
    unfolding merged
    writes-IsThere f ps (inl e) w ok = cc
    writes-IsThere f ps (inr kc) w ok = laws.config_writes f (host.merge ps kc) w ok

    job-AllKept : (p : Text) (k : Kernel) → AllKept host (IsThere host p) (job host build_dir k)
    unfolding job curl unarchive
    job-AllKept p k =
        let dir = directory host build_dir k in
        let archive = archive_path host build_dir k in
        let fetches = laws.fetching k in
        (
          λ w h. laws.mkdir_keeps build_dir p w h,
          (
            λ w h.
                unless_there-IsThere (stat archive w) (curl_command k.url archive) p w
                  ((fetches.curl_keeps k.url archive w).1 p h) h,
            (
              λ w h.
                  unless_there-IsThere (stat dir w) (tar_command archive build_dir) p w
                    ((fetches.tar_keeps archive build_dir w).1 p h) h,
              (
                λ w h. laws.defconfig_keeps k p w h,
                (
                  λ w h.
                      merged-IsThere (config_path k) (chosen host none k.params)
                        (read_config (config_path k) w) p w h,
                  (λ w h. laws.prepare_keeps k p w h, tt),
                ),
              ),
            ),
          ),
        )

    -- Each of the three is made by a call of the goroutine.
    archive-Ahead :
        (k : Kernel)
        → Ahead host (IsThere host (archive_path host build_dir k)) (job host build_dir k)
    unfolding job curl
    archive-Ahead k =
        let archive = archive_path host build_dir k in
        let fetches = laws.fetching k in
        inr (
          inl (λ w ok.
            (made-IsThere host IsDir archive (curl_command k.url archive) w (stat archive w) refl
              (fetches.curl_keeps k.url archive w) (fetches.curl_writes k.url archive w) ok).0))

    directory-Ahead :
        (k : Kernel) → Ahead host (IsThere host (directory host build_dir k)) (job host build_dir k)
    unfolding job unarchive
    directory-Ahead k =
        let dir = directory host build_dir k in
        let archive = archive_path host build_dir k in
        let fetches = laws.fetching k in
        inr (
          inr (
            inl (λ w ok.
              (made-IsThere host IsDir dir (tar_command archive build_dir) w (stat dir w) refl
                (fetches.tar_keeps archive build_dir w) (fetches.tar_unpacks w) ok).0)))

    config-Ahead : (k : Kernel) → Ahead host (IsThere host (config_path k)) (job host build_dir k)
    unfolding job
    config-Ahead k = inr (
        inr (
          inr (
            inr (
              inl (λ w ok.
                writes-IsThere (config_path k) (chosen host none k.params)
                  (read_config (config_path k) w) w ok)))))

    -- A path that a call of every goroutine makes.
    All-Pending :
        (path : Kernel → Text)
        → ((k : Kernel) → Ahead host (IsThere host (path k)) (job host build_dir k))
        → (ks : List Kernel) (jobs : Jobs host)
        → ((Q : World → Type 0)
            → Pending host Q (map (job host build_dir) ks)
            → Pending host Q jobs)
        → All (λ k. Pending host (IsThere host (path k)) jobs) ks
    All-Pending path ahead [] jobs into = tt
    All-Pending path ahead (k ∷ ks) jobs into = (
      into (IsThere host (path k)) (inl (ahead k)),
      All-Pending path ahead ks jobs (λ Q p. into Q (inr p)),
    )

    -- If the commands behave as documented, then whatever the order of the kernels and the interleaving
    -- of their goroutines, after a run of `Kernels` that reports no error neither the archive, nor the
    -- directory, nor the configuration of any of the kernels is reported missing.
    pub kernels-HasSources :
        (fetches : List Kernel) (schedule : List ℕ) (w : World)
        → (kernels host build_dir fetches schedule w).1 ≡ none
        → All (HasSources (kernels host build_dir fetches schedule w).0) fetches
    unfolding kernels
    kernels-HasSources fetches schedule w ok =
        All-three _ _ _ fetches (made (archive_path host build_dir) archive-Ahead)
          (made (directory host build_dir) directory-Ahead) (made config_path config-Ahead)
      where
        made :
            (path : Kernel → Text)
            → ((k : Kernel) → Ahead host (IsThere host (path k)) (job host build_dir k))
            → All (λ k. IsThere host (path k) (kernels host build_dir fetches schedule w).0) fetches
        made path ahead =
            All-map
              (λ k p.
                scheduled-Pending host (IsThere host (path k)) schedule
                  (map (job host build_dir) fetches) none w
                  (jobs-AllKept host (IsThere host (path k)) build_dir fetches
                    (job-AllKept (path k)))
                  (inr p) ok)
              fetches (All-Pending path ahead fetches (map (job host build_dir) fetches) (λ Q p. p))
