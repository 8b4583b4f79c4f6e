-- ===== src/Mage/Bpf/Fresh.antt =====
-- `Build` of the BPF programs, on what the tools are documented to do.
use mathlib.Core.Path.{subst}
use text.Mathlib.TextEquality.{IsScalar-prop}
use mathlib.Core.List.{Mem}
use conntracct.Prelude.{
  ◌≡◌, refl, sym, ap, ◌∙◌, ◌⊎◌, inl, inr, Bool, true, false, Bool-cases, List, [], ◌∷◌, Option,
  none, String, All, All-map,
}
use conntracct.Text.{Text, codes, text_eq, text_eq_iff}
use conntracct.Kernel.{
  Kernel, Host, Stat, exists, missing, failed, Params, archive_path, directory, curl, unarchive,
  unless_there, curl_command, tar_command, merged, chosen, ◌then_do◌,
}
use conntracct.Kernel.Fetched.{then_do-none}
use conntracct.Mage.{Tools}
use conntracct.Mage.Bpf.{
  Action, Choice, job, deps, build_probe, clang_command, llc_command, statik_command,
  bpf_acct_probe, bpf_acct_build_path, object_path, unless_fresh, build_all, build,
}
use conntracct.Mage.Bpf.Fetching.{Kept, AllKept, kernels-Kept}
use conntracct.Mage.Bpf.Documented.{
  true_not_false, All-Mem, then_do-idle, Runs, gets, unpacks, makes, bundles, IsConfig, IsObject,
  IsFresh, Behaves,
}

module _ (host : Host) (tools : Tools host) (build_dir : Text)
    (laws : Behaves host tools build_dir) where
  open host use {World, join, mkdir_all, run, read_config, stat}
  open tools use {newer, start, run_into, wait}

  unless_there-Kept :
      (s : Stat) (c : List Text) (p : Text) (w : World)
      → Runs host tools build_dir c
      → IsFresh host tools p w
      → IsFresh host tools p (unless_there host s c w).0
  unfolding unless_there
  unless_there-Kept missing c p w k h = laws.run_keeps c p w k h
  unless_there-Kept exists c p w k h = h
  unless_there-Kept failed c p w k h = h

  merged-Kept :
      (f : Text) (ps : Params) (kc : String ⊎ host.KConfig) (p : Text) (w : World)
      → IsConfig host tools build_dir f
      → IsFresh host tools p w
      → IsFresh host tools p (merged host f ps kc w).0
  unfolding merged
  merged-Kept f ps (inl e) p w c h = h
  merged-Kept f ps (inr kc) p w c h = laws.config_keeps f (host.merge ps kc) p w c h

  job-Kept : (p : Text) (k : Kernel) → AllKept host (IsFresh host tools p) (job host build_dir k)
  unfolding job curl unarchive
  job-Kept p k =
      let dir = directory host build_dir k in
      let archive = archive_path host build_dir k in
      let kcfile = join dir (codes ".config") in
      (
        λ w h. laws.mkdir_keeps build_dir p w h,
        (
          λ w h.
              unless_there-Kept (stat archive w) (curl_command k.url archive) p w (gets k refl) h,
          (
            λ w h.
                unless_there-Kept (stat dir w) (tar_command archive build_dir) p w (unpacks k refl)
                  h,
            (
              λ w h.
                  laws.run_keeps (codes "make" ∷ codes "-C" ∷ dir ∷ codes "defconfig" ∷ []) p w
                    (makes k (codes "defconfig" ∷ []) refl) h,
              (
                λ w h.
                    merged-Kept kcfile (chosen host none k.params) (read_config kcfile w) p w
                      (k, refl) h,
                (
                  λ w h.
                      laws.run_keeps
                        (codes "make"
                          ∷ codes "-C"
                          ∷ dir
                          ∷ codes "olddefconfig"
                          ∷ codes "prepare"
                          ∷ [])
                        p w (makes k (codes "olddefconfig" ∷ codes "prepare" ∷ []) refl) h,
                  tt,
                ),
              ),
            ),
          ),
        ),
      )

  deps-Kept :
      (ch : Choice) (done : Bool) (p : Text)
      → Kept host (IsFresh host tools p) (deps host tools build_dir ch done)
  unfolding deps
  deps-Kept ch true p w h = h
  deps-Kept ch false p w h =
      kernels-Kept host (IsFresh host tools p) build_dir ch.fetches ch.schedule (job-Kept p) w h

  -- A compilation that succeeds makes its object fresh, and no other one stale.
  build_probe-IsFresh :
      (dst dir p : Text) (w : World)
      → IsObject host tools build_dir dst
      → (build_probe host tools build_dir bpf_acct_probe dst dir w).1 ≡ none
      → (p ≡ dst) ⊎ IsFresh host tools p w
      → IsFresh host tools p (build_probe host tools build_dir bpf_acct_probe dst dir w).0
  unfolding build_probe
  build_probe-IsFresh dst dir p w o ok either =
      let clang = run_into (clang_command bpf_acct_probe dir) in
      let begun = start (llc_command dst) w in
      let (piped, ended, last) = then_do-none (begun then_do clang) (wait (llc_command dst)) ok in
      let (started, ran, first) = then_do-none begun clang piped in
      subst (λ x. IsFresh host tools p x.0) (sym last)
        (elim (Bool-cases (text_eq p dst)) [
          | inl t ↦
              subst (λ q. IsFresh host tools q (wait (llc_command dst) (begun then_do clang).0).0)
                (sym ((text_eq_iff p dst).0 t)) (laws.llc_writes dst _ o ended)
          | inr f ↦
              let ne =
                λ (h : p ≡ dst). absurd (true_not_false (sym ((text_eq_iff p dst).1 h) ∙ f)) in
              laws.wait_keeps dst p _ o ne (
                subst (λ x. IsFresh host tools p x.0) (sym first)
                  (laws.clang_keeps bpf_acct_probe dir p begun.0 (
                    laws.start_keeps dst p w o ne
                      (elim either [ inl h ↦ absurd (ne h) | inr h ↦ h ]))))
        ])

  -- What a part of the loop leaves when it reports no error: the objects of its kernels are fresh, and
  -- so is what was fresh before.
  abbrev Leaves : List Kernel → World → World × Option String → Type 0
  Leaves ks w x =
      x.1 ≡ none
      → ((p : Text) → IsFresh host tools p w → IsFresh host tools p x.0)
        × All (λ k. IsFresh host tools (object_path host tools build_dir k) x.0) ks

  unless_fresh-Leaves :
      (ch : Choice) (k : Kernel) (ks : List Kernel) (next : Bool → Action host) (done : Bool)
      (w : World) (a : String ⊎ Bool)
      → newer (object_path host tools build_dir k) (bpf_acct_probe ∷ []) w ≡ a
      → ((d : Bool) (u : World) → Leaves ks u (next d u))
      → Leaves (k ∷ ks) w (unless_fresh host tools build_dir ch k next done a w)
  unfolding unless_fresh
  unless_fresh-Leaves ch k ks next done w (inl e) h leaves ok = cc
  unless_fresh-Leaves ch k ks next done w (inr false) h leaves ok =
      let (kept, all) = leaves done w ok in
      (kept, (kept (object_path host tools build_dir k) h, all))
  unless_fresh-Leaves ch k ks next done w (inr true) h leaves ok =
      let dst = object_path host tools build_dir k in
      let dir = directory host build_dir k in
      let compile = build_probe host tools build_dir bpf_acct_probe dst dir in
      let fetched = deps host tools build_dir ch done w in
      let (compiled, went_on, last) = then_do-none (fetched then_do compile) (next true) ok in
      let (got, made, first) = then_do-none fetched compile compiled in
      let (kept, all) = leaves true (fetched then_do compile).0 went_on in
      let after = λ (p : Text) (either : (p ≡ dst) ⊎ IsFresh host tools p fetched.0). kept p (
        subst (λ x. IsFresh host tools p x.0) (sym first)
          (build_probe-IsFresh dst dir p fetched.0 (k, refl) made either)) in
      subst
        (λ x.
          ((p : Text) → IsFresh host tools p w → IsFresh host tools p x.0)
          × All (λ j. IsFresh host tools (object_path host tools build_dir j) x.0) (k ∷ ks))
        (sym last)
        ((λ p fresh. after p (inr (deps-Kept ch done p w fresh))), (after dst (inl refl), all))

  build_all-Leaves :
      (ch : Choice) (ks : List Kernel) (done : Bool) (w : World)
      → Leaves ks w (build_all host tools build_dir ch ks done w)
  unfolding build_all
  build_all-Leaves ch [] done w ok = ((λ p h. h), tt)
  build_all-Leaves ch (k ∷ ks) done w ok =
      unless_fresh-Leaves ch k ks (build_all host tools build_dir ch ks) done w
        (newer (object_path host tools build_dir k) (bpf_acct_probe ∷ []) w) refl
        (λ d u. build_all-Leaves ch ks d u) ok

  -- With fresh objects the loop does nothing.
  build_all_again :
      (ch : Choice) (ks : List Kernel) (done : Bool) (w : World)
      → All (λ k. IsFresh host tools (object_path host tools build_dir k) w) ks
      → build_all host tools build_dir ch ks done w ≡ (w, none)
  unfolding build_all unless_fresh
  build_all_again ch [] done w all = refl
  build_all_again ch (k ∷ ks) done w all =
      ap
        (λ a.
          unless_fresh host tools build_dir ch k (build_all host tools build_dir ch ks) done a w)
        all.0
      ∙ build_all_again ch ks done w all.1

  -- If the tools behave as documented, then after a `Build` that reports no error, whatever the orders
  -- of its kernels and the interleaving of the goroutines that fetch them, the object of each of its
  -- kernels is not older than the source. Another `Build` for some of these kernels then fetches
  -- and compiles nothing: it makes the directory and bundles the objects.
  pub build-IsFresh :
      (ch again : Choice) (w : World)
      → All (λ k. Mem k ch.order) again.order
      → (build host tools build_dir ch w).1 ≡ none
      → let built = (build host tools build_dir ch w).0 in
        All (λ k. IsFresh host tools (object_path host tools build_dir k) built) ch.order
        × (build host tools build_dir again built
            ≡ (mkdir_all bpf_acct_build_path built then_do run statik_command))
  unfolding build
  build-IsFresh ch again w fewer ok =
      let loop = build_all host tools build_dir ch ch.order false in
      let made = mkdir_all bpf_acct_build_path w in
      let (looped, bundled, last) = then_do-none (made then_do loop) (run statik_command) ok in
      let (dir_made, went, first) = then_do-none made loop looped in
      let (_, all) = build_all-Leaves ch ch.order false made.0 went in
      let done = (made then_do loop).0 in
      let fresh =
        subst (λ x. All (λ k. IsFresh host tools (object_path host tools build_dir k) x.0) ch.order)
          (sym last)
          (All-map
            (λ k.
              laws.run_keeps statik_command (object_path host tools build_dir k) done
                (bundles refl))
            ch.order
            (subst
              (λ x. All (λ k. IsFresh host tools (object_path host tools build_dir k) x.0) ch.order)
              (sym first) all)) in
      let stays = λ (k : Kernel).
        laws.mkdir_keeps bpf_acct_build_path (object_path host tools build_dir k)
          (build host tools build_dir ch w).0 in
      (
        fresh,
        ap (λ x. x then_do run statik_command)
            (then_do-idle (mkdir_all bpf_acct_build_path (build host tools build_dir ch w).0)
              (build_all host tools build_dir again again.order false)
              (build_all_again again again.order false _ (
                All-map
                  (λ k m. stays k (
                    All-Mem (λ j. IsFresh host tools (object_path host tools build_dir j) _)
                      (λ j. hlevel (IsScalar-prop)) ch.order fresh m))
                  again.order fewer))),
      )
