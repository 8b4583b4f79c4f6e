-- ===== src/Mage/Bpf/Documented.antt =====
-- What the tools that `Build` uses are documented to do.
use mathlib.Core.Path.{subst}
use mathlib.Core.Logic.Or
use mathlib.Core.List.{Mem, eq-or-mem_of_mem-cons, not-mem-nil}
use conntracct.Prelude.{
  ◌≡◌, ◌≢◌, refl, sym, inr, true, false, List, [], ◌∷◌, Option, none, some, String, All,
}
use conntracct.Text.{Text, codes}
use conntracct.Kernel.{Kernel, Host, archive_path, directory, curl_command, tar_command, ◌then_do◌}
use conntracct.Mage.{Tools}
use conntracct.Mage.Bpf.{object_path, statik_command, clang_command, llc_command, bpf_acct_probe}

pub true_not_false : true ≡ false → ⊥
true_not_false h = cc

pub All-Mem :
    {A : Type 0} {x : A}
    → (P : A → Type 0) → ((y : A) → IsProp (P y))
    → (xs : List A) → All P xs
    → Mem x xs
    → P x
All-Mem P prop [] all m = absurd (not-mem-nil m)
All-Mem {x = x} P prop (y ∷ ys) all m =
    Or.elim (prop x) (eq-or-mem_of_mem-cons m) (λ e. subst P (sym e) all.0)
      (λ more. All-Mem P prop ys all.1 more)

-- A step that does nothing where the chain has come to.
pub then_do-idle :
    {World : Type 0} (x : World × Option String) (f : World → World × Option String)
    → f x.0 ≡ (x.0, none)
    → (x then_do f) ≡ x
then_do-idle (w, none) f h = h
then_do-idle (w, some e) f h = refl

module _ (host : Host) (tools : Tools host) where
  open host use {World}
  open tools use {newer}

  -- The object is not older than the source of the probe.
  abbrev pub IsFresh : Text → World → Type 0
  IsFresh p w = newer p (bpf_acct_probe ∷ []) w ≡ inr false

module _ (host : Host) (tools : Tools host) (build_dir : Text) where
  open host use {World, join, mkdir_all, run, write_config, KConfig}
  open tools use {start, run_into, wait}

  -- The commands that `Build` runs besides the compilers, the configurations that it writes, and the
  -- objects.
  pub data Runs (c : List Text) : Type 0 where
    gets : (k : Kernel) → c ≡ curl_command k.url (archive_path host build_dir k) → Runs c
    unpacks : (k : Kernel) → c ≡ tar_command (archive_path host build_dir k) build_dir → Runs c
    makes :
        (k : Kernel) (targets : List Text)
        → c ≡ codes "make" ∷ codes "-C" ∷ directory host build_dir k ∷ targets
        → Runs c
    bundles : c ≡ statik_command → Runs c

  abbrev pub IsConfig : Text → Type 0
  IsConfig f = (k : Kernel) × (f ≡ join (directory host build_dir k) (codes ".config"))

  abbrev pub IsObject : Text → Type 0
  IsObject dst = (k : Kernel) × (dst ≡ object_path host tools build_dir k)

  -- What is documented: a directory is made, kernels are fetched and configured, and objects are
  -- bundled without an object becoming older or the source newer; so are objects compiled, but for
  -- the one that llc writes, which is newer than the source when llc ends without an error.
  pub record Behaves : Type 0 where
    pub mkdir_keeps :
        (d p : Text) (w : World) → IsFresh host tools p w → IsFresh host tools p (mkdir_all d w).0
    pub run_keeps :
        (c : List Text) (p : Text) (w : World)
        → Runs c
        → IsFresh host tools p w
        → IsFresh host tools p (run c w).0
    pub config_keeps :
        (f : Text) (kc : KConfig) (p : Text) (w : World)
        → IsConfig f
        → IsFresh host tools p w
        → IsFresh host tools p (write_config f kc w).0
    pub start_keeps :
        (dst p : Text) (w : World)
        → IsObject dst
        → p ≢ dst
        → IsFresh host tools p w
        → IsFresh host tools p (start (llc_command dst) w).0
    pub clang_keeps :
        (src dir p : Text) (w : World)
        → IsFresh host tools p w
        → IsFresh host tools p (run_into (clang_command src dir) w).0
    pub wait_keeps :
        (dst p : Text) (w : World)
        → IsObject dst
        → p ≢ dst
        → IsFresh host tools p w
        → IsFresh host tools p (wait (llc_command dst) w).0
    pub llc_writes :
        (dst : Text) (w : World)
        → IsObject dst
        → (wait (llc_command dst) w).1 ≡ none
        → IsFresh host tools dst (wait (llc_command dst) w).0
