-- ===== src/Mage/Tests.antt =====
-- Tests and witnesses for Mage, on a disk that only holds the objects which are not older than the
-- source, and whether the application is.
use mathlib.Core.List.{mem-cons_self, mem-cons_of_mem}
use conntracct.Prelude.{
  ◌≡◌, refl, sym, ap, ◌∙◌, Bool, true, false, Bool-cases, not, List, [], ◌∷◌, ◌++◌, Option, none,
  String, ◌⊎◌, inl, inr, if◌then◌else◌, get_or, All, arith, length,
}
use conntracct.Text.{Text, codes, text_eq, text_eq_iff}
use conntracct.Kernel.{
  Kernel, Host, missing, Params, slash, ◌then_do◌, curl, unarchive, unless_there, merged,
}
use conntracct.Kernel.Table.{build_dir, mark_nft_nat, acct_v1}
use conntracct.Mage.{Tools, symlink}
use conntracct.Mage.Bpf.{
  Choice, bpf_acct_build_path, statik_command, object_path, build, build_all, unless_fresh, deps,
  kernels, scheduled, advance, stepped, finish, in_turn, job, build_probe, first_error,
}
use conntracct.Mage.Bpf.Documented.{IsFresh, Behaves}
use conntracct.Mage.Bpf.Fresh.{build-IsFresh}
use conntracct.Mage.App.{
  build as build_app, Behaves as AppBehaves, build_again, replaced, real_path, build_path,
}
use conntracct.Mage.Integration.{test_command}

pub record Disk : Type 0 where
  pub objects : List Text
  pub app_built : Bool
  pub ran : List Text

abbrev has : Text → List Text → Bool
has p [] = false
has p (q ∷ w) = let rest = has p w in if text_eq q p then true else rest

abbrev disk : Host
disk = record {
  World = Disk;
  KConfig = Params;
  join = λ a b. a ++ (slash ∷ b);
  stat = λ p w. missing;
  mkdir_all = λ d w. (w, none);
  run = λ c w. (
    record w {
      app_built = if text_eq (get_or c 0 []) (codes "go") then true else w.app_built;
      ran = get_or c 0 [] ∷ w.ran;
    },
    none,
  );
  read_config = λ p w. inr [];
  merge = λ ps kc. ps ++ kc;
  write_config = λ p kc w. (w, none);
}

abbrev tools : Tools disk
tools = record {
  remove_all = λ p w. (record w { objects = [] }, none);
  rm = λ p w. (record w { app_built = false }, none);
  newer = λ p from w. inr (not (has p w.objects));
  newer_in = λ p from w. inr (not w.app_built);
  start = λ c w. (w, none);
  run_into = λ c w. (w, none);
  wait =
      λ c w. (record w { objects = get_or c 4 [] ∷ w.objects; ran = get_or c 0 [] ∷ w.ran }, none);
  lstat = λ p w. symlink;
  eval_symlinks = λ p w. none;
  read_link = λ p w. codes "/opt/conntracct";
}

abbrev at : Text → Kernel
at version = record {
  version = version;
  url = codes "https://cdn.kernel.org/linux-" ++ (version ++ codes ".tar.xz");
  params = mark_nft_nat;
  probes = acct_v1;
}

abbrev choice : Choice
choice = record {
  order = at (codes "4.9.142") ∷ at (codes "4.17.9") ∷ [];
  fetches = at (codes "4.17.9") ∷ at (codes "4.9.142") ∷ [];
  schedule = 0 ∷ 1 ∷ 1 ∷ 0 ∷ [];
}

abbrev empty : Disk
empty = record { objects = []; app_built = false; ran = [] }

has-IsFresh : (p : Text) (w : Disk) → has p w.objects ≡ true → IsFresh disk tools p w
has-IsFresh p w h = ap (λ b. inr (not b)) h

IsFresh-has : (p : Text) (w : Disk) → IsFresh disk tools p w → has p w.objects ≡ true
IsFresh-has p w h = elim (Bool-cases (has p w.objects)) [
  | inl t ↦ t
  | inr f ↦ absurd (stale (ap (λ b. answer (not b)) (sym f) ∙ h))
]
  where
    answer : Bool → String ⊎ Bool
    answer b = inr b

    stale : answer true ≡ answer false → ⊥
    stale e = cc

has-first : (p : Text) (w : List Text) → has p (p ∷ w) ≡ true
has-first p w = rw ((text_eq_iff p p).1 refl)

has-more : (p q : Text) (w : List Text) → has p w ≡ true → has p (q ∷ w) ≡ true
has-more p q w h = ground (arith, h)

disk-Behaves : Behaves disk tools build_dir
disk-Behaves = record {
  mkdir_keeps = λ d p w h. h;
  run_keeps = λ c p w k h. h;
  config_keeps = λ f kc p w c h. h;
  start_keeps = λ dst p w o ne h. h;
  clang_keeps = λ src dir p w h. h;
  wait_keeps = λ dst p w o ne h.
      has-IsFresh p (record w { objects = dst ∷ w.objects; ran = codes "llc" ∷ w.ran })
        (has-more p dst w.objects (IsFresh-has p w h));
  llc_writes = λ dst w o h.
      has-IsFresh dst (record w { objects = dst ∷ w.objects; ran = codes "llc" ∷ w.ran })
        (has-first dst w.objects);
}

abbrev built : Disk × Option String
built = build disk tools build_dir choice empty

built-none : built.1 ≡ none
unfolding build build_all unless_fresh deps kernels scheduled advance stepped finish in_turn job
    curl unarchive unless_there merged build_probe first_error text_eq
built-none = refl

build-IsFresh_example :
    All (λ k. IsFresh disk tools (object_path disk tools build_dir k) built.0) choice.order
    × (build disk tools build_dir choice built.0
        ≡ (disk.mkdir_all bpf_acct_build_path built.0 then_do disk.run statik_command))
build-IsFresh_example =
    build-IsFresh disk tools build_dir disk-Behaves choice choice empty
      (mem-cons_self, (mem-cons_of_mem _ mem-cons_self, tt)) built-none

app-Behaves : AppBehaves disk tools
unfolding text_eq
app-Behaves = record { go_builds = λ w h. refl; setcap_keeps = λ path w h. h }

app_built-none : (build_app disk tools empty).1 ≡ none
unfolding build_app replaced
app_built-none = refl

second_build_idle :
    build_app disk tools (build_app disk tools empty).0 ≡ ((build_app disk tools empty).0, none)
second_build_idle = build_again disk tools app-Behaves empty app_built-none

-- The link names a file that is not there, so setcap is given the target of the link.
real_path_link : real_path disk tools build_path empty ≡ codes "/opt/conntracct"
real_path_link = refl

test_command_user : length (test_command (codes "1000")) ≡ 9
unfolding text_eq
test_command_user = refl
