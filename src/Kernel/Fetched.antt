-- ===== src/Kernel/Fetched.antt =====
-- What `Fetch` leaves on the disk.
use mathlib.Core.Path.{subst}
use conntracct.Prelude.{◌≡◌, ◌≢◌, refl, sym, ap, ◌∙◌, List, Option, none, some, String}
use conntracct.Text.{Text}
use conntracct.Kernel.{
  Kernel, Host, Stat, exists, missing, failed, curl_command, tar_command, archive_path, directory,
  unless_there, curl, unarchive, fetch, ◌then_do◌,
}

-- A chain without an error.
pub then_do-none :
    {World : Type 0} (x : World × Option String) (next : World → World × Option String)
    → (x then_do next).1 ≡ none
    → (x.1 ≡ none) × ((next x.0).1 ≡ none) × ((x then_do next) ≡ next x.0)
then_do-none (w, none) next h = (refl, h, refl)
then_do-none (w, some e) next h = cc

module _ (host : Host) where
  open host use {World, stat, mkdir_all, run}

  abbrev pub IsThere : Text → World → Type 0
  IsThere p w = stat p w ≢ missing

  -- What was there is there still.
  abbrev pub Keeps : (Text → World → Type 0) → World → World → Type 0
  Keeps IsDir v w = ((d : Text) → IsDir d v → IsDir d w) × ((p : Text) → IsThere p v → IsThere p w)

  unless_there-IsThere :
      (s : Stat) (c : List Text) (w : World) → s ≢ missing → unless_there host s c w ≡ (w, none)
  unfolding unless_there
  unless_there-IsThere exists c w h = refl
  unless_there-IsThere failed c w h = refl
  unless_there-IsThere missing c w h = absurd (h refl)

  -- A command that makes a path, run only if the path is missing.
  pub made-IsThere :
      (IsDir : Text → World → Type 0) (p : Text) (c : List Text) (w : World) (s : Stat)
      → stat p w ≡ s
      → Keeps IsDir w (run c w).0
      → ((run c w).1 ≡ none → IsThere p (run c w).0)
      → (unless_there host s c w).1 ≡ none
      → IsThere p (unless_there host s c w).0 × Keeps IsDir w (unless_there host s c w).0
  unfolding unless_there
  made-IsThere IsDir p c w exists e k m h = (λ x. cc, ((λ d x. x), (λ q x. x)))
  made-IsThere IsDir p c w failed e k m h = (λ x. cc, ((λ d x. x), (λ q x. x)))
  made-IsThere IsDir p c w missing e k m h = (m h, k)

module _ (host : Host) (build_dir : Text) (k : Kernel) where
  open host use {World, stat, mkdir_all, run}

  -- What is documented of the commands: MkdirAll makes a directory, and does nothing where one is;
  -- curl writes the file that it is told to, tar the directory that the archive holds, and neither
  -- takes away what is there.
  pub record Behaves (IsDir : Text → World → Type 0) : Type 0 where
    pub mkdir_makes : (d : Text) (w : World) → (mkdir_all d w).1 ≡ none → IsDir d (mkdir_all d w).0
    pub mkdir_again : (d : Text) (w : World) → IsDir d w → mkdir_all d w ≡ (w, none)
    pub curl_writes :
        (url path : Text) (w : World)
        → (run (curl_command url path) w).1 ≡ none
        → IsThere host path (run (curl_command url path) w).0
    pub tar_unpacks :
        (w : World)
        → (run (tar_command (archive_path host build_dir k) build_dir) w).1 ≡ none
        → IsThere host
            (directory host build_dir k)
            (run (tar_command (archive_path host build_dir k) build_dir) w).0
    pub curl_keeps :
        (url path : Text) (w : World) → Keeps host IsDir w (run (curl_command url path) w).0
    pub tar_keeps :
        (archive dest : Text) (w : World) → Keeps host IsDir w (run (tar_command archive dest) w).0

  -- A disk on which all is there.
  abbrev Complete : (Text → World → Type 0) → World → Type 0
  Complete IsDir w =
      IsDir build_dir w
      × IsThere host (archive_path host build_dir k) w
      × IsThere host (directory host build_dir k) w

  fetch-again :
      (IsDir : Text → World → Type 0)
      → Behaves IsDir
      → (w : World) → Complete IsDir w
      → fetch host build_dir k w ≡ (w, none)
  unfolding fetch curl unarchive
  fetch-again IsDir laws w (d, a, c) =
      let archive = archive_path host build_dir k in
      let unpack = unarchive host archive build_dir (directory host build_dir k) in
      ap (λ x. x then_do curl host k.url archive then_do unpack) (laws.mkdir_again build_dir w d)
      ∙ (ap (λ x. x then_do unpack)
            (unless_there-IsThere host (stat archive w) (curl_command k.url archive) w a)
          ∙ unless_there-IsThere host (stat (directory host build_dir k) w)
              (tar_command archive build_dir) w c)

  -- The download and the unpacking, in a build directory.
  fetch-Complete :
      (IsDir : Text → World → Type 0)
      → Behaves IsDir
      → (w : World) → IsDir build_dir w
      → let archive = archive_path host build_dir k in
        let got = curl host k.url archive w in
        let unpacked = unarchive host archive build_dir (directory host build_dir k) got.0 in
        got.1 ≡ none → unpacked.1 ≡ none → Complete IsDir unpacked.0
  unfolding curl unarchive
  fetch-Complete IsDir laws w d g u =
      let archive = archive_path host build_dir k in
      let w' = (curl host k.url archive w).0 in
      let (there, kept) =
        made-IsThere host IsDir archive (curl_command k.url archive) w (stat archive w) refl
          (laws.curl_keeps k.url archive w) (laws.curl_writes k.url archive w) g in
      let (unpacked, kept') =
        made-IsThere host IsDir (directory host build_dir k) (tar_command archive build_dir) w'
          (stat (directory host build_dir k) w') refl (laws.tar_keeps archive build_dir w')
          (laws.tar_unpacks w') u in
      (kept'.0 build_dir (kept.0 build_dir d), kept'.1 archive there, unpacked)

  -- If the commands behave as documented, then after a Fetch that reports no error the build
  -- directory is there, and neither the archive nor the kernel's directory is reported missing; a
  -- second Fetch runs no command, leaves the disk as it is and reports no error.
  pub fetch_once :
      (IsDir : Text → World → Type 0)
      → Behaves IsDir
      → (w : World) → (fetch host build_dir k w).1 ≡ none
      → IsDir build_dir (fetch host build_dir k w).0
        × IsThere host (archive_path host build_dir k) (fetch host build_dir k w).0
        × IsThere host (directory host build_dir k) (fetch host build_dir k w).0
        × (fetch host build_dir k (fetch host build_dir k w).0
            ≡ ((fetch host build_dir k w).0, none))
  unfolding fetch
  fetch_once IsDir laws w h =
      let archive = archive_path host build_dir k in
      let unpack = unarchive host archive build_dir (directory host build_dir k) in
      let (got, unpacked, last) =
        then_do-none (mkdir_all build_dir w then_do curl host k.url archive) unpack h in
      let (made, downloaded, first) =
        then_do-none (mkdir_all build_dir w) (curl host k.url archive) got in
      let same = last ∙ ap (λ x. unpack x.0) first in
      let (d, a, c) =
        subst (λ x. Complete IsDir x.0) (sym same)
          (fetch-Complete IsDir laws (mkdir_all build_dir w).0 (laws.mkdir_makes build_dir w made)
            downloaded (ap (λ x. (unpack x.0).1) (sym first) ∙ unpacked)) in
      (d, a, c, fetch-again IsDir laws _ (d, a, c))
