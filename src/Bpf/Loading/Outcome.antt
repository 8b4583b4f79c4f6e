-- ===== src/Bpf/Loading/Outcome.antt =====
-- When `NewProbe` loads a program, and which one.
use mathlib.Core.List.{Mem}
use conntracct.Prelude.{
  ℕ, ◌≡◌, ◌≢◌, ◌↔◌, refl, ap, ◌∙◌, Bool, List, [], ◌∷◌, ◌++◌, map, Option, none, some, String, ok,
  ◌>>=◌, ◌⊎◌, inl, inr, All,
}
use conntracct.Text.{Text, Free, trim_right}
use conntracct.Kallsyms.Parse.{Line, IsLine, format}
use conntracct.Kernel.{Kernel}
use conntracct.Bpf.Config.{Config, ConfigError, configure_probe}
use conntracct.Bpf.Helper.{HelperError, check_probe_ksyms}
use conntracct.Bpf.Helper.Release.{
  Release, IsRelease, release_text, version, kernel_release-version,
}
use conntracct.Bpf.Helper.Symbols.{KProbe, IsKProbe, format_probe, check_probe_ksyms-format}
use conntracct.Bpf.Selector.{Semver, kernel_at, versions_of, find_probe}
use conntracct.Bpf.Selector.Choice.{Chosen, find_probe-Chosen}
use conntracct.Bpf.Loading.{
  Answers, unreadable, selecting, ksyms_failed, load_failed, configuring, bpf_file, opened, found,
  select, configured, loaded, checked, selected, released, named, new_probe,
}

module _ (lib : Semver) (sys : Answers) (cfg : Config) (kernels : List (Text × Kernel)) where
  open lib use {Version, parse, sort, show, up_to, patches_of}

  -- The release and the files lead to this kernel.
  reaches :
      (r : Release) (junk : Text) (read : Text → String ⊎ List ℕ) (k : Kernel) (ksyms : List Text)
      → sys.uname ≡ inr (release_text r ++ (0 ∷ junk))
      → sys.files ≡ inr read
      → IsRelease r
      → Free 0 (release_text r)
      → find_probe lib (version r) kernels ≡ ok (inr k)
      → new_probe lib sys cfg kernels ksyms ≡ selected sys cfg ksyms (opened k (read (bpf_file k)))
  unfolding new_probe named released select found
  reaches r junk read k ksyms u f h z c =
      ap (named lib sys cfg kernels ksyms) u
      ∙ (ap (λ x. x >>= λ y. released lib sys cfg kernels ksyms y)
            (kernel_release-version r junk h z)
          ∙ (ap (λ x. select lib x (version r) kernels >>= λ y. selected sys cfg ksyms y) f
              ∙ ap (λ x. (x >>= λ y. ok (found read y)) >>= λ y. selected sys cfg ksyms y) c))

  -- The check of the symbols, once the program is read.
  checks :
      (l : Line) (ls : List Line) (ps : List KProbe) (k : Kernel) (b : List ℕ) (ksyms : List Text)
      → sys.kallsyms ≡ inr (format (l ∷ ls))
      → k.probes ≡ map format_probe ps
      → All IsLine (l ∷ ls)
      → All IsKProbe ps
      → (o : Option HelperError) × (selected sys cfg ksyms (inr (b, k))
          ≡ ok (checked sys cfg b k (map (λ m. m.name) (l ∷ ls), o)))
        × ((o ≡ none) ↔ All (λ p. Mem p.symbol (map (λ m. m.name) (l ∷ ls))) ps)
  unfolding selected
  checks l ls ps k b ksyms s p h q =
      let (o, done, decides) = check_probe_ksyms-format l ls ksyms ps h q in
      (
        o,
        ap (λ x. check_probe_ksyms x ksyms k.probes >>= λ r. ok (checked sys cfg b k r)) s
            ∙ (ap
                  (λ x. check_probe_ksyms (inr (format (l ∷ ls))) ksyms x >>= λ r.
                    ok (checked sys cfg b k r))
                  p
                ∙ ap (λ x. x >>= λ r. ok (checked sys cfg b k r)) done),
        decides,
      )

  loads :
      (names : List Text) (b : List ℕ) (k : Kernel) (ws : List (ℕ × ℕ)) (o : Option ConfigError)
      → sys.load b ≡ none
      → configure_probe sys.update cfg ≡ (ws, o)
      → checked sys cfg b k (names, none) ≡ (names, configured k b (ws, o))
  unfolding checked loaded
  loads names b k ws o h c =
      ap (λ x. (names, loaded sys cfg b k x)) h ∙ ap (λ x. (names, configured k b x)) c

  refuses :
      (names : List Text) (b : List ℕ) (k : Kernel) (o : Option HelperError)
      → o ≢ none
      → (e : HelperError) × (checked sys cfg b k (names, o) ≡ (names, inl (ksyms_failed e)))
  unfolding checked
  refuses names b k none h = absurd (h refl)
  refuses names b k (some e) h = (e, refl)

  -- On a kernel whose release begins with two or three dotted numbers, with a readable kallsyms
  -- file in the usual format, and a table of kernels in which a version can be chosen, and whose
  -- probes are each a kind and a symbol, NewProbe never panics and takes the kernel that
  -- `findProbe` chooses. It fails if the program of this kernel is not among the embedded files, if
  -- a probed symbol is not in the kallsyms file, if the program does not load, or if its
  -- configuration fails, and names the reason; otherwise it has loaded this program and written its
  -- configuration.
  pub new_probe_loads :
      (r : Release) (junk : Text) (read : Text → String ⊎ List ℕ) (l : Line) (ls : List Line)
      (ksyms : List Text) (kv : Version) (vs : List Version) (below patch : Version → Bool)
      (probes_of : Version → List KProbe)
      → sys.uname ≡ inr (release_text r ++ (0 ∷ junk))
      → sys.files ≡ inr read
      → sys.kallsyms ≡ inr (format (l ∷ ls))
      → IsRelease r
      → Free 0 (release_text r)
      → All IsLine (l ∷ ls)
      → parse (version r) ≡ some kv
      → versions_of lib kernels ≡ ok vs
      → sort vs ≢ []
      → up_to (version r) ≡ some below
      → patches_of kv ≡ some patch
      → ((v : Version) → (kernel_at kernels (show v)).probes ≡ map format_probe (probes_of v))
      → ((v : Version) → All IsKProbe (probes_of v))
      → (v : Version) × Chosen lib below patch (sort vs) v
        × ((e : String)
            → read (bpf_file (kernel_at kernels (show v))) ≡ inl e
            → new_probe lib sys cfg kernels ksyms
              ≡ ok (ksyms, inl (selecting (unreadable (bpf_file (kernel_at kernels (show v))) e))))
        × ((b : List ℕ)
            → read (bpf_file (kernel_at kernels (show v))) ≡ inr b
            → (All (λ p. Mem p.symbol (map (λ m. m.name) (l ∷ ls))) (probes_of v) → ⊥)
            → (e : HelperError) × (new_probe lib sys cfg kernels ksyms
                ≡ ok (map (λ m. m.name) (l ∷ ls), inl (ksyms_failed e))))
        × ((b : List ℕ) (e : Text)
            → read (bpf_file (kernel_at kernels (show v))) ≡ inr b
            → All (λ p. Mem p.symbol (map (λ m. m.name) (l ∷ ls))) (probes_of v)
            → sys.load b ≡ some e
            → new_probe lib sys cfg kernels ksyms
              ≡ ok (
                map (λ m. m.name) (l ∷ ls),
                inl (load_failed (kernel_at kernels (show v)).version (trim_right 0 e)),
              ))
        × ((b : List ℕ) (ws : List (ℕ × ℕ)) (e : ConfigError)
            → read (bpf_file (kernel_at kernels (show v))) ≡ inr b
            → All (λ p. Mem p.symbol (map (λ m. m.name) (l ∷ ls))) (probes_of v)
            → sys.load b ≡ none
            → configure_probe sys.update cfg ≡ (ws, some e)
            → new_probe lib sys cfg kernels ksyms
              ≡ ok (map (λ m. m.name) (l ∷ ls), inl (configuring e)))
        × ((b : List ℕ) (ws : List (ℕ × ℕ))
            → read (bpf_file (kernel_at kernels (show v))) ≡ inr b
            → All (λ p. Mem p.symbol (map (λ m. m.name) (l ∷ ls))) (probes_of v)
            → sys.load b ≡ none
            → configure_probe sys.update cfg ≡ (ws, none)
            → new_probe lib sys cfg kernels ksyms
              ≡ ok (
                map (λ m. m.name) (l ∷ ls),
                inr (record { kernel = kernel_at kernels (show v); program = b; writes = ws }),
              ))
  unfolding opened selected checked loaded configured
  new_probe_loads r junk read l ls ksyms kv vs below patch probes_of u f s h z lines parsed
        all_parsed some_version b p probes kprobes =
      let (v, chosen, picked) =
        find_probe-Chosen lib (version r) kernels kv vs below patch parsed all_parsed some_version b
          p in
      let k = kernel_at kernels (show v) in
      let names = map (λ (m : Line). m.name) (l ∷ ls) in
      let start : new_probe lib sys cfg kernels ksyms
          ≡ selected sys cfg ksyms (opened k (read (bpf_file k))) =
        reaches r junk read k ksyms u f h z picked in
      let opens : (b : List ℕ)
          → read (bpf_file k) ≡ inr b
          → (o : Option HelperError) × (new_probe lib sys cfg kernels ksyms
              ≡ ok (checked sys cfg b k (names, o)))
            × ((o ≡ none) ↔ All (λ p. Mem p.symbol names) (probes_of v)) =
        λ b e.
          let (o, done, decides) =
            checks l ls (probes_of v) k b ksyms s (probes v) lines (kprobes v) in
          (o, start ∙ (ap (λ x. selected sys cfg ksyms (opened k x)) e ∙ done), decides) in
      let passes : (b : List ℕ)
          → read (bpf_file k) ≡ inr b
          → All (λ p. Mem p.symbol names) (probes_of v)
          → new_probe lib sys cfg kernels ksyms ≡ ok (checked sys cfg b k (names, none)) =
        λ b e here.
          let (o, done, decides) = opens b e in
          done ∙ ap (λ x. ok (checked sys cfg b k (names, x))) (decides.1 here) in
      (
        v,
        chosen,
        λ e missing. start ∙ ap (λ x. selected sys cfg ksyms (opened k x)) missing,
        λ b e absent.
            let (o, done, decides) = opens b e in
            let (err, failed) = refuses names b k o (λ is_none. absent (decides.0 is_none)) in
            (err, done ∙ ap ok failed),
        λ b err e here bad. passes b e here ∙ ap (λ x. ok (names, loaded sys cfg b k x)) bad,
        λ b ws err e here fine c. passes b e here ∙ ap ok (loads names b k ws (some err) fine c),
        λ b ws e here fine c. passes b e here ∙ ap ok (loads names b k ws none fine c),
      )
