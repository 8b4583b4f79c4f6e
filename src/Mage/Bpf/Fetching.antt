-- ===== src/Mage/Bpf/Fetching.antt =====
-- The goroutines of `Kernels`: each is `Fetch` and then `Configure`, and what every call keeps is kept
-- by all of them, in every interleaving.
use conntracct.Prelude.{
  ℕ, zero, suc, ◌≡◌, refl, ap, ◌∙◌, List, [], ◌∷◌, ◌++◌, map, Option, none, some, String, All,
}
use conntracct.Text.{Text, codes}
use conntracct.Kernel.{
  Kernel, Host, archive_path, directory, curl, unarchive, merged, chosen, fetch, configure,
  ◌then_do◌,
}
use conntracct.Mage.Bpf.{
  Action, Jobs, job, in_turn, stepped, advance, finish, scheduled, kernels, first_error,
}

then_do_assoc :
    {World : Type 0} (x : World × Option String) (f g : World → World × Option String)
    → (x then_do (λ w. f w then_do g)) ≡ (x then_do f then_do g)
then_do_assoc (w, none) f g = refl
then_do_assoc (w, some e) f g = refl

then_do_end : {World : Type 0} (x : World × Option String) → (x then_do (λ w. (w, none))) ≡ x
then_do_end (w, none) = refl
then_do_end (w, some e) = refl

module _ (host : Host) where
  open host use {World, join, mkdir_all, run, read_config}

  in_turn-append :
      (js ks : List (Action host)) (w : World)
      → in_turn host (js ++ ks) w ≡ (in_turn host js w then_do in_turn host ks)
  unfolding in_turn
  in_turn-append [] ks w = refl
  in_turn-append (j ∷ js) ks w =
      ap (λ f. j w then_do f) (λ i u. in_turn-append js ks u i)
      ∙ then_do_assoc (j w) (in_turn host js) (in_turn host ks)

  in_turn_three :
      (a b c : Action host) (w : World)
      → in_turn host (a ∷ b ∷ c ∷ []) w ≡ (a w then_do b then_do c)
  unfolding in_turn
  in_turn_three a b c w =
      then_do_assoc (a w) b (λ u. c u then_do (λ v. (v, none)))
      ∙ (then_do_assoc (a w then_do b) c (λ v. (v, none)) ∙ then_do_end (a w then_do b then_do c))

  -- A job alone is `Fetch` followed by `Configure(nil)`.
  pub job_lem :
      (build_dir : Text) (k : Kernel) (w : World)
      → in_turn host (job host build_dir k) w
        ≡ (fetch host build_dir k w then_do configure host build_dir k none)
  unfolding job fetch configure
  job_lem build_dir k w =
      let dir = directory host build_dir k in
      let archive = archive_path host build_dir k in
      let kcfile = join dir (codes ".config") in
      let make_default = run (codes "make" ∷ codes "-C" ∷ dir ∷ codes "defconfig" ∷ []) in
      let adapt =
        λ (u : World). merged host kcfile (chosen host none k.params) (read_config kcfile u) u in
      let make_prepared =
        run (codes "make" ∷ codes "-C" ∷ dir ∷ codes "olddefconfig" ∷ codes "prepare" ∷ []) in
      let getting =
        mkdir_all build_dir ∷ curl host k.url archive ∷ unarchive host archive build_dir dir ∷ [] in
      in_turn-append getting (make_default ∷ adapt ∷ make_prepared ∷ []) w
      ∙ (ap (λ x. x then_do in_turn host (make_default ∷ adapt ∷ make_prepared ∷ []))
            (in_turn_three (mkdir_all build_dir) (curl host k.url archive)
              (unarchive host archive build_dir dir) w)
          ∙ ap (λ f. fetch host build_dir k w then_do f)
              (λ i u. in_turn_three make_default adapt make_prepared u i))

module _ (host : Host) (P : host.World → Type 0) where
  open host use {World}

  abbrev pub Kept : Action host → Type 0
  Kept a = (w : World) → P w → P (a w).0

  abbrev pub AllKept : List (Action host) → Type 0
  AllKept j = All Kept j

  pub then_do-Kept :
      (x : World × Option String) (f : Action host) → Kept f → P x.0 → P (x then_do f).0
  then_do-Kept (w, none) f k p = k w p
  then_do-Kept (w, some e) f k p = p

  pub in_turn-Kept : (j : List (Action host)) → AllKept j → Kept (in_turn host j)
  unfolding in_turn
  in_turn-Kept [] all w p = p
  in_turn-Kept (a ∷ j) all w p =
      then_do-Kept (a w) (in_turn host j) (in_turn-Kept j all.1) (all.0 w p)

  finish-Kept :
      (jobs : Jobs host) (e : Option String) → All AllKept jobs → Kept (finish host jobs e)
  unfolding finish
  finish-Kept [] e all w p = p
  finish-Kept (j ∷ jobs) e all w p =
      finish-Kept jobs (first_error e (in_turn host j w).1) all.1 (in_turn host j w).0
        (in_turn-Kept j all.0 w p)

  abbrev pub Advanced : Jobs host × World × Option String → Type 0
  Advanced (js, u, d) = All AllKept js × P u

  stepped-Kept :
      (j : List (Action host)) (jobs : Jobs host) (x : World × Option String)
      → AllKept j
      → All AllKept jobs
      → P x.0
      → Advanced (stepped host j jobs x)
  unfolding stepped
  stepped-Kept j jobs (w, none) here all p = ((here, all), p)
  stepped-Kept j jobs (w, some e) here all p = ((tt, all), p)

  pub advance-Kept :
      (i : ℕ) (jobs : Jobs host) (w : World)
      → All AllKept jobs
      → P w
      → Advanced (advance host i jobs w)
  unfolding advance
  advance-Kept i [] w all p = (tt, p)
  advance-Kept zero ([] ∷ jobs) w all p = (all, p)
  advance-Kept zero ((a ∷ j) ∷ jobs) w all p = stepped-Kept j jobs (a w) all.0.1 all.1 (all.0.0 w p)
  advance-Kept (suc i) (j ∷ jobs) w all p =
      let (rest, q) = advance-Kept i jobs w all.1 p in ((all.0, rest), q)

  scheduled-Kept :
      (is : List ℕ) (jobs : Jobs host) (e : Option String)
      → All AllKept jobs
      → Kept (scheduled host is jobs e)
  unfolding scheduled
  scheduled-Kept [] jobs e all w p = finish-Kept jobs e all w p
  scheduled-Kept (i ∷ is) jobs e all w p =
      let (rest, q) = advance-Kept i jobs w all p in
      scheduled-Kept is (advance host i jobs w).0 (first_error e (advance host i jobs w).2) rest
        (advance host i jobs w).1 q

  pub jobs-AllKept :
      (build_dir : Text) (ks : List Kernel)
      → ((k : Kernel) → AllKept (job host build_dir k))
      → All AllKept (map (job host build_dir) ks)
  jobs-AllKept build_dir [] all = tt
  jobs-AllKept build_dir (k ∷ ks) all = (all k, jobs-AllKept build_dir ks all)

  -- What the calls of the goroutines keep, `Kernels` keeps, with or without an error.
  pub kernels-Kept :
      (build_dir : Text) (fetches : List Kernel) (schedule : List ℕ)
      → ((k : Kernel) → AllKept (job host build_dir k))
      → Kept (kernels host build_dir fetches schedule)
  unfolding kernels
  kernels-Kept build_dir fetches schedule all =
      scheduled-Kept schedule (map (job host build_dir) fetches) none
        (jobs-AllKept build_dir fetches all)
