-- ===== src/Mage/Bpf/Complete.antt =====
-- The goroutines of `Kernels` run all their calls: what one of the calls makes, and the others keep, is
-- there at the end of every interleaving without an error.
use mathlib.Core.Path.{subst}
use conntracct.Prelude.{
  ℕ, zero, suc, ◌≡◌, refl, sym, ◌⊎◌, inl, inr, List, [], ◌∷◌, Option, none, some, String, All,
}
use conntracct.Kernel.{Host}
use conntracct.Kernel.Fetched.{then_do-none}
use conntracct.Mage.Bpf.{Action, Jobs, in_turn, stepped, advance, finish, scheduled, first_error}
use conntracct.Mage.Bpf.Fetching.{AllKept, in_turn-Kept, advance-Kept}

first_error-none : (e d : Option String) → first_error e d ≡ none → (e ≡ none) × (d ≡ none)
unfolding first_error
first_error-none none d h = (refl, h)
first_error-none (some e) d h = cc

module _ (host : Host) (Q : host.World → Type 0) where
  open host use {World}

  abbrev pub Establishes : Action host → Type 0
  Establishes a = (w : World) → (a w).1 ≡ none → Q (a w).0

  -- A call that establishes it is still to come.
  abbrev pub Ahead : List (Action host) → Type 0
  Ahead [] = ⊥
  Ahead (a ∷ j) = Establishes a ⊎ Ahead j

  abbrev pub Pending : Jobs host → Type 0
  Pending [] = ⊥
  Pending (j ∷ jobs) = Ahead j ⊎ Pending jobs

  in_turn-Ahead :
      (j : List (Action host)) (w : World)
      → AllKept host Q j
      → Ahead j
      → (in_turn host j w).1 ≡ none
      → Q (in_turn host j w).0
  unfolding in_turn
  in_turn-Ahead [] w all ahead ok = absurd ahead
  in_turn-Ahead (a ∷ j) w all (inl now) ok =
      let (first, rest, same) = then_do-none (a w) (in_turn host j) ok in
      subst (λ x. Q x.0) (sym same) (in_turn-Kept host Q j all.1 (a w).0 (now w first))
  in_turn-Ahead (a ∷ j) w all (inr later) ok =
      let (first, rest, same) = then_do-none (a w) (in_turn host j) ok in
      subst (λ x. Q x.0) (sym same) (in_turn-Ahead j (a w).0 all.1 later rest)

  finish-none :
      (jobs : Jobs host) (e : Option String) (w : World)
      → (finish host jobs e w).1 ≡ none
      → e ≡ none
  unfolding finish
  finish-none [] e w ok = ok
  finish-none (j ∷ jobs) e w ok =
      (first_error-none e (in_turn host j w).1
        (finish-none jobs (first_error e (in_turn host j w).1) (in_turn host j w).0 ok)).0

  finish-Pending :
      (jobs : Jobs host) (e : Option String) (w : World)
      → All (AllKept host Q) jobs
      → Q w ⊎ Pending jobs
      → (finish host jobs e w).1 ≡ none
      → Q (finish host jobs e w).0
  unfolding finish
  finish-Pending [] e w all (inl q) ok = q
  finish-Pending [] e w all (inr p) ok = absurd p
  finish-Pending (j ∷ jobs) e w all now ok =
      let u = (in_turn host j w).0 in
      let d = first_error e (in_turn host j w).1 in
      let quiet = (first_error-none e (in_turn host j w).1 (finish-none jobs d u ok)).1 in
      finish-Pending jobs d u all.1
        (elim now [
          | inl q ↦ inl (in_turn-Kept host Q j all.0 w q)
          | inr (inl ahead) ↦ inl (in_turn-Ahead j w all.0 ahead quiet)
          | inr (inr p) ↦ inr p
        ])
        ok

  stepped-AllKept :
      (j : List (Action host)) (jobs : Jobs host) (x : World × Option String)
      → AllKept host Q j
      → All (AllKept host Q) jobs
      → All (AllKept host Q) (stepped host j jobs x).0
  unfolding stepped
  stepped-AllKept j jobs (w, none) here all = (here, all)
  stepped-AllKept j jobs (w, some e) here all = (tt, all)

  advance-AllKept :
      (i : ℕ) (jobs : Jobs host) (w : World)
      → All (AllKept host Q) jobs
      → All (AllKept host Q) (advance host i jobs w).0
  unfolding advance
  advance-AllKept i [] w all = tt
  advance-AllKept zero ([] ∷ jobs) w all = all
  advance-AllKept zero ((a ∷ j) ∷ jobs) w all = stepped-AllKept j jobs (a w) all.0.1 all.1
  advance-AllKept (suc i) (j ∷ jobs) w all = (all.0, advance-AllKept i jobs w all.1)

  abbrev Went : Jobs host × World × Option String → Type 0
  Went (js, u, d) = d ≡ none → Q u ⊎ Pending js

  stepped-Went :
      (j : List (Action host)) (jobs : Jobs host) (x : World × Option String)
      → (x.1 ≡ none → Q x.0) ⊎ (Ahead j ⊎ Pending jobs)
      → Went (stepped host j jobs x)
  unfolding stepped
  stepped-Went j jobs (w, none) (inl now) ok = inl (now refl)
  stepped-Went j jobs (w, none) (inr later) ok = inr later
  stepped-Went j jobs (w, some e) h ok = cc

  advance-Went :
      (i : ℕ) (jobs : Jobs host) (w : World) → Pending jobs → Went (advance host i jobs w)
  unfolding advance
  advance-Went i [] w p ok = absurd p
  advance-Went zero ([] ∷ jobs) w p ok = inr p
  advance-Went zero ((a ∷ j) ∷ jobs) w (inl (inl now)) ok =
      stepped-Went j jobs (a w) (inl (now w)) ok
  advance-Went zero ((a ∷ j) ∷ jobs) w (inl (inr later)) ok =
      stepped-Went j jobs (a w) (inr (inl later)) ok
  advance-Went zero ((a ∷ j) ∷ jobs) w (inr p) ok = stepped-Went j jobs (a w) (inr (inr p)) ok
  advance-Went (suc i) (j ∷ jobs) w (inl ahead) ok = inr (inl ahead)
  advance-Went (suc i) (j ∷ jobs) w (inr p) ok = elim (advance-Went i jobs w p ok) [
    | inl q ↦ inl q
    | inr later ↦ inr (inr later)
  ]

  scheduled-none :
      (is : List ℕ) (jobs : Jobs host) (e : Option String) (w : World)
      → (scheduled host is jobs e w).1 ≡ none
      → e ≡ none
  unfolding scheduled
  scheduled-none [] jobs e w ok = finish-none jobs e w ok
  scheduled-none (i ∷ is) jobs e w ok =
      (first_error-none e (advance host i jobs w).2 (scheduled-none is _ _ _ ok)).0

  -- In every interleaving without an error.
  pub scheduled-Pending :
      (is : List ℕ) (jobs : Jobs host) (e : Option String) (w : World)
      → All (AllKept host Q) jobs
      → Q w ⊎ Pending jobs
      → (scheduled host is jobs e w).1 ≡ none
      → Q (scheduled host is jobs e w).0
  unfolding scheduled
  scheduled-Pending [] jobs e w all now ok = finish-Pending jobs e w all now ok
  scheduled-Pending (i ∷ is) jobs e w all (inl q) ok =
      let (rest, q') = advance-Kept host Q i jobs w all q in
      scheduled-Pending is _ _ _ rest (inl q') ok
  scheduled-Pending (i ∷ is) jobs e w all (inr p) ok =
      let quiet = (first_error-none e (advance host i jobs w).2 (scheduled-none is _ _ _ ok)).1 in
      scheduled-Pending is _ _ _ (advance-AllKept i jobs w all) (advance-Went i jobs w p quiet) ok
