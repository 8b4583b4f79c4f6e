-- ===== src/Boottime/Vote.antt =====
-- Which time the vote elects.
use mathlib.Core.List.{
  Mem, mem-cons_self, mem-cons_of_mem, eq-or-mem_of_mem-cons, not-mem-nil, Perm,
}
use mathlib.Core.List.Perm
use mathlib.Core.Logic.Or
use native.Mathlib.Bridge.{le_prop}
use mathlib.Core.Path.{subst}
use conntracct.Prelude.{
  ℕ, zero, suc, ◌+◌, ◌^◌, ◌%◌, ◌≤◌, ◌≡◌, refl, sym, ap, ◌∙◌, false, List, [], ◌∷◌, map, length,
  none, some, ltb, Bool-cases, Option-cases, inl, inr, ◌⊎◌, arith, if◌then◌else◌,
}
use conntracct.GoMap.{lookup, IsUnique, lookup-assign_same, lookup-assign_other, assign-IsUnique}
use conntracct.Boottime.{
  TimeLib, Sample, boot_time, votes_or_zero, vote, tally, most_voted, estimate,
}

module _ (lib : TimeLib) where
  open lib use {Time, eq, zero_time}
  open eq use {same, same_refl, same_sound}

  -- How often a time occurs.
  abbrev pub count : Time → List Time → ℕ
  count t [] = 0
  count t (s ∷ ss) = let rest = count t ss in if same s t then rest + 1 else rest

  count-length : (t : Time) (ts : List Time) → count t ts ≤ length ts
  count-length t [] = omega arith
  count-length t (s ∷ ss) = ground (arith, count-length t ss)

  abbrev votes : Time → List (Time × ℕ) → ℕ
  votes t m = votes_or_zero lib (lookup eq t m)

  votes-vote_same :
      (s : Time) (m : List (Time × ℕ))
      → votes s m + 1 ≤ 255
      → votes s (vote lib s m) ≡ votes s m + 1
  unfolding vote
  votes-vote_same s m h =
      ap (votes_or_zero lib) (lookup-assign_same eq s ((votes s m + 1) % 2 ^ 8) m)
      ∙ omega (arith, h)

  votes-vote_other :
      (s t : Time) (m : List (Time × ℕ)) → same s t ≡ false → votes t (vote lib s m) ≡ votes t m
  unfolding vote
  votes-vote_other s t m f =
      ap (votes_or_zero lib) (lookup-assign_other eq s t ((votes s m + 1) % 2 ^ 8) m f)

  votes-vote :
      (s t : Time) (m : List (Time × ℕ))
      → votes s m + 1 ≤ 255
      → votes t (vote lib s m) ≡ (if same s t then votes t m + 1 else votes t m)
  votes-vote s t m h = elim (Bool-cases (same s t)) [
    | inl e ↦ rw e (rw (← same_sound s t e) (votes-vote_same s m h))
    | inr f ↦ rw f (votes-vote_other s t m f)
  ]

  -- The map counts, as long as no counter wraps around.
  votes-tally :
      (t : Time) (ts : List Time) (m : List (Time × ℕ))
      → ((s : Time) → votes s m + length ts ≤ 255)
      → votes t (tally lib ts m) ≡ votes t m + count t ts
  unfolding tally
  votes-tally t [] m h = omega arith
  votes-tally t (s ∷ ts) m h =
      let fits : votes s m + 1 ≤ 255 = omega (arith, h s) in
      votes-tally t ts (vote lib s m) (λ x. ground (arith, h x, votes-vote s x m fits))
      ∙ ground (arith, votes-vote s t m fits)

  not_head :
      (t k : Time) (v n : ℕ) (m : List (Time × ℕ))
      → lookup eq k m ≡ none
      → lookup eq t m ≡ some n
      → lookup eq t ((k, v) ∷ m) ≡ some n
  unfolding lookup
  not_head t k v n m u h = elim (Bool-cases (same k t)) [
    | inl e ↦ absurd (ground (arith, h, ap (λ x. lookup eq x m) (sym (same_sound k t e)) ∙ u))
    | inr f ↦ rw f h
  ]

  -- An entry is what a lookup finds.
  votes-Mem :
      (t : Time) (n : ℕ) (m : List (Time × ℕ))
      → IsUnique eq m
      → Mem (t, n) m
      → lookup eq t m ≡ some n
  unfolding lookup
  votes-Mem t n [] u h = absurd (not-mem-nil h)
  votes-Mem t n ((k, v) ∷ m) u h =
      Or.elim (hlevel) (eq-or-mem_of_mem-cons h)
        (λ e. rw (← ap (λ x. x.0) e) (rw (same_refl t) (ap (λ x. some x.1) (sym e))))
        (λ i. not_head t k v n m u.0 (votes-Mem t n m u.1 i))

  some_inj : (v n : ℕ) → some v ≡ some n → v ≡ n
  some_inj v n h = cc

  Mem-lookup : (t : Time) (n : ℕ) (m : List (Time × ℕ)) → lookup eq t m ≡ some n → Mem (t, n) m
  unfolding lookup
  Mem-lookup t n [] h = cc
  Mem-lookup t n ((k, v) ∷ m) h = elim (Bool-cases (same k t)) [
    | inl e ↦
        subst (λ x. Mem x ((k, v) ∷ m)) (λ i. (same_sound k t e i, some_inj v n (rw e at h) i))
          mem-cons_self
    | inr f ↦ mem-cons_of_mem (k, v) (Mem-lookup t n m (rw f at h))
  ]

  tally-IsUnique :
      (ts : List Time) (m : List (Time × ℕ)) → IsUnique eq m → IsUnique eq (tally lib ts m)
  unfolding tally vote
  tally-IsUnique [] m u = u
  tally-IsUnique (t ∷ ts) m u = tally-IsUnique ts (vote lib t m) (assign-IsUnique eq t _ m u)

  record Leads (out : Time) (max : ℕ) (m : List (Time × ℕ)) (t : Time) (n : ℕ) : Type 0 where
    from_entry : ((t ≡ out) × (n ≡ max)) ⊎ Mem (t, n) m
    at_least : max ≤ n
    greatest : (s : Time) (k : ℕ) → Mem (s, k) m → k ≤ n

  Mem-bound :
      (x : Time × ℕ) (m : List (Time × ℕ)) (n : ℕ)
      → x.1 ≤ n
      → ((s : Time) (k : ℕ) → Mem (s, k) m → k ≤ n)
      → (s : Time) (k : ℕ) → Mem (s, k) (x ∷ m)
      → k ≤ n
  Mem-bound x m n h all s k i =
      Or.elim le_prop (eq-or-mem_of_mem-cons i) (λ e. omega (arith, ap (λ y. y.1) e, h)) (all s k)

  most_voted-Leads :
      (m : List (Time × ℕ)) (out : Time) (max : ℕ)
      → Leads out max m (most_voted lib m out max).0 (most_voted lib m out max).1
  unfolding most_voted
  most_voted-Leads [] out max = record {
    from_entry = inl (refl, refl);
    at_least = omega arith;
    greatest = λ s k h. absurd (not-mem-nil h);
  }
  most_voted-Leads ((ts, n) ∷ m) out max = elim (Bool-cases (ltb max n)) [
    | inl t ↦ rw t (
        let r = most_voted-Leads m ts n in
        record {
          from_entry = elim r.from_entry [
            | inl e ↦
                inr (subst (λ x. Mem x ((ts, n) ∷ m)) (λ i. (sym e.0 i, sym e.1 i)) mem-cons_self)
            | inr i ↦ inr (mem-cons_of_mem (ts, n) i)
          ];
          at_least = ground (arith, t, r.at_least);
          greatest = Mem-bound (ts, n) m _ r.at_least r.greatest;
        })
    | inr f ↦ rw f (
        let r = most_voted-Leads m out max in
        record {
          from_entry = elim r.from_entry [
            | inl e ↦ inl e
            | inr i ↦ inr (mem-cons_of_mem (ts, n) i)
          ];
          at_least = r.at_least;
          greatest = Mem-bound (ts, n) m _ (ground (arith, r.at_least, f)) r.greatest;
        })
  ]

  votes-count :
      (t : Time) (ts : List Time) → length ts ≤ 255 → votes t (tally lib ts []) ≡ count t ts
  unfolding lookup
  votes-count t ts h = votes-tally t ts [] (λ s. omega (arith, h)) ∙ omega arith

  Mem-count :
      (ts : List Time)
      → length ts ≤ 255
      → (t : Time) (n : ℕ) → Mem (t, n) (tally lib ts [])
      → n ≡ count t ts
  Mem-count ts h t n i =
      sym (ap (votes_or_zero lib) (votes-Mem t n (tally lib ts []) (tally-IsUnique ts [] tt) i))
      ∙ votes-count t ts h

  count-Mem :
      (ts : List Time)
      → length ts ≤ 255
      → (t : Time) → 1 ≤ count t ts
      → Mem (t, count t ts) (tally lib ts [])
  count-Mem ts h t c = elim (Option-cases (lookup eq t (tally lib ts []))) [
    | inl n ↦ absurd (omega (arith, c, votes-count t ts h, ap (votes_or_zero lib) n))
    | inr (n, e) ↦
        let same_n : n ≡ count t ts = sym (ap (votes_or_zero lib) e) ∙ votes-count t ts h in
        rw (← same_n) (Mem-lookup t n (tally lib ts []) e)
  ]

  first-counts : (ts : List Time) → 1 ≤ length ts → (t : Time) × (1 ≤ count t ts)
  first-counts [] h = absurd (omega (arith, h))
  first-counts (t ∷ ts) h = (t, rw (same_refl t) (omega arith))

  elected :
      (es : List (Time × ℕ)) (ts : List Time) (out : Time) (max : ℕ)
      → length ts ≤ 255
      → 1 ≤ length ts
      → Perm es (tally lib ts [])
      → Leads zero_time 0 es out max
      → (1 ≤ count out ts) × ((t : Time) → count t ts ≤ count out ts)
  elected es ts out max fits some_vote p l =
      let most : (t : Time) → count t ts ≤ max = λ t. below t (count t ts) refl in
      let (t, c) = first-counts ts some_vote in
      elim l.from_entry [
        | inl (o, m) ↦ absurd (omega (arith, m, c, most t))
        | inr i ↦
            let held = Mem-count ts fits out max ((Perm.mem_iff p).0 i) in
            (omega (arith, held, c, most t), λ u. omega (arith, held, most u))
      ]
    where
      below : (t : Time) (n : ℕ) → n ≡ count t ts → n ≤ max
      below t zero e = omega arith
      below t (suc n) e =
          rw e (
            l.greatest t (count t ts) ((Perm.mem_iff p).1 (count-Mem ts fits t (omega (arith, e)))))

  length-map_boot :
      (samples : List (Sample lib)) → length (map (boot_time lib) samples) ≡ length samples
  length-map_boot [] = refl
  length-map_boot (s ∷ ss) = ap suc (length-map_boot ss)

  -- If the rounds are at most 255 and at least one, and Go iterates over the entries of the map in
  -- any order, `Estimate` returns a boot time that a round computed, and no other boot time was
  -- computed in more rounds: no counter wraps around.
  pub estimate-count :
      (order : List (Time × ℕ) → List (Time × ℕ)) (samples : List (Sample lib))
      → 1 ≤ length samples
      → length samples ≤ 255
      → Perm
          (order (tally lib (map (boot_time lib) samples) []))
          (tally lib (map (boot_time lib) samples) [])
      → (1 ≤ count (estimate lib order samples) (map (boot_time lib) samples))
        × ((t : Time)
            → count t (map (boot_time lib) samples)
              ≤ count (estimate lib order samples) (map (boot_time lib) samples))
  unfolding estimate
  estimate-count order samples some_round fits p =
      let ts = map (boot_time lib) samples in
      let es = order (tally lib ts []) in
      elected es ts (most_voted lib es zero_time 0).0 (most_voted lib es zero_time 0).1
        (omega (arith, fits, length-map_boot samples))
        (omega (arith, some_round, length-map_boot samples)) p (most_voted-Leads es zero_time 0)
