-- ===== src/System/Histories.antt =====
-- What one sink goes through: the events that the workers reach it with, and its own steps.
use mathlib.Core.Path.{subst}
use mathlib.Core.List.{append_assoc, append-nil}
use conntracct.Prelude.{
  ℕ, suc, ◌-◌, ◌≤◌, ◌≡◌, refl, sym, ap, ◌∙◌, ◌⊎◌, inl, inr, Bool, true, false, List, [], ◌∷◌, ◌++◌,
  Go, ok, waits, ◌>>=◌, bind_ok, All, length, ◌==◌, arith, if◌then◌else◌, Bool-cases,
}
use conntracct.Bpf.Event.{Event}
use conntracct.Sinks.Sink.{SinkOps}
use conntracct.System.{Worker, receiving, pushing, push_wanted, at_sink}

pub data SinkStep (Own : Type 0) : Type 0 where
  gets : Bool → Event → SinkStep Own
  does : Own → SinkStep Own

-- The events of one kind (`true` for updates) in a history.
abbrev pub given_by : {Own : Type 0} → Bool → SinkStep Own → List Event
given_by true (gets true ae) = ae ∷ []
given_by true (gets false ae) = []
given_by false (gets true ae) = []
given_by false (gets false ae) = ae ∷ []
given_by u (does o) = []

abbrev pub given : {Own : Type 0} → Bool → List (SinkStep Own) → List Event
given u [] = []
given u (x ∷ h) = given_by u x ++ given u h

-- Of the events that reach a sink, and of the one that a worker brings, something may be known.
abbrev pub IsFineStep : {Own : Type 0} → (Event → Type 0) → SinkStep Own → Type 0
IsFineStep IsFine (gets u ae) = IsFine ae
IsFineStep IsFine (does o) = Unit {0}

abbrev pub IsFineWorker : (Event → Type 0) → Worker → Type 0
IsFineWorker IsFine receiving = Unit {0}
IsFineWorker IsFine (pushing ae n) = IsFine ae

-- What a worker still has for the sink at the head of a list, and where it stands for the tail.
abbrev pub pending : Worker → List Event
pending receiving = []
pending (pushing ae n) = if n == 0 then ae ∷ [] else []

abbrev pub beyond : Worker → Worker
beyond receiving = receiving
beyond (pushing ae n) = pushing ae (n - 1)

-- Every sink was reached with the events that a worker took, in their order, but for the one event
-- that the worker has still to bring to it.
abbrev pub Given : {Own : Type 0} → Bool → List Event → Worker → List (List (SinkStep Own)) → Type 0
Given u log w [] = Unit {0}
Given u log w (h ∷ hs) = (given u h ++ pending w ≡ log) × Given u log (beyond w) hs

abbrev pub extend :
    {Own : Type 0} → SinkStep Own → ℕ → List (List (SinkStep Own)) → List (List (SinkStep Own))
extend x n [] = []
extend x n (h ∷ hs) =
    let rest = extend x (n - 1) hs in if n == 0 then (h ++ (x ∷ [])) ∷ hs else h ∷ rest

module _ {Own : Type 0} where
  given-append : (u : Bool) (h k : List (SinkStep Own)) → given u (h ++ k) ≡ given u h ++ given u k
  given-append u [] k = refl
  given-append u (x ∷ h) k =
      ap (λ z. given_by u x ++ z) (given-append u h k)
      ∙ sym (append_assoc (given_by u x) (given u h) (given u k))

  given_snoc :
      (u : Bool) (h : List (SinkStep Own)) (x : SinkStep Own)
      → given u (h ++ (x ∷ [])) ≡ given u h ++ given_by u x
  given_snoc u h x =
      given-append u h (x ∷ []) ∙ ap (λ z. given u h ++ z) (append-nil (given_by u x))

  -- Before the first event.
  pub Given-begun :
      (u : Bool) (hs : List (List (SinkStep Own))) → All (λ h. h ≡ []) hs → Given u [] receiving hs
  Given-begun u [] e = tt
  Given-begun u (h ∷ hs) e = (ap (λ z. given u z ++ []) e.0, Given-begun u hs e.1)

  -- The worker takes an event.
  pub Given-taken :
      (u : Bool) (ae : Event) (log : List Event) (hs : List (List (SinkStep Own)))
      → Given u log receiving hs
      → Given u (log ++ (ae ∷ [])) (pushing ae 0) hs
  Given-taken u ae log [] g = tt
  Given-taken u ae log (h ∷ hs) g =
      (ap (λ z. z ++ (ae ∷ [])) (sym (append-nil (given u h)) ∙ g.0), Given-taken u ae log hs g.1)

  -- The worker has passed every sink.
  pub Given-passed :
      (u : Bool) (ae : Event) (n : ℕ) (log : List Event) (hs : List (List (SinkStep Own)))
      → length hs ≤ n
      → Given u log (pushing ae n) hs
      → Given u log receiving hs
  Given-passed u ae n log [] le g = tt
  Given-passed u ae n log (h ∷ hs) le g =
      let later : (n == 0) ≡ false = ground (arith, le) in
      (
        ap (λ (b : Bool). given u h ++ (if b then ae ∷ [] else [])) (sym later) ∙ g.0,
        Given-passed u ae (n - 1) log hs (omega (arith, le)) g.1,
      )

  -- The event reaches the sink where the worker stands.
  pub Given-pushed :
      (u : Bool) (ae : Event) (n : ℕ) (log : List Event) (hs : List (List (SinkStep Own)))
      → (let x : SinkStep Own = gets u ae in given_by u x ≡ ae ∷ [])
      → Given u log (pushing ae n) hs
      → Given u log (pushing ae (suc n)) (extend (gets u ae) n hs)
  Given-pushed u ae n log [] e g = tt
  Given-pushed u ae n log (h ∷ hs) e g = elim (Bool-cases (n == 0)) [
    | inl z ↦
        let here : n ≡ 0 = ground (arith, z) in
        rw here (
          append-nil (given u (h ++ (gets u ae ∷ [])))
              ∙ (given_snoc u h (gets u ae) ∙ (ap (λ q. given u h ++ q) e ∙ (rw here at g.0))),
          rw here at g.1,
        )
    | inr f ↦
        let same : suc (n - 1) ≡ suc n - 1 = ground (arith, f) in
        let later : (suc n == 0) ≡ (n == 0) = ground (arith, f) in
        rw f (
          ap (λ (b : Bool). given u h ++ (if b then ae ∷ [] else [])) later ∙ g.0,
          subst (λ m. Given u log (pushing ae m) (extend (gets u ae) (n - 1) hs)) same
              (Given-pushed u ae (n - 1) log hs e g.1),
        )
  ]

  -- A step of a sink that is no event of this kind.
  pub Given-other :
      (u : Bool) (x : SinkStep Own) (n : ℕ) (log : List Event) (w : Worker)
      (hs : List (List (SinkStep Own)))
      → given_by u x ≡ []
      → Given u log w hs
      → Given u log w (extend x n hs)
  Given-other u x n log w [] e g = tt
  Given-other u x n log w (h ∷ hs) e g = elim (Bool-cases (n == 0)) [
    | inl z ↦ rw z (
      ap (λ q. q ++ pending w)
            (given_snoc u h x ∙ (ap (λ q. given u h ++ q) e ∙ append-nil (given u h)))
          ∙ g.0,
      g.1,
    )
    | inr f ↦ rw f (g.0, Given-other u x (n - 1) log (beyond w) hs e g.1)
  ]

module _ (ops : SinkOps) where
  open ops use {Sink, Own, push, own}

  abbrev pub sink_step : SinkStep Own → Sink → Go Sink
  sink_step (gets u ae) s = push_wanted ops u ae s
  sink_step (does o) s = own o s

  -- One sink by itself, through a history.
  unfoldable pub feed : List (SinkStep Own) → Sink → Go Sink
  feed [] s = ok s
  feed (x ∷ h) s = sink_step x s >>= feed h

  -- Every sink, taken by itself through its history, ends as the one at its place.
  abbrev pub Fed : List (List (SinkStep Own)) → List Sink → List Sink → Type 0
  Fed [] [] [] = Unit {0}
  Fed [] [] (t ∷ ts) = ⊥
  Fed [] (s ∷ ss) ts = ⊥
  Fed (h ∷ hs) [] ts = ⊥
  Fed (h ∷ hs) (s ∷ ss) [] = ⊥
  Fed (h ∷ hs) (s ∷ ss) (t ∷ ts) = (feed h s ≡ ok t) × Fed hs ss ts

  -- What sinks in a good state promise: any of the events that reach them they take and stay in a
  -- good state, or it waits for their lock, and so for their own steps.
  pub record Accepting (IsFine : Event → Type 0) (Good : Sink → Type 0) : Type 0 where
    pub accepts :
        (x : SinkStep Own) (s : Sink)
        → IsFineStep IsFine x
        → Good s
        → (sink_step x s ≡ waits) ⊎ ((t : Sink) × (sink_step x s ≡ ok t) × Good t)

  ok_inj : (s t : Sink) → ◌≡◌ {A = Go Sink} (ok s) (ok t) → s ≡ t
  ok_inj s t h = cc

  feed_snoc :
      (h : List (SinkStep Own)) (x : SinkStep Own) (s t u : Sink)
      → feed h s ≡ ok t
      → sink_step x t ≡ ok u
      → feed (h ++ (x ∷ [])) s ≡ ok u
  unfolding feed
  feed_snoc [] x s t u e k = ap (λ z. sink_step x z >>= feed []) (ok_inj s t e) ∙ rw k
  feed_snoc (y ∷ h) x s t u e k =
      let (m, first, later) = bind_ok (sink_step y s) (feed h) t e in
      rw first (feed_snoc h x m t u later k)

  pub begin : List Sink → List (List (SinkStep Own))
  begin [] = []
  begin (s ∷ ss) = [] ∷ begin ss

  pub begin-Fed :
      (ss : List Sink) → Fed (begin ss) ss ss × All (λ (h : List (SinkStep Own)). h ≡ []) (begin ss)
  unfolding begin feed
  begin-Fed [] = (tt, tt)
  begin-Fed (s ∷ ss) = let (fed, empty) = begin-Fed ss in ((refl, fed), (refl, empty))

  pub Fed-length :
      (hs : List (List (SinkStep Own))) (ss ts : List Sink) → Fed hs ss ts → length hs ≡ length ts
  Fed-length [] [] [] f = refl
  Fed-length [] [] (t ∷ ts) f = absurd f
  Fed-length [] (s ∷ ss) ts f = absurd f
  Fed-length (h ∷ hs) [] ts f = absurd f
  Fed-length (h ∷ hs) (s ∷ ss) [] f = absurd f
  Fed-length (h ∷ hs) (s ∷ ss) (t ∷ ts) f = omega (arith, Fed-length hs ss ts f.1)

  -- A step at one of the sinks waits, or it is taken and stands at the end of that sink's history.
  pub at_sink-Fed :
      (IsFine : Event → Type 0) (Good : Sink → Type 0)
      → Accepting IsFine Good
      → (x : SinkStep Own) → IsFineStep IsFine x
      → (n : ℕ) (hs : List (List (SinkStep Own))) (ss ts : List Sink) → Fed hs ss ts
      → All Good ts
      → (at_sink ops (sink_step x) n ts ≡ waits)
        ⊎ ((us : List Sink) × (at_sink ops (sink_step x) n ts ≡ ok us)
            × Fed (extend x n hs) ss us
            × All Good us)
  unfolding at_sink
  at_sink-Fed IsFine Good laws x fine n [] [] [] f g = inr ([], refl, tt, tt)
  at_sink-Fed IsFine Good laws x fine n [] [] (t ∷ ts) f g = absurd f
  at_sink-Fed IsFine Good laws x fine n [] (s ∷ ss) ts f g = absurd f
  at_sink-Fed IsFine Good laws x fine n (h ∷ hs) [] ts f g = absurd f
  at_sink-Fed IsFine Good laws x fine n (h ∷ hs) (s ∷ ss) [] f g = absurd f
  at_sink-Fed IsFine Good laws x fine n (h ∷ hs) (s ∷ ss) (t ∷ ts) f g =
      elim (Bool-cases (n == 0)) [
        | inl z ↦ elim (laws.accepts x t fine g.0) [
          | inl w ↦ inl (rw (z, w))
          | inr (u, done, kept) ↦
              inr (u ∷ ts, rw (z, done), rw z (feed_snoc h x s t u f.0 done, f.1), (kept, g.1))
        ]
        | inr l ↦ elim (at_sink-Fed IsFine Good laws x fine (n - 1) hs ss ts f.1 g.1) [
          | inl w ↦ inl (rw (l, w))
          | inr (us, done, fed, good) ↦ inr (t ∷ us, rw (l, done), rw l (f.0, fed), (g.0, good))
        ]
      ]
