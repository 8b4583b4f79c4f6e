-- ===== src/Sinks/Sink/Steady.antt =====
-- All sinks of internal/sinks that `New` makes, with Influx sinks in their invariant.
use mathlib.Core.Path.{subst}
use conntracct.Prelude.{
  ◌≡◌, ◌⊎◌, refl, sym, ap, ◌∙◌, Bool, true, false, Go, ok, waits, ◌>>=◌, bind_ok, inl, inr,
  if◌then◌else◌, Bool-cases,
}
use conntracct.Prelude.Int.{ℤ, ◌+ℤ◌, int64}
use conntracct.Bpf.Event.{Event}
use conntracct.Sinks.Influx
use conntracct.Sinks.Influx.{InfluxSink, InfluxLib}
use conntracct.Sinks.Influx.Flow.{Flow, Inv, Accepts, IsTime, IsTimely, act}
use conntracct.Sinks.Influx.Flow
use conntracct.Sinks.Influx.Flow.Interleaving.{act-Inv, act-boot_time}
use conntracct.Sinks.Sink.{
  AnySink, OwnStep, prints, ticks, writes, resumes, influx, std, idle, sink_ops, sink_push,
  sink_own, influx_own,
}
use conntracct.Sinks.Sink.Direct.{IsDirect, IsDirect-Accepting}
use conntracct.System.Histories.{SinkStep, gets, does, sink_step, IsFineStep, Accepting}

-- The event has a time that Influx can store, on a machine that booted then.
abbrev pub IsStorable : ℤ → Event → Type 0
IsStorable boot ae = IsTime (boot +ℤ int64 ae.timestamp)

-- Which branch a test takes.
if-true : {A : Type 0} (b : Bool) (x y : A) → b ≡ true → (if b then x else y) ≡ x
if-true b x y h = ap (λ c. if c then x else y) h

if-false : {A : Type 0} (b : Bool) (x y : A) → b ≡ false → (if b then x else y) ≡ y
if-false b x y h = ap (λ c. if c then x else y) h

module _ (lib : InfluxLib) (laws : Accepts lib) (boot : ℤ) where
  -- An Influx sink with a history in which its invariant holds, or one of the other sinks.
  abbrev pub IsSteady : AnySink lib → Type 0
  IsSteady (influx s) = (f : Flow lib) × (f.sink ≡ s) × (f.sink.boot_time ≡ boot) × Inv lib f
  IsSteady (std s) = IsDirect lib (std s)
  IsSteady (idle d) = IsDirect lib (idle d)

  flow_inj : (f g : Flow lib) → ◌≡◌ {A = Go (Flow lib)} (ok f) (ok g) → f ≡ g
  flow_inj f g h = cc

  -- An operation of the sink that a step of its history runs.
  ran :
      (r : Go (InfluxSink lib.Point)) (put : InfluxSink lib.Point → Flow lib) (g : Flow lib)
      → ((s : InfluxSink lib.Point) → (put s).sink ≡ s)
      → (r >>= λ s. ok (put s)) ≡ ok g
      → r ≡ ok g.sink
  ran r put g same h =
      let (s, first, last) = bind_ok r (λ s. ok (put s)) g h in
      first ∙ ap ok (sym (same s) ∙ ap (λ (x : Flow lib). x.sink) (flow_inj (put s) g last))

  abbrev Taken : Go (AnySink lib) → Type 0
  Taken r = (r ≡ waits) ⊎ ((t : AnySink lib) × (r ≡ ok t) × IsSteady t)

  -- A step of the history that leaves this flow.
  left_by :
      (a : Flow.Act) (f g : Flow lib) (r : Go (InfluxSink lib.Point))
      → f.sink.boot_time ≡ boot
      → act lib a f ≡ ok g
      → Inv lib g
      → r ≡ ok g.sink
      → Taken (r >>= λ t. ok (influx t))
  left_by a f g r b done i e = inr (
    influx g.sink,
    ap (λ x. x >>= λ t. ok (influx t)) e,
    (g, refl, act-boot_time lib a f g done ∙ b, i),
  )

  push-Taken :
      (ae : Event) (f : Flow lib)
      → IsStorable boot ae
      → f.sink.boot_time ≡ boot
      → Inv lib f
      → Taken (sink_push lib ae (influx f.sink))
  unfolding sink_push act
  push-Taken ae f time b i = elim (Bool-cases f.sink.waiting) [
    | inl w ↦ inl (rw w)
    | inr w ↦
        let timely = subst (λ x. IsTime (x +ℤ int64 ae.timestamp)) (sym b) time in
        let (g, done, i') = act-Inv lib laws (Flow.pushes ae) f timely i in
        subst Taken (sym (if-false f.sink.waiting _ _ w)) (
          left_by (Flow.pushes ae) f g (Influx.push lib ae f.sink) b done i'
            (ran _ _ g (λ s. refl) (sym (if-false f.sink.waiting _ _ w) ∙ done)))
  ]

  own-Taken :
      (o : OwnStep) (f : Flow lib)
      → f.sink.boot_time ≡ boot
      → Inv lib f
      → Taken (influx_own lib o f.sink >>= λ t. ok (influx t))
  unfolding influx_own act
  own-Taken (prints w) f b i = inr (influx f.sink, refl, (f, refl, b, i))
  own-Taken ticks f b i = elim (Bool-cases f.sink.waiting) [
    | inl w ↦ inl (rw w)
    | inr w ↦
        let (g, done, i') = act-Inv lib laws Flow.ticks f tt i in
        subst (λ r. Taken (r >>= λ t. ok (influx t))) (sym (if-false f.sink.waiting _ _ w))
          (left_by Flow.ticks f g (Influx.tick lib f.sink) b done i'
            (ran _ _ g (λ s. refl) (sym (if-false f.sink.waiting _ _ w) ∙ done)))
  ]
  own-Taken (writes written) f b i =
      let (g, done, i') = act-Inv lib laws (Flow.writes written) f tt i in
      left_by (Flow.writes written) f g _ b done i'
        (ap (λ (x : Flow lib). ok x.sink) (flow_inj _ g done))
  own-Taken resumes f b i = elim (Bool-cases f.sink.waiting) [
    | inl w ↦
        let (g, done, i') = act-Inv lib laws Flow.resumes f tt i in
        subst (λ r. Taken (r >>= λ t. ok (influx t))) (sym (if-true f.sink.waiting _ _ w))
          (left_by Flow.resumes f g (Influx.flush lib f.sink) b done i'
            (ran _ _ g (λ s. refl) (sym (if-true f.sink.waiting _ _ w) ∙ done)))
    | inr w ↦
        subst (λ r. Taken (r >>= λ t. ok (influx t))) (sym (if-false f.sink.waiting _ _ w))
          (inr (influx f.sink, refl, (f, refl, b, i)))
  ]

  accepts-influx :
      (x : SinkStep OwnStep) (f : Flow lib)
      → IsFineStep (IsStorable boot) x
      → f.sink.boot_time ≡ boot
      → Inv lib f
      → Taken (sink_step (sink_ops lib) x (influx f.sink))
  unfolding sink_own
  accepts-influx (gets true ae) f time b i = push-Taken ae f time b i
  accepts-influx (gets false ae) f time b i = push-Taken ae f time b i
  accepts-influx (does o) f time b i = own-Taken o f b i

  direct-Taken :
      (x : SinkStep OwnStep) (s : AnySink lib)
      → IsDirect lib s
      → Taken (sink_step (sink_ops lib) x s)
  direct-Taken x s g = elim ((IsDirect-Accepting lib).accepts x s (trivially x) g) [
    | inl w ↦ inl w
    | inr (t, done, still) ↦ inr (t, done, steady t still)
  ]
    where
      trivially : (y : SinkStep OwnStep) → IsFineStep (λ ae. Unit {0}) y
      trivially (gets u ae) = tt
      trivially (does o) = tt

      steady : (t : AnySink lib) → IsDirect lib t → IsSteady t
      steady (influx u) d = absurd d
      steady (std u) d = d
      steady (idle u) d = d

  accepts-IsSteady :
      (x : SinkStep OwnStep) (s : AnySink lib)
      → IsFineStep (IsStorable boot) x
      → IsSteady s
      → Taken (sink_step (sink_ops lib) x s)
  accepts-IsSteady x (influx s) fine (f, same, b, i) =
      subst (λ u. Taken (sink_step (sink_ops lib) x (influx u))) same (accepts-influx x f fine b i)
  accepts-IsSteady x (std s) fine g = direct-Taken x (std s) g
  accepts-IsSteady x (idle d) fine g = direct-Taken x (idle d) g

  -- Every sink takes every event with a time that Influx can store, or lets it wait for its lock,
  -- and stays steady.
  pub IsSteady-Accepting : Accepting (sink_ops lib) (IsStorable boot) IsSteady
  IsSteady-Accepting = record { accepts = accepts-IsSteady }
