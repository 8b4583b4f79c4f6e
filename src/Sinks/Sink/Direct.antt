-- ===== src/Sinks/Sink/Direct.antt =====
-- The sinks that take every event at once: stdout, stderr and dummy.
use mathlib.Core.Path.{subst}
use conntracct.Prelude.{
  ◌≡◌, ◌⊎◌, refl, true, false, Bool-cases, waits, Option, none, some, Go, ok, ◌>>=◌, inl, inr, ◌==◌,
  ◌||◌, arith, ap, sym, ◌∙◌,
}
use conntracct.Prelude.Int.{ℤ}
use conntracct.Bpf.Event.{Event}
use conntracct.Sinks.Types.{SinkConfig, dummy, std_out, std_err, influx_udp, influx_http}
use conntracct.Sinks.Dummy
use conntracct.Sinks.Dummy.{Dummy}
use conntracct.Sinks.Stdout
use conntracct.Sinks.Stdout.{StdOut, StdoutError}
use conntracct.Sinks.Stdout.Ledger.{push-open, out_round-closed}
use conntracct.Sinks.Influx.{InfluxLib}
use conntracct.Sinks.Influx.Setup.{Server}
use conntracct.Sinks.Sink.{
  OwnStep, prints, ticks, writes, resumes, sink_own, stdout_own, AnySink, SinkError, influx, std,
  idle, sink_ops, sink_push, new_sink, from_stdout,
}
use conntracct.System.{want}
use conntracct.System.Histories.{IsFineStep, SinkStep, gets, does, sink_step, Accepting}

-- The configurations of one of the three types.
abbrev pub IsSimple : SinkConfig → Type 0
IsSimple cfg = (cfg.sink_type ≡ std_out) ⊎ (cfg.sink_type ≡ std_err) ⊎ (cfg.sink_type ≡ dummy)

module _ (lib : InfluxLib) where
  -- A stdout sink with an open channel, or a dummy sink.
  abbrev pub IsDirect : AnySink lib → Type 0
  IsDirect (influx s) = ⊥
  IsDirect (std s) = s.events.closed ≡ false
  IsDirect (idle d) = Unit {0}

  push-IsDirect :
      (ae : Event) (s : AnySink lib)
      → IsDirect s
      → (t : AnySink lib) × (sink_push lib ae s ≡ ok t) × IsDirect t
  push-IsDirect ae (influx s) g = absurd g
  push-IsDirect ae (std s) g =
      let (t, done, still) = push-open ae s g in
      (std t, unfold sink_push in ap (λ r. r >>= λ u. ok (std u)) done, still)
  push-IsDirect ae (idle d) g = (idle (Dummy.push ae d), unfold sink_push in refl, tt)

  own-IsDirect :
      (o : OwnStep) (s : AnySink lib)
      → IsDirect s
      → (t : AnySink lib) × (sink_own lib o s ≡ ok t) × IsDirect t
  unfolding sink_own stdout_own
  own-IsDirect o (influx s) g = absurd g
  own-IsDirect (prints w) (std s) g =
      (std (Stdout.out_round w s).0, refl, out_round-closed w s s.events.queue refl ∙ g)
  own-IsDirect ticks (std s) g = (std s, refl, g)
  own-IsDirect (writes written) (std s) g = (std s, refl, g)
  own-IsDirect resumes (std s) g = (std s, refl, g)
  own-IsDirect o (idle d) g = (idle d, refl, tt)

  accepts-IsDirect :
      (x : SinkStep OwnStep) (s : AnySink lib)
      → IsFineStep (λ ae. Unit {0}) x
      → IsDirect s
      → (sink_step (sink_ops lib) x s ≡ waits)
        ⊎ ((t : AnySink lib) × (sink_step (sink_ops lib) x s ≡ ok t) × IsDirect t)
  accepts-IsDirect (does o) s fine g = inr (own-IsDirect o s g)
  accepts-IsDirect (gets u ae) s fine g = elim (Bool-cases (want (sink_ops lib) u s)) [
    | inl y ↦ let (t, done, still) = push-IsDirect ae s g in inr (t, rw (y, done), still)
    | inr n ↦ inr (s, rw n, g)
  ]

  pub IsDirect-Accepting : Accepting (sink_ops lib) (λ ae. Unit {0}) IsDirect
  IsDirect-Accepting = record { accepts = accepts-IsDirect }

  init-closed : (cfg : SinkConfig) → (Stdout.init cfg Stdout.new).0.events.closed ≡ false
  unfolding Stdout.init
  init-closed cfg = ground arith

  std_inj :
      (t : StdOut) (s : AnySink lib)
      → ◌≡◌ {A = Go (SinkError ⊎ AnySink lib)} (ok (inr (std t))) (ok (inr s))
      → std t ≡ s
  std_inj t s h = cc

  idle_inj :
      (d : Dummy) (s : AnySink lib)
      → ◌≡◌ {A = Go (SinkError ⊎ AnySink lib)} (ok (inr (idle d))) (ok (inr s))
      → idle d ≡ s
  idle_inj d s h = cc

  from_stdout-IsDirect :
      (t : StdOut) (o : Option StdoutError) (s : AnySink lib)
      → t.events.closed ≡ false
      → from_stdout t o ≡ ok (inr s)
      → IsDirect s
  unfolding from_stdout
  from_stdout-IsDirect t none s c h = subst IsDirect (std_inj t s h) c
  from_stdout-IsDirect t (some e) s c h = cc

  std_made :
      (server : Server) (boot : ℤ) (cfg : SinkConfig)
      → ((cfg.sink_type == influx_udp) || (cfg.sink_type == influx_http)) ≡ false
      → ((cfg.sink_type == std_out) || (cfg.sink_type == std_err)) ≡ true
      → new_sink lib server boot cfg
        ≡ from_stdout (Stdout.init cfg Stdout.new).0 (Stdout.init cfg Stdout.new).1
  unfolding new_sink
  std_made server boot cfg f t = rw (f, t)

  -- `New` makes such a sink of such a configuration.
  pub new_sink-IsDirect :
      (server : Server) (boot : ℤ) (cfg : SinkConfig) (s : AnySink lib)
      → IsSimple cfg
      → new_sink lib server boot cfg ≡ ok (inr s)
      → IsDirect s
  unfolding new_sink
  new_sink-IsDirect server boot cfg s (inl o) n =
      from_stdout-IsDirect _ _ s (init-closed cfg)
        (sym (std_made server boot cfg (ground (arith, o)) (ground (arith, o))) ∙ n)
  new_sink-IsDirect server boot cfg s (inr (inl e)) n =
      from_stdout-IsDirect _ _ s (init-closed cfg)
        (sym (std_made server boot cfg (ground (arith, e)) (ground (arith, e))) ∙ n)
  new_sink-IsDirect server boot cfg s (inr (inr d)) n = subst IsDirect (idle_inj _ s (rw d at n)) tt
