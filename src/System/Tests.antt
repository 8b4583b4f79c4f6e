-- ===== src/System/Tests.antt =====
-- The program with a stdout sink and an Influx sink.
use mathlib.Core.Path.{subst}
use conntracct.Prelude.{ℕ, ◌≡◌, refl, sym, ap, true, false, List, [], ◌∷◌, none, ok, All, arith}
use conntracct.Prelude.Int.{pos, ◌+ℤ◌}
use conntracct.Chan.{make}
use conntracct.Bpf.Event.{Event, little, zero_event}
use conntracct.Bpf.Event.Decode.{unmarshal_binary_error}
use conntracct.Bpf.Probe.{Probe, Module, new_probe}
use conntracct.Sinks.Types.{SinkConfig, named, influx_udp}
use conntracct.Sinks.Stdout.{StdOut}
use conntracct.Sinks.Stdout
use conntracct.Sinks.Influx.Plain.{plain_lib, plain_lib-Accepts}
use conntracct.Sinks.Influx.Setup.{set_up, set_up-Inv}
use conntracct.Sinks.Sink.{AnySink, OwnStep, prints, ticks, writes, std, influx, sink_ops}
use conntracct.Sinks.Sink.Steady.{IsStorable, IsSteady, IsSteady-Accepting}
use conntracct.Pipeline.{Pipeline, new}
use conntracct.System.{Act, Running, begun, delivers, takes, pushes, works, run}
use conntracct.System.Simulation.{decoded}
use conntracct.System.Steps.{IsFineAct}
use conntracct.System.Delivery.{Delivered, started, run-started}

abbrev printer : AnySink plain_lib
printer = std (record Stdout.new { is_init = true; config = named "out"; events = make 2 })

abbrev udp : SinkConfig
udp = record (named "udp") { sink_type = influx_udp; address = "localhost:8089"; batch_size = 2 }

abbrev batching : AnySink plain_lib
batching = influx (set_up plain_lib udp (pos 7))

abbrev two_sinks : Pipeline (AnySink plain_lib)
two_sinks = record new { sinks = printer ∷ batching ∷ [] }

abbrev probe : Probe
probe = new_probe ("kprobe/nf_conntrack_free" ∷ [])

abbrev willing : Module
willing = record { enable_kprobe = λ p. none; init_perf_map = λ s. none }

abbrev Good : AnySink plain_lib → Type 0
Good = IsSteady plain_lib plain_lib-Accepts (pos 7)

abbrev IsFine : Event → Type 0
IsFine = IsStorable (pos 7)

-- The two rounds overlap: the printer gets the update first, and the Influx sink the destroy event.
-- Its batch is full then, and its goroutine sends it.
abbrev acts : List (Act OwnStep)
acts =
    delivers true (2 ∷ []) false
    ∷ delivers false (1 ∷ []) true
    ∷ takes true
    ∷ takes false
    ∷ pushes true
    ∷ pushes false
    ∷ pushes false
    ∷ works 0 (prints (record { written = true; flushed = false }))
    ∷ pushes true
    ∷ works 1 ticks
    ∷ works 1 (writes true)
    ∷ []

zero_event-IsFine : IsFine zero_event
unfolding ◌+ℤ◌
zero_event-IsFine = omega arith

malformed-IsFine : (n : ℕ) → IsFine (decoded little (n ∷ []))
malformed-IsFine n =
    subst IsFine
      (sym (ap (λ x. x.0) ((unmarshal_binary_error little zero_event (n ∷ [])).1 (omega arith))))
      zero_event-IsFine

acts-IsFine : All (IsFineAct IsFine little) acts
acts-IsFine = (
  malformed-IsFine 2,
  (malformed-IsFine 1, (tt, (tt, (tt, (tt, (tt, (tt, (tt, (tt, (tt, tt)))))))))),
)

run-started_example :
    (r : Running (AnySink plain_lib)) × (run
        (sink_ops plain_lib)
        little
        acts
        (begun (started (sink_ops plain_lib) little IsFine Good probe willing two_sinks))
      ≡ ok r)
    × Delivered (sink_ops plain_lib) little IsFine Good acts two_sinks r
run-started_example =
    run-started (sink_ops plain_lib) little IsFine Good
      (IsSteady-Accepting plain_lib plain_lib-Accepts (pos 7)) acts acts-IsFine two_sinks probe
      willing refl refl refl refl refl
      (
        refl,
        (
          (
            record { sink = set_up plain_lib udp (pos 7); pushed = []; taken = [] },
            refl,
            refl,
            set_up-Inv plain_lib udp (pos 7),
          ),
          tt,
        ),
      )
