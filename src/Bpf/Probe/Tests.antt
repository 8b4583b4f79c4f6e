-- ===== src/Bpf/Probe/Tests.antt =====
-- A probe with two consumers, run on a few events.
use mathlib.Core.Option
use conntracct.Prelude.{
  ◌&&◌, if◌then◌else◌, ◌≡◌, refl, ◌↔◌, true, false, List, [], ◌∷◌, none, some, String, ok, panic,
  All, replicate, arith,
}
use conntracct.Chan.{make}
use conntracct.Bpf.Event.{little, zero_event}
use conntracct.Bpf.Consumer.{Consumer, new_consumer, get_consumer, want_update, want_destroy}
use conntracct.Bpf.Event.{incorrect_length}
use conntracct.Bpf.Probe.{
  unmarshaling, Module, Probe, Delivery, new_probe, start, stop, fanout_event, perf_worker,
  perf_round, probe_started, count_delivery, offer, ProbeError,
}
use conntracct.Bpf.Probe.Fanout.{
  IsOpen, offered, fanout_event_isolated, fanout_event_panics, has_closed_listener,
}
use conntracct.Bpf.Probe.Ledger.{
  Act, offers, takes, run, fresh, wanted, Kept, Ledger, act, run-new_consumer,
}
use conntracct.Bpf.Probe.Counters.{
  IsRunning, Counted, handled, perf_worker-Counted, perf_round_malformed,
}
use conntracct.Bpf.Probe.Lifecycle.{can_start, running, is_none, start_outcome, stop_leaves_started}

abbrev narrow : Consumer
narrow = new_consumer "narrow" (make 1) 1

abbrev all_events : Consumer
all_events = new_consumer "all" (make 8) 3

abbrev both : List Consumer
both = narrow ∷ all_events ∷ []

both-IsOpen : All IsOpen both
unfolding new_consumer
both-IsOpen = (refl, (refl, tt))

fanout_event_isolated_example :
    (ds : List Consumer) × (fanout_event zero_event true both ≡ ok ds)
    × ((n : String)
        → get_consumer ds n ≡ Option.map (offered zero_event true) (get_consumer both n))
    × All IsOpen ds
fanout_event_isolated_example = fanout_event_isolated zero_event true both both-IsOpen

abbrev hung_up : Consumer
hung_up = record narrow { events = record { made = true; closed = true; cap = 1; queue = [] } }

fanout_event_panics_example :
    (fanout_event zero_event true (all_events ∷ hung_up ∷ []) ≡ panic)
    ↔ (has_closed_listener true (all_events ∷ hung_up ∷ []) ≡ true)
fanout_event_panics_example = fanout_event_panics zero_event true (all_events ∷ hung_up ∷ [])

abbrev acts : List Act
acts =
    offers zero_event true
    ∷ offers zero_event true
    ∷ takes
    ∷ offers zero_event false
    ∷ offers zero_event true
    ∷ []

-- Of three updates one is lost, and one has been read.
acts-run :
    (m : Ledger) × (run acts (fresh "narrow" 1 1) ≡ ok m)
    × (m.log ≡ zero_event ∷ [])
    × (m.consumer.stats.events_lost ≡ 1)
unfolding run act offer new_consumer want_update want_destroy
acts-run = (_, refl, refl, refl)

run-new_consumer_example :
    (m : Ledger) × (run acts (fresh "narrow" 1 1) ≡ ok m)
    × Kept (new_consumer "narrow" (make 1) 1) (wanted (new_consumer "narrow" (make 1) 1) acts) m
run-new_consumer_example = run-new_consumer "narrow" 1 1 acts

abbrev idle : Probe
idle = record (new_probe ("kprobe/nf_conntrack_free" ∷ [])) { consumers = both }

idle-IsRunning : IsRunning idle
idle-IsRunning = record { consumers_open = both-IsOpen; errors_open = refl }

abbrev deliveries : List Delivery
deliveries =
    record { update = true; payload = some (replicate 104 0); receiver = false }
    ∷ record { update = false; payload = some (1 ∷ []); receiver = true }
    ∷ record { update = false; payload = none; receiver = true }
    ∷ []

perf_worker-Counted_example :
    (q : Probe) × (perf_worker little deliveries idle ≡ ok q)
    × IsRunning q
    × Counted (handled deliveries) idle.stats q.stats
perf_worker-Counted_example = perf_worker-Counted little deliveries idle idle-IsRunning

perf_round_malformed_example :
    (cs : List Consumer) × (fanout_event zero_event true both ≡ ok cs)
    × (perf_round little (record { update = true; payload = some (7 ∷ []); receiver = true }) idle
        ≡ ok (
          record idle {
            stats = count_delivery true idle.stats;
            consumers = cs;
            reported =
                if idle.err_chan.made && true
                then unmarshaling (incorrect_length 1) ∷ []
                else idle.reported;
          },
          true,
        ))
perf_round_malformed_example =
    perf_round_malformed little true true (7 ∷ []) idle idle-IsRunning (omega arith)

abbrev willing : Module
willing = record { enable_kprobe = λ p. none; init_perf_map = λ s. none }

start_outcome_example :
    (idle.started ≡ true → start willing idle ≡ (idle, some probe_started))
    × (idle.started ≡ false
        → can_start willing idle ≡ true
        → start willing idle ≡ (running idle, none))
    × (idle.started ≡ false
        → can_start willing idle ≡ false
        → (is_none (start willing idle).1 ≡ false)
          × ((start willing idle).0.started ≡ false)
          × ((start willing idle).0.workers ≡ idle.workers))
start_outcome_example = start_outcome willing idle

stop_leaves_started_example :
    (q : Probe) × (stop none (start willing idle).0 ≡ ok (q, none))
    × (start willing q ≡ (q, some probe_started))
    × (stop none q ≡ panic)
    × ((e : String) → stop (some e) q ≡ ok (q, some (ProbeError.module_close e)))
stop_leaves_started_example = stop_leaves_started willing willing idle refl refl
