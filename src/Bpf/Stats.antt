-- ===== src/Bpf/Stats.antt =====
-- pkg/bpf/consumer_stats.go and pkg/bpf/probe_stats.go: the counters, each an atomic uint64 that
-- wraps. A method returns the new counters.
use conntracct.Prelude.{ℕ, add_u64, u64}
use conntracct.Bpf.Event.{event_length}

pub record ConsumerStats : Type 0 where
  pub events_received : ℕ
  pub events_lost : ℕ
  pub event_queue_length : ℕ

abbrev pub zero_consumer_stats : ConsumerStats
zero_consumer_stats = record { events_received = 0; events_lost = 0; event_queue_length = 0 }

abbrev pub incr_events_received : ConsumerStats → ConsumerStats
incr_events_received s = record s { events_received = add_u64 s.events_received 1 }

abbrev pub incr_events_lost : ConsumerStats → ConsumerStats
incr_events_lost s = record s { events_lost = add_u64 s.events_lost 1 }

abbrev pub set_queue_length : ConsumerStats → ℕ → ConsumerStats
set_queue_length s l = record s { event_queue_length = u64 l }

pub record ProbeStats : Type 0 where
  pub perf_events_total : ℕ
  pub perf_bytes_total : ℕ
  pub perf_events_lost : ℕ
  pub perf_events_update : ℕ
  pub perf_events_destroy : ℕ

abbrev pub zero_probe_stats : ProbeStats
zero_probe_stats = record {
  perf_events_total = 0;
  perf_bytes_total = 0;
  perf_events_lost = 0;
  perf_events_update = 0;
  perf_events_destroy = 0;
}

abbrev pub incr_perf_events_total : ProbeStats → ProbeStats
incr_perf_events_total s = record s {
  perf_events_total = add_u64 s.perf_events_total 1;
  perf_bytes_total = add_u64 s.perf_bytes_total event_length;
}

abbrev pub incr_perf_events_update : ProbeStats → ProbeStats
incr_perf_events_update s =
    incr_perf_events_total (record s { perf_events_update = add_u64 s.perf_events_update 1 })

abbrev pub incr_perf_events_destroy : ProbeStats → ProbeStats
incr_perf_events_destroy s =
    incr_perf_events_total (record s { perf_events_destroy = add_u64 s.perf_events_destroy 1 })

abbrev pub incr_perf_events_lost : ProbeStats → ProbeStats
incr_perf_events_lost s = record s { perf_events_lost = add_u64 s.perf_events_lost 1 }

-- `Get` loads one counter after the other, while others write. The argument is what each load finds.
abbrev pub get_consumer_stats : (ℕ → ConsumerStats) → ConsumerStats
get_consumer_stats at_load = record {
  events_received = (at_load 0).events_received;
  events_lost = (at_load 1).events_lost;
  event_queue_length = (at_load 2).event_queue_length;
}

abbrev pub get_probe_stats : (ℕ → ProbeStats) → ProbeStats
get_probe_stats at_load = record {
  perf_events_total = (at_load 0).perf_events_total;
  perf_bytes_total = (at_load 1).perf_bytes_total;
  perf_events_lost = (at_load 2).perf_events_lost;
  perf_events_update = (at_load 3).perf_events_update;
  perf_events_destroy = (at_load 4).perf_events_destroy;
}
