-- ===== src/Pipeline/Snapshot.antt =====
-- The copies of the pipeline's state that the API server asks for: GetSinks, ProbeStats and Stats
-- of internal/pipeline. A counter is read once; concurrent writers may come between two reads.
use conntracct.Prelude.{ℕ, List, Option, none, some, String, Go, ok, panic}
use conntracct.Bpf.Stats.{ConsumerStats, ProbeStats, zero_consumer_stats}
use conntracct.Bpf.Consumer.{Consumer, get_consumer}
use conntracct.Bpf.Probe
use conntracct.Bpf.Probe.{Probe}
use conntracct.Pipeline.{Pipeline}

-- What `Stats.Get` returns.
pub record PipelineReport : Type 0 where
  pub events_total : ℕ
  pub events_update : ℕ
  pub events_destroy : ℕ
  pub update_source_stats : Option ConsumerStats
  pub destroy_source_stats : Option ConsumerStats

found_stats : Option Consumer → ConsumerStats
found_stats none = zero_consumer_stats
found_stats (some c) = c.stats

-- The counters of a source that is set. The probe holds the consumer, since nothing removes it; a
-- source whose probe was never saved has counted nothing.
unfoldable pub source_stats : Option Probe → Option String → Option ConsumerStats
unfolding found_stats
source_stats probe none = none
source_stats none (some n) = some zero_consumer_stats
source_stats (some ap) (some n) = some (found_stats (get_consumer ap.consumers n))

module _ {Sink : Type 0} where
  abbrev pub get_sinks : Pipeline Sink → List Sink
  get_sinks p = p.sinks

  -- `ProbeStats` reads through the pointer to the probe.
  unfoldable pub probe_stats : Pipeline Sink → Go ProbeStats
  probe_stats p = elim p.probe [ none ↦ panic | some ap ↦ ok (Probe.probe_stats ap) ]

  unfoldable pub get_stats : Pipeline Sink → PipelineReport
  get_stats p = record {
    events_total = p.stats.events_total;
    events_update = p.stats.events_update;
    events_destroy = p.stats.events_destroy;
    update_source_stats = source_stats p.probe p.update_source;
    destroy_source_stats = source_stats p.probe p.destroy_source;
  }
