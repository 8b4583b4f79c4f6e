-- ===== src/Pipeline.antt =====
-- internal/pipeline: the sources, the sinks, and the workers between them.
pub mod Setup
pub mod Sinks
pub mod Snapshot
pub mod Warnings
mod Tests
use conntracct.Prelude.{
  ℕ, ◌≡◌, refl, Bool, true, false, not, List, [], ◌∷◌, ◌++◌, Option, none, some, String, Go, ok,
  panic, ◌>>=◌, ◌⊎◌, inl, inr, add_u64, if◌then◌else◌,
}
use conntracct.Chan.{make}
use conntracct.Bpf.Event.{Event}
use conntracct.Bpf.Stats.{ConsumerStats, ProbeStats}
use conntracct.Bpf.Consumer.{
  Consumer, ConsumerError, new_consumer, register_consumer, get_consumer, consumer_update,
  consumer_destroy,
}
use conntracct.Bpf.Probe
use conntracct.Bpf.Probe.{Probe, ProbeError, Module}
use conntracct.Sinks.Sink.{SinkOps}

-- The two pointers to source counters are read through the probe's consumers, see `Snapshot`.
pub record PipelineStats : Type 0 where
  pub events_total : ℕ
  pub events_update : ℕ
  pub events_destroy : ℕ

abbrev pub zero_stats : PipelineStats
zero_stats = record { events_total = 0; events_update = 0; events_destroy = 0 }

abbrev pub incr_events_total : PipelineStats → PipelineStats
incr_events_total s = record s { events_total = add_u64 s.events_total 1 }

abbrev pub incr_events_update : PipelineStats → PipelineStats
incr_events_update s = incr_events_total (record s { events_update = add_u64 s.events_update 1 })

abbrev pub incr_events_destroy : PipelineStats → PipelineStats
incr_events_destroy s = incr_events_total (record s { events_destroy = add_u64 s.events_destroy 1 })

pub data PipelineError : Type 0 where
  acct_not_initialized sink_not_init : PipelineError
  initializing_probe : String → PipelineError
  registering_update registering_destroy : ConsumerError → PipelineError
  starting_probe : ProbeError → PipelineError
  stopping_probe : ProbeError → PipelineError

abbrev pub update_source_name : String
update_source_name = "PipelineAcctUpdate"

abbrev pub destroy_source_name : String
destroy_source_name = "PipelineAcctDestroy"

-- `initialized` and `launched` are the two `sync.Once`. A source is a consumer of the probe, and is
-- kept by its name; `workers` records that the two goroutines run.
pub record Pipeline (Sink : Type 0) : Type 0 where
  pub launched : Bool
  pub initialized : Bool
  pub probe : Option Probe
  pub update_source : Option String
  pub destroy_source : Option String
  pub sinks : List Sink
  pub stats : PipelineStats
  pub workers : Bool

abbrev pub new : {Sink : Type 0} → Pipeline Sink
new = record {
  launched = false;
  initialized = false;
  probe = none;
  update_source = none;
  destroy_source = none;
  sinks = [];
  stats = zero_stats;
  workers = false;
}

module _ {Sink : Type 0} where
  -- `initAcct`, where `NewProbe` answers as the first argument says. The probe reference is saved
  -- last.
  init_acct : String ⊎ Probe → Pipeline Sink → Pipeline Sink × Option PipelineError
  init_acct (inl e) p = (p, some (initializing_probe e))
  init_acct (inr ap) p =
      let au = new_consumer update_source_name (make 1024) consumer_update in
      let ad = new_consumer destroy_source_name (make 1024) consumer_destroy in
      let (cs, failed) = register_consumer ap.consumers (some au) in
      elim failed [
        | some e ↦ (p, some (registering_update e))
        | none ↦
            let q = record p { update_source = some au.name } in
            let (ds, failed') = register_consumer cs (some ad) in
            elim failed' [
              | some e ↦ (q, some (registering_destroy e))
              | none ↦ (
                record q {
                  destroy_source = some ad.name;
                  probe = some (record ap { consumers = ds });
                },
                none,
              )
            ]
      ]

  -- `Init` runs `initAcct` once; a later call does nothing and reports no error.
  unfoldable pub init : String ⊎ Probe → Pipeline Sink → Pipeline Sink × Option PipelineError
  unfolding init_acct
  init r p = if p.initialized then (p, none) else init_acct r (record p { initialized = true })

  started_probe : Pipeline Sink → Probe × Option ProbeError → Pipeline Sink × Option PipelineError
  started_probe p (ap, none) = (record p { probe = some ap }, none)
  started_probe p (ap, some e) = (record p { probe = some ap }, some (starting_probe e))

  -- `Start` runs `startAcct` once: the workers first, then the probe.
  unfoldable pub start : Module → Pipeline Sink → Pipeline Sink × Option PipelineError
  unfolding started_probe
  start m p = elim p.probe [
    | none ↦ (p, some acct_not_initialized)
    | some ap ↦
        if p.launched
        then (p, none)
        else started_probe (record p { launched = true; workers = true }) (Probe.start m ap)
  ]

  stopped_probe : Pipeline Sink → Probe × Option ProbeError → Pipeline Sink × Option PipelineError
  stopped_probe p (ap, none) = (record p { probe = some ap }, none)
  stopped_probe p (ap, some e) = (record p { probe = some ap }, some (stopping_probe e))

  -- `Stop`. Without a probe it locks a mutex through a nil pointer.
  unfoldable pub stop : Option String → Pipeline Sink → Go (Pipeline Sink × Option PipelineError)
  unfolding stopped_probe
  stop answer p = elim p.probe [
    | none ↦ panic
    | some ap ↦ Probe.stop answer ap >>= λ r. ok (stopped_probe p r)
  ]

module _ (ops : SinkOps) where
  open ops use {Sink, is_init}

  -- `RegisterSink`. The warnings about timeouts that it may log are left out.
  unfoldable pub register_sink : Sink → Pipeline Sink → Pipeline Sink × Option PipelineError
  register_sink s p =
      if not (is_init s)
      then (p, some sink_not_init)
      else (record p { sinks = p.sinks ++ (s ∷ []) }, none)
