-- ===== src/Sinks/Dummy.antt =====
-- internal/sinks/dummy/dummy.go: the sink that only counts.
use conntracct.Prelude.{Bool, true, false, String}
use conntracct.Bpf.Event.{Event}
use conntracct.Sinks.Types.{
  SinkConfig, SinkStats, named, zero_sink_stats, incr_events_pushed, incr_batch_dropped,
  get_sink_stats,
}

pub record Dummy : Type 0 where
  pub is_init : Bool
  pub config : SinkConfig
  pub stats : SinkStats

abbrev pub new : Dummy
new = record { is_init = false; config = named ""; stats = zero_sink_stats }

unfoldable pub init : SinkConfig → Dummy → Dummy
init sc d = record d { config = sc; is_init = true }

unfoldable pub push : Event → Dummy → Dummy
push e d = record d { stats = incr_batch_dropped (incr_events_pushed d.stats) }

abbrev pub name : Dummy → String
name d = d.config.name

abbrev pub want_update : Dummy → Bool
want_update d = true

abbrev pub want_destroy : Dummy → Bool
want_destroy d = true

-- `IsInit`.
abbrev pub initialized : Dummy → Bool
initialized d = d.is_init

-- `Stats`, with nothing written meanwhile.
abbrev pub get_stats : Dummy → SinkStats
get_stats d = get_sink_stats (λ _. d.stats)
