-- ===== src/Pipeline/Tests.antt =====
-- A pipeline of two sinks that count what they get, one of them updates only.
use conntracct.Prelude.{
  ℕ, ◌+◌, ◌≡◌, ◌≢◌, refl, Bool, true, false, List, [], ◌∷◌, Option, none, some, String, ok, panic,
  inl, inr, All, ◌^◌, ◌<◌, not, str_eq, arith, if◌then◌else◌,
}
use conntracct.Bpf.Probe.{Probe, Module, new_probe}
use conntracct.Sinks.Types.{zero_sink_stats}
use conntracct.Sinks.Sink.{SinkOps}
use conntracct.Pipeline.{Pipeline, new, init, start, stop, acct_not_initialized}
use mathlib.Core.Option.{map as option_map}
use conntracct.Text.{Text, format_uint}
use conntracct.Pipeline.Warnings.{
  sysctl_wait, register_warns, too_high, is_empty, Shows, register_warns_once,
}
use conntracct.Pipeline.Setup.{connected, update_source, destroy_source, runs_once}

-- A sink that counts what it is given.
record Tally : Type 0 where
  all : Bool
  seen : ℕ

abbrev tally_ops : SinkOps
tally_ops = record {
  Sink = Tally;
  is_init = λ s. true;
  name = λ s. "tally";
  want_update = λ s. true;
  want_destroy = λ s. s.all;
  push = λ e s. ok (record s { seen = s.seen + 1 });
  stats = λ s. zero_sink_stats;
  Own = Unit {0};
  own = λ o s. ok s;
}

abbrev everything : Tally
everything = record { all = true; seen = 0 }

abbrev only_updates : Tally
only_updates = record { all = false; seen = 0 }

abbrev two_sinks : Pipeline Tally
two_sinks = record new { sinks = everything ∷ only_updates ∷ [] }

abbrev probe : Probe
probe = new_probe ("kprobe/nf_conntrack_free" ∷ [])

abbrev idle_pipeline : Pipeline Tally
idle_pipeline = new

abbrev willing : Module
willing = record { enable_kprobe = λ p. none; init_perf_map = λ s. some "no map" }

abbrev ready : Pipeline Tally
ready = connected probe idle_pipeline

runs_once_example :
    (init (inr probe) (init (inl "no symbols") idle_pipeline).0
      ≡ ((init (inl "no symbols") idle_pipeline).0, none))
    × (idle_pipeline.probe ≡ none
        → (init (inl "no symbols") idle_pipeline).1 ≢ none
        → (answer : Option String)
        → (start willing (init (inl "no symbols") idle_pipeline).0
            ≡ ((init (inl "no symbols") idle_pipeline).0, some acct_not_initialized))
          × (stop answer (init (inl "no symbols") idle_pipeline).0 ≡ panic))
    × (start willing (start willing ready).0 ≡ ((start willing ready).0, none))
runs_once_example =
    runs_once idle_pipeline ready (inl "no symbols") (inr probe)
      (record probe { consumers = update_source ∷ destroy_source ∷ [] }) willing willing refl

-- A machine of which one sysctl is above its recommended value.
abbrev shown : String → Option ℕ
shown k = if str_eq k "net/netfilter/nf_conntrack_udp_timeout" then some 30 else none

abbrev read_shown : String → Option Text
read_shown k = option_map (format_uint 10) (shown k)

shown-small : (k : String) (n : ℕ) → shown k ≡ some n → n < 2 ^ 63
shown-small k n h = ground (arith, h)

All-Shows : (entries : List (String × ℕ)) → All (λ e. Shows read_shown shown e.0) entries
All-Shows [] = tt
All-Shows ((k, v) ∷ rest) = ((refl, shown-small k), All-Shows rest)

register_warns_once_example :
    (register_warns read_shown tally_ops everything false sysctl_wait
      ≡ (true, some (too_high shown sysctl_wait, not (is_empty (too_high shown sysctl_wait)))))
    × (register_warns read_shown tally_ops everything
          (register_warns read_shown tally_ops everything false sysctl_wait).0
          sysctl_wait
        ≡ (true, none))
register_warns_once_example =
    register_warns_once read_shown shown sysctl_wait tally_ops everything everything
      (All-Shows sysctl_wait) refl refl

only_udp : too_high shown sysctl_wait ≡ ("net/netfilter/nf_conntrack_udp_timeout", 10) ∷ []
only_udp = refl
