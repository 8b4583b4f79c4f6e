-- ===== src/Api/Tests.antt =====
-- A pipeline with two sinks of one name.
use conntracct.Prelude.{◌≡◌, refl, true, false, [], ◌∷◌, none, some, String, ok, inr, inl}
use conntracct.GoMap.{lookup}
use conntracct.Bpf.Probe.{Probe, new_probe}
use conntracct.Sinks.Types.{named, zero_sink_stats, incr_events_pushed}
use conntracct.Sinks.Dummy
use conntracct.Sinks.Dummy.{Dummy}
use conntracct.Sinks.Sink.{SinkOps}
use conntracct.Pipeline.{Pipeline}
use conntracct.Pipeline
use conntracct.Pipeline.Snapshot.{get_stats}
use conntracct.Api.{Api, ReplyLib, Report, name_eq, new, init, handle_stats}
use conntracct.Api.Reports.{last_named, handle_stats_reports}

abbrev dummy_ops : SinkOps
dummy_ops = record {
  Sink = Dummy;
  is_init = λ d. d.is_init;
  name = λ d. d.config.name;
  want_update = λ d. true;
  want_destroy = λ d. true;
  push = λ ae d. ok (Dummy.push ae d);
  stats = λ d. d.stats;
  Own = Unit {0};
  own = λ o s. ok s;
}

abbrev json : ReplyLib
json = record { marshal = λ r. inr "report"; format = λ s. s }

abbrev probe : Probe
probe = new_probe []

abbrev idle : Dummy
idle = Dummy.init (named "idle") Dummy.new

abbrev busy : Dummy
busy = record idle { stats = incr_events_pushed zero_sink_stats }

abbrev two_idle : Pipeline Dummy
two_idle = record Pipeline.new { probe = some probe; sinks = idle ∷ busy ∷ [] }

abbrev server : Api (Pipeline Dummy)
server = (init (some two_idle) new).0

server_pipe : server.pipe ≡ some two_idle
unfolding init
server_pipe = refl

handle_stats_reports_example :
    (r : Report) × ((out : String)
      → json.marshal r ≡ inr out
      → handle_stats dummy_ops json true server
        ≡ ok (some (record { status = 200; content_type = some "application/json"; body = out })))
    × ((err : String)
        → json.marshal r ≡ inl err
        → handle_stats dummy_ops json true server
          ≡ ok (some (record { status = 500; content_type = none; body = json.format err })))
    × (handle_stats dummy_ops json false server ≡ ok none)
    × (r.probe ≡ probe.stats)
    × (r.pipeline ≡ get_stats two_idle)
    × ((n : String)
        → lookup name_eq n r.sinks ≡ last_named dummy_ops json n (idle ∷ busy ∷ []) none)
handle_stats_reports_example =
    handle_stats_reports dummy_ops json server two_idle probe server_pipe refl
