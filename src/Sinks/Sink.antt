-- ===== src/Sinks/Sink.antt =====
-- internal/sinks/sinks.go: the interface of a sink, and the making of one from its configuration.
pub mod Making
pub mod Direct
pub mod Steady
mod Tests
use conntracct.Prelude.{
  ℕ, ◌≡◌, ◌≢◌, ◌<◌, ◌≤◌, ◌⊎◌, ◌↔◌, inl, inr, refl, Bool, true, false, ◌||◌, List, Option, none,
  some, String, Go, ok, panic, waits, ◌>>=◌, ◌==◌, str_eq_iff, arith, if◌then◌else◌, sym, ap, ◌∙◌,
}
use conntracct.Prelude.Int.{ℤ}
use conntracct.Text.{Text}
use conntracct.Bpf.Event.{Event}
use conntracct.Sinks.Types.{
  SinkConfig, SinkStats, dummy, std_out, std_err, influx_udp, influx_http, elastic,
  sink_type_string,
}
use conntracct.Sinks.Dummy
use conntracct.Sinks.Dummy.{Dummy}
use conntracct.Sinks.Stdout
use conntracct.Sinks.Stdout.{StdOut, StdoutError, WriteOutcome}
use conntracct.Sinks.Influx
use conntracct.Sinks.Influx.{InfluxSink, InfluxLib}
use conntracct.Sinks.Influx.Setup.{InfluxError, Server, usable, init-usable}
use conntracct.Sinks.Influx.Setup
use conntracct.Sinks.Influx.Flow.{Accepts}

-- The interface `Sink`, which the pipeline uses.
pub record SinkOps : Type 1 where
  pub Sink : Type 0
  pub is_init : Sink → Bool
  pub name : Sink → String
  pub want_update : Sink → Bool
  pub want_destroy : Sink → Bool
  pub push : Event → Sink → Go Sink
  pub stats : Sink → SinkStats
  -- What the goroutines of a sink do by themselves.
  pub Own : Type 0
  pub own : Own → Sink → Go Sink

pub data SinkError : Type 0 where
  influx_failed : InfluxError → SinkError
  stdout_failed : StdoutError → SinkError
  not_implemented : Text → SinkError

-- The types that implement the interface.
pub data AnySink (lib : InfluxLib) : Type 0 where
  influx : InfluxSink lib.Point → AnySink lib
  std : StdOut → AnySink lib
  idle : Dummy → AnySink lib

-- The steps of the goroutines of the sinks: `outWorker` of a stdout sink handles an event with this
-- outcome; `tickWorker` of an Influx sink ticks, its `sendWorker` writes, and the goroutine that waits
-- on the full channel goes on.
pub data OwnStep : Type 0 where
  prints : WriteOutcome → OwnStep
  ticks : OwnStep
  writes : Bool → OwnStep
  resumes : OwnStep

-- The result of the making: an error, or a sink.
from_influx :
    {lib : InfluxLib} → InfluxSink lib.Point → Option InfluxError → Go (SinkError ⊎ AnySink lib)
from_influx s none = ok (inr (influx s))
from_influx s (some e) = ok (inl (influx_failed e))

from_stdout : {lib : InfluxLib} → StdOut → Option StdoutError → Go (SinkError ⊎ AnySink lib)
from_stdout s none = ok (inr (std s))
from_stdout s (some e) = ok (inl (stdout_failed e))

module _ (lib : InfluxLib) where
  -- `New`, with what the Influx server answers and the estimated boot time.
  unfoldable pub new_sink : Server → ℤ → SinkConfig → Go (SinkError ⊎ AnySink lib)
  unfolding from_influx from_stdout
  new_sink srv boot cfg =
      if cfg.sink_type == influx_udp || cfg.sink_type == influx_http
      then (Setup.init lib srv cfg boot (Setup.new lib) >>= λ r. from_influx r.0 r.1)
      else if cfg.sink_type == std_out || cfg.sink_type == std_err
      then (let r = Stdout.init cfg Stdout.new in from_stdout r.0 r.1)
      else if cfg.sink_type == dummy
      then ok (inr (idle (Dummy.init cfg Dummy.new)))
      else ok (inl (not_implemented (sink_type_string cfg.sink_type)))

  abbrev pub sink_is_init : AnySink lib → Bool
  sink_is_init (influx s) = Influx.initialized s
  sink_is_init (std s) = Stdout.initialized s
  sink_is_init (idle d) = Dummy.initialized d

  abbrev pub sink_name : AnySink lib → String
  sink_name (influx s) = Influx.name s
  sink_name (std s) = Stdout.name s
  sink_name (idle d) = Dummy.name d

  abbrev pub sink_want_update : AnySink lib → Bool
  sink_want_update (influx s) = Influx.want_update s
  sink_want_update (std s) = Stdout.want_update s
  sink_want_update (idle d) = Dummy.want_update d

  abbrev pub sink_want_destroy : AnySink lib → Bool
  sink_want_destroy (influx s) = Influx.want_destroy s
  sink_want_destroy (std s) = Stdout.want_destroy s
  sink_want_destroy (idle d) = Dummy.want_destroy d

  abbrev pub sink_stats : AnySink lib → SinkStats
  sink_stats (influx s) = Influx.get_stats s
  sink_stats (std s) = Stdout.get_stats s
  sink_stats (idle d) = Dummy.get_stats d

  -- A push into an Influx sink waits for the lock while another goroutine holds it.
  unfoldable pub sink_push : Event → AnySink lib → Go (AnySink lib)
  sink_push e (influx s) = if s.waiting then waits else (Influx.push lib e s >>= λ t. ok (influx t))
  sink_push e (std s) = Stdout.push e s >>= λ t. ok (std t)
  sink_push e (idle d) = ok (idle (Dummy.push e d))

  influx_own : OwnStep → InfluxSink lib.Point → Go (InfluxSink lib.Point)
  influx_own (prints w) s = ok s
  influx_own ticks s = if s.waiting then waits else Influx.tick lib s
  influx_own (writes written) s = ok (Influx.send_round lib written s).0
  influx_own resumes s = if s.waiting then Influx.flush lib s else ok s

  stdout_own : OwnStep → StdOut → StdOut
  stdout_own (prints w) s = (Stdout.out_round w s).0
  stdout_own ticks s = s
  stdout_own (writes written) s = s
  stdout_own resumes s = s

  -- A step that a sink has no goroutine for is none.
  unfoldable pub sink_own : OwnStep → AnySink lib → Go (AnySink lib)
  unfolding influx_own stdout_own
  sink_own o (influx s) = influx_own o s >>= λ t. ok (influx t)
  sink_own o (std s) = ok (std (stdout_own o s))
  sink_own o (idle d) = ok (idle d)

  abbrev pub sink_ops : SinkOps
  sink_ops = record {
    Sink = AnySink lib;
    is_init = sink_is_init;
    name = sink_name;
    want_update = sink_want_update;
    want_destroy = sink_want_destroy;
    push = sink_push;
    stats = sink_stats;
    Own = OwnStep;
    own = sink_own;
  }
