-- ===== src/Sinks/Stdout.antt =====
-- internal/sinks/stdout: the sink that prints events, with the goroutine that empties its channel.
pub mod Opening
pub mod Ledger
mod Tests
use conntracct.Prelude.{
  ℕ, ◌≡◌, refl, Bool, true, false, List, [], ◌∷◌, ◌++◌, Option, none, some, String, str_eq, Go, ok,
  panic, ◌>>=◌, ◌==◌, ◌&&◌, if◌then◌else◌,
}
use conntracct.Chan.{
  Chan, nil_chan, make, len, Sent, sent, full, closed_chan, try_send, Received, item, drained,
  blocked, receive,
}
use conntracct.Bpf.Event.{Event, zero_event}
use conntracct.Sinks.Types.{
  SinkConfig, SinkStats, named, zero_sink_stats, std_out, std_err, incr_events_pushed,
  incr_events_dropped, set_batch_length, incr_batch_dropped, incr_batch_sent, get_sink_stats,
}

-- The stream that the buffered writer stands for.
pub data Stream : Type 0 where
  stdout_stream stderr_stream : Stream

pub data StdoutError : Type 0 where
  empty_sink_name invalid_sink_type : StdoutError

pub record StdOut : Type 0 where
  pub is_init : Bool
  pub config : SinkConfig
  pub stats : SinkStats
  pub events : Chan Event
  pub writer : Option Stream

abbrev pub new : StdOut
new = record {
  is_init = false;
  config = named "";
  stats = zero_sink_stats;
  events = nil_chan;
  writer = none;
}

with_default : SinkConfig → SinkConfig
with_default sc = if sc.batch_size == 0 then record sc { batch_size = 2048 } else sc

open_sink : SinkConfig → Stream → StdOut → StdOut × Option StdoutError
open_sink sc w s =
    (record s { writer = some w; events = make sc.batch_size; config = sc; is_init = true }, none)

-- `Init`. It launches `outWorker` when it succeeds.
unfoldable pub init : SinkConfig → StdOut → StdOut × Option StdoutError
unfolding with_default open_sink
init sc s =
    if str_eq sc.name ""
    then (s, some empty_sink_name)
    else let sc' = with_default sc in
      if sc'.sink_type == std_out
      then open_sink sc' stdout_stream s
      else if sc'.sink_type == std_err
      then open_sink sc' stderr_stream s
      else (s, some invalid_sink_type)

pushed : Sent Event → StdOut → Go StdOut
pushed (sent ch) s =
    ok (record s { events = ch; stats = set_batch_length (incr_events_pushed s.stats) (len ch) })
pushed full s = ok (record s { stats = incr_events_dropped s.stats })
pushed closed_chan s = panic

-- `Push`. Sending and reading the length are one step here.
unfoldable pub push : Event → StdOut → Go StdOut
unfolding pushed
push e s = pushed (try_send s.events e) s

-- What the writer answers for one event: whether the write and then the flush succeed.
pub record WriteOutcome : Type 0 where
  pub written : Bool
  pub flushed : Bool

printed : WriteOutcome → Received Event → StdOut → StdOut × Option Event
printed w (item e ch) s =
    let taken = record s { events = ch } in
    if w.written
    then if w.flushed
      then (record taken { stats = incr_batch_sent s.stats }, some e)
      else (record taken { stats = incr_batch_dropped s.stats }, some e)
    else (record taken { stats = incr_batch_dropped s.stats }, some e)
printed w drained s =
    if w.written && w.flushed
    then (record s { stats = incr_batch_sent s.stats }, some zero_event)
    else (record s { stats = incr_batch_dropped s.stats }, some zero_event)
printed w blocked s = (s, none)

-- One round of `outWorker`, with the event that it took. The receive has no `ok`, so a closed
-- channel would give zero events; nothing closes this one.
unfoldable pub out_round : WriteOutcome → StdOut → StdOut × Option Event
unfolding printed
out_round w s = printed w (receive s.events) s

abbrev pub name : StdOut → String
name s = s.config.name

abbrev pub want_update : StdOut → Bool
want_update s = true

abbrev pub want_destroy : StdOut → Bool
want_destroy s = true

-- `IsInit`.
abbrev pub initialized : StdOut → Bool
initialized s = s.is_init

-- `Stats`, with nothing written meanwhile.
abbrev pub get_stats : StdOut → SinkStats
get_stats s = get_sink_stats (λ _. s.stats)
