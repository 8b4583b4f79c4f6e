-- ===== src/Sinks/Influx.antt =====
-- internal/sinks/influxdb and internal/sinks/helpers: the sink that batches points and hands the
-- batches to a goroutine that writes them. The Influx client is not part of the repository: what it
-- makes of an event, and what it answers, are arguments.
pub mod Plain
pub mod Flow
pub mod Setup
mod Tests
use conntracct.Prelude.{
  ℕ, ◌≡◌, ◌≤◌, refl, Bool, true, false, List, [], ◌∷◌, ◌++◌, Option, none, some, String, str_eq, Go,
  ok, panic, ◌>>=◌, ◌==◌, ◌&&◌, leb, length, if◌then◌else◌,
}
use conntracct.Prelude.Int.{ℤ, pos, ◌+ℤ◌, int64}
use conntracct.Text.{Text, codes, format_uint}
use conntracct.Chan.{
  Chan, nil_chan, make, Sent, sent, full, closed_chan, try_send, Received, item, drained, blocked,
  receive,
}
use conntracct.Bpf.Event.{Bytes, Event}
use conntracct.Sinks.Types.{
  SinkConfig, SinkStats, named, zero_sink_stats, influx_udp, influx_http, incr_events_pushed,
  set_batch_length, incr_batch_dropped, incr_batch_sent, get_sink_stats,
}

-- `helpers.ProtoIntStr`.
unfoldable pub proto_int_str : ℕ → String
proto_int_str i =
    if i == 1
    then "icmp"
    else if i == 6
    then "tcp"
    else if i == 17
    then "udp"
    else if i == 33
    then "dccp"
    else if i == 47
    then "gre"
    else if i == 132
    then "sctp"
    else "unknown"

-- The arguments of `influx.NewPoint`: tags and fields by key, and the time in nanoseconds.
pub record PointData : Type 0 where
  pub tags : List (String × Text)
  pub fields : List (String × ℤ)
  pub time : ℤ

src_port_tag : Bool → Event → List (String × Text)
src_port_tag true e = ("src_port", format_uint 10 e.src_port) ∷ []
src_port_tag false e = []

-- What `Push` builds from an event. `net.IP.String` is the first argument.
unfoldable pub point_data : (Bytes → Text) → Bool → ℤ → Event → PointData
unfolding proto_int_str src_port_tag
point_data ip_string enable_src_port boot_time e = record {
  tags =
      ("conn_id", format_uint 10 e.connection_id)
      ∷ ("src_addr", ip_string e.src_addr)
      ∷ ("dst_addr", ip_string e.dst_addr)
      ∷ ("dst_port", format_uint 10 e.dst_port)
      ∷ ("proto", codes (proto_int_str e.proto))
      ∷ ("connmark", format_uint 16 e.connmark)
      ∷ ("netns", format_uint 10 e.net_ns)
      ∷ src_port_tag enable_src_port e;
  fields =
      ("bytes_orig", int64 e.bytes_orig)
      ∷ ("bytes_ret", int64 e.bytes_ret)
      ∷ ("packets_orig", int64 e.packets_orig)
      ∷ ("packets_ret", int64 e.packets_ret)
      ∷ [];
  time = boot_time +ℤ int64 e.timestamp;
}

abbrev pub default_batch_size : ℕ
default_batch_size = 128

-- `waiting` is set while a goroutine that holds `batchMu` is blocked on sending the batch.
pub record InfluxSink (Point : Type 0) : Type 0 where
  pub is_init : Bool
  pub config : SinkConfig
  pub boot_time : ℤ
  pub send_chan : Chan (List Point)
  pub batch : List Point
  pub stats : SinkStats
  pub waiting : Bool

-- The client library: `NewPoint` fails with `none`, and `NewBatchPoints` with `false`.
pub record InfluxLib : Type 1 where
  pub Point : Type 0
  pub ip_string : Bytes → Text
  pub new_point : PointData → Option Point
  pub new_batch_points : String → Bool

module _ (lib : InfluxLib) where
  open lib use {Point, ip_string, new_point, new_batch_points}

  unfoldable pub new_batch : InfluxSink Point → Go (InfluxSink Point)
  new_batch s =
      if new_batch_points s.config.database
      then ok (record s { batch = []; stats = set_batch_length s.stats 0 })
      else panic

  after_send : Sent (List Point) → InfluxSink Point → Go (InfluxSink Point)
  unfolding new_batch
  after_send (sent ch) s = new_batch (record s { send_chan = ch; waiting = false })
  after_send full s = ok (record s { waiting = true })
  after_send closed_chan s = panic

  -- `s.sendChan <- s.batch; s.newBatch()`, up to where it blocks.
  unfoldable pub flush : InfluxSink Point → Go (InfluxSink Point)
  unfolding after_send
  flush s = after_send (try_send s.send_chan s.batch) s

  -- `Push` once it has the lock.
  unfoldable pub push_point : Point → InfluxSink Point → Go (InfluxSink Point)
  push_point pt s =
      let batch' = s.batch ++ (pt ∷ []) in
      let t = record s {
        batch = batch';
        stats = incr_events_pushed (set_batch_length s.stats (length batch'));
      } in
      if leb s.config.batch_size (length batch') then flush t else ok t

  unfoldable pub push : Event → InfluxSink Point → Go (InfluxSink Point)
  push e s = elim (new_point (point_data ip_string s.config.enable_src_port s.boot_time e)) [
    | none ↦ panic
    | some pt ↦ push_point pt s
  ]

  -- One tick of `tickWorker` once it has the lock.
  unfoldable pub tick : InfluxSink Point → Go (InfluxSink Point)
  tick s = if length s.batch == 0 then ok s else flush s

  counted : Bool → InfluxSink Point → InfluxSink Point
  counted true s = record s { stats = incr_batch_sent s.stats }
  counted false s = record s { stats = incr_batch_dropped s.stats }

  sent_off :
      Bool → Received (List Point) → InfluxSink Point → InfluxSink Point × Option (List Point)
  unfolding counted
  sent_off written (item b ch) s = (counted written (record s { send_chan = ch }), some b)
  sent_off written drained s = (counted written s, some [])
  sent_off written blocked s = (s, none)

  -- One round of `sendWorker`, with the batch that it took; the client's `Write` answers as the
  -- first argument says. Nothing closes the channel.
  unfoldable pub send_round : Bool → InfluxSink Point → InfluxSink Point × Option (List Point)
  unfolding sent_off
  send_round written s = sent_off written (receive s.send_chan) s

module _ {Point : Type 0} where
  abbrev pub name : InfluxSink Point → String
  name s = s.config.name

  abbrev pub want_update : InfluxSink Point → Bool
  want_update s = true

  abbrev pub want_destroy : InfluxSink Point → Bool
  want_destroy s = true

  -- `IsInit`.
  abbrev pub initialized : InfluxSink Point → Bool
  initialized s = s.is_init

  -- `Stats`, with nothing written meanwhile.
  abbrev pub get_stats : InfluxSink Point → SinkStats
  get_stats s = get_sink_stats (λ _. s.stats)
