-- ===== src/Sinks/Influx/Setup.antt =====
-- `InfluxSink.Init` of internal/sinks/influxdb/influxdb.go.
use mathlib.Core.List.{flatten}
use conntracct.Prelude.{
  ◌≡◌, refl, ◌∙◌, Bool, true, false, not, ◌&&◌, ◌||◌, [], Option, none, some, String, str_eq, Go,
  ok, ◌>>=◌, ◌==◌, arith, if◌then◌else◌,
}
use conntracct.Prelude.Int.{ℤ, pos}
use conntracct.Chan.{nil_chan, make}
use conntracct.Sinks.Types.{SinkConfig, named, zero_sink_stats, influx_udp, influx_http}
use conntracct.Sinks.Influx.{InfluxSink, InfluxLib, new_batch, default_batch_size}
use conntracct.Sinks.Influx.Flow.{Inv, Accepts}

-- `client` is an error of the Influx client or of the server.
pub data InfluxError : Type 0 where
  empty_sink_name empty_sink_address empty_sink_database invalid_sink_type : InfluxError
  client : String → InfluxError

-- What the client library and the server answer; `none` is a nil error.
pub record Server : Type 0 where
  pub new_udp_client : Option String
  pub new_http_client : Option String
  pub ping : Option String
  pub query : Option String
  pub query_result : Option String

abbrev failed : Option String → Option InfluxError → Option InfluxError
failed none next = next
failed (some e) next = some (client e)

-- The switch on the sink's type: the error that `Init` returns there.
connect : Server → SinkConfig → Option InfluxError
connect srv sc =
    if sc.sink_type == influx_udp
    then failed srv.new_udp_client none
    else if sc.sink_type == influx_http
    then if str_eq sc.database ""
      then some empty_sink_database
      else failed srv.new_http_client
          (failed srv.ping (failed srv.query (failed srv.query_result none)))
    else some invalid_sink_type

unfoldable pub with_default : SinkConfig → SinkConfig
with_default sc = if sc.batch_size == 0 then record sc { batch_size = default_batch_size } else sc

-- What `Init` checks before it changes the sink.
unfoldable pub check : Server → SinkConfig → Option InfluxError
unfolding connect
check srv sc =
    if str_eq sc.name ""
    then some empty_sink_name
    else if str_eq sc.address ""
    then some empty_sink_address
    else connect srv sc

abbrev ready : Option String → Bool
ready none = true
ready (some e) = false

-- The configuration and the server's answers with which `Init` should succeed.
abbrev pub usable : Server → SinkConfig → Bool
usable srv sc =
    not (str_eq sc.name "")
    && (not (str_eq sc.address "")
        && ((sc.sink_type == influx_udp && ready srv.new_udp_client)
            || (sc.sink_type == influx_http
                && (not (str_eq sc.database "")
                    && (ready srv.new_http_client
                        && (ready srv.ping && (ready srv.query && ready srv.query_result)))))))

abbrev passes : Option InfluxError → Bool
passes none = true
passes (some e) = false

connect-usable :
    (srv : Server) (sc : SinkConfig)
    → passes (connect srv sc) ≡ (
        (sc.sink_type == influx_udp && ready srv.new_udp_client)
        || (sc.sink_type == influx_http
            && (not (str_eq sc.database "")
                && (ready srv.new_http_client
                    && (ready srv.ping && (ready srv.query && ready srv.query_result))))))
unfolding connect
connect-usable srv sc = ground arith

passes-check : (srv : Server) (sc : SinkConfig) → passes (check srv sc) ≡ usable srv sc
unfolding check
passes-check srv sc = ground (arith, connect-usable srv sc)

passes-true : (o : Option InfluxError) → passes o ≡ true → o ≡ none
passes-true none h = refl
passes-true (some e) h = cc

passes-false : (o : Option InfluxError) → passes o ≡ false → (e : InfluxError) × (o ≡ some e)
passes-false none h = absurd (cc)
passes-false (some e) h = (e, refl)

with_default_lem :
    (sc : SinkConfig)
    → with_default sc ≡ record sc { batch_size = if sc.batch_size == 0 then 128 else sc.batch_size }
unfolding with_default
with_default_lem sc = ground arith

module _ (lib : InfluxLib) where
  open lib use {Point, new_batch_points}

  -- `New()`.
  abbrev pub new : InfluxSink Point
  new = record {
    is_init = false;
    config = named "";
    boot_time = pos 0;
    send_chan = nil_chan;
    batch = [];
    stats = zero_sink_stats;
    waiting = false;
  }

  -- The third argument is the estimated boot time. It launches the two workers when it succeeds.
  unfoldable pub init :
      Server → SinkConfig → ℤ → InfluxSink Point → Go (InfluxSink Point × Option InfluxError)
  init srv sc boot s = elim (check srv sc) [
    | some e ↦ ok (s, some e)
    | none ↦
        new_batch lib (record s { boot_time = boot; send_chan = make 64; config = with_default sc })
        >>= λ t. ok (record t { is_init = true }, none)
  ]

  -- The sink that a successful `Init` leaves.
  abbrev pub set_up : SinkConfig → ℤ → InfluxSink Point
  set_up sc boot = record {
    is_init = true;
    config = with_default sc;
    boot_time = boot;
    send_chan = make 64;
    batch = [];
    stats = zero_sink_stats;
    waiting = false;
  }

  pub set_up-Inv :
      (sc : SinkConfig) (boot : ℤ)
      → Inv lib (record { sink = set_up sc boot; pushed = []; taken = [] })
  unfolding with_default flatten
  set_up-Inv sc boot = record {
    is_open = refl;
    is_made = refl;
    capacity = refl;
    queue_bounded = omega arith;
    sized = ground arith;
    in_order = refl;
    batches_full = (tt, tt);
    batch_small = λ _. ground arith;
    batch_waits = λ h. absurd (cc);
    pushed_count = refl;
    taken_count = refl;
  }

  init-passes :
      Accepts lib
      → (srv : Server) (sc : SinkConfig) (boot : ℤ) → check srv sc ≡ none
      → init srv sc boot new ≡ ok (set_up sc boot, none)
  unfolding init new_batch
  init-passes laws srv sc boot h = rw (h, init) (rw (laws.batches (with_default sc).database))

  init-fails :
      (srv : Server) (sc : SinkConfig) (boot : ℤ) (e : InfluxError)
      → check srv sc ≡ some e
      → init srv sc boot new ≡ ok (new, some e)
  unfolding init
  init-fails srv sc boot e h = rw (h, init)

  -- `Init` of a new sink succeeds exactly with a name, an address, and a UDP type whose client
  -- opens, or an HTTP type with a database name whose client opens, pings and creates the database.
  -- The sink is then marked as initialized, keeps its configuration (a batch size of 0 becomes
  -- 128), and meets the invariant of the flow of points; after a failure it is as it was.
  pub init-usable :
      Accepts lib
      → (srv : Server) (sc : SinkConfig) (boot : ℤ)
      → (usable srv sc ≡ true
          → (s : InfluxSink Point) × (init srv sc boot new ≡ ok (s, none))
            × (s.is_init ≡ true)
            × (s.config
                ≡ record sc { batch_size = if sc.batch_size == 0 then 128 else sc.batch_size })
            × Inv lib (record { sink = s; pushed = []; taken = [] }))
        × (usable srv sc ≡ false → (e : InfluxError) × (init srv sc boot new ≡ ok (new, some e)))
  init-usable laws srv sc boot = (
    λ h. (
      set_up sc boot,
      init-passes laws srv sc boot (passes-true _ (passes-check srv sc ∙ h)),
      refl,
      with_default_lem sc,
      set_up-Inv sc boot,
    ),
    λ h.
        let (e, failed') = passes-false _ (passes-check srv sc ∙ h) in
        (e, init-fails srv sc boot e failed'),
  )
