-- ===== src/Sinks/Influx/Tests.antt =====
-- The Influx sink over a client library that makes a point of every event.
use conntracct.Prelude.{arith, ◌≡◌, true, false, List, [], ◌∷◌, none, some, ok, ◌==◌, if◌then◌else◌}
use conntracct.Sinks.Influx.Plain.{plain_lib, plain_lib-Accepts}
use conntracct.Prelude.Int.{pos, ◌+ℤ◌}
use conntracct.Bpf.Event.{zero_event}
use conntracct.Sinks.Types.{SinkConfig, named, influx_udp}
use conntracct.Sinks.Influx.{InfluxSink, PointData}
use conntracct.Sinks.Influx.Flow.{Act, Flow, Inv, pushes, ticks, writes, resumes, run}
use conntracct.Sinks.Influx.Flow.Interleaving.{run-Inv}
use conntracct.Sinks.Influx.Setup.{
  Server, InfluxError, init, new, usable, init-usable, set_up, set_up-Inv,
}

abbrev udp : SinkConfig
udp = record (named "udp") { sink_type = influx_udp; address = "localhost:8089"; batch_size = 2 }

abbrev reachable : Server
reachable = record {
  new_udp_client = none;
  new_http_client = none;
  ping = none;
  query = none;
  query_result = none;
}

init-usable_example :
    (usable reachable udp ≡ true
      → (s : InfluxSink PointData) × (init plain_lib reachable udp (pos 7) (new plain_lib)
          ≡ ok (s, none))
        × (s.is_init ≡ true)
        × (s.config
            ≡ record udp { batch_size = if udp.batch_size == 0 then 128 else udp.batch_size })
        × Inv plain_lib (record { sink = s; pushed = []; taken = [] }))
    × (usable reachable udp ≡ false
        → (e : InfluxError) × (init plain_lib reachable udp (pos 7) (new plain_lib)
            ≡ ok (new plain_lib, some e)))
init-usable_example = init-usable plain_lib plain_lib-Accepts reachable udp (pos 7)

abbrev opened : Flow plain_lib
opened = record { sink = set_up plain_lib udp (pos 7); pushed = []; taken = [] }

abbrev steps : List Act
steps =
    pushes zero_event
    ∷ ticks
    ∷ pushes zero_event
    ∷ pushes zero_event
    ∷ writes true
    ∷ writes false
    ∷ resumes
    ∷ []

run-Inv_example : (g : Flow plain_lib) × (run plain_lib steps opened ≡ ok g) × Inv plain_lib g
unfolding ◌+ℤ◌
run-Inv_example =
    run-Inv plain_lib plain_lib-Accepts steps opened
      (omega arith, (tt, (omega arith, (omega arith, (tt, (tt, (tt, tt)))))))
      (set_up-Inv plain_lib udp (pos 7))
