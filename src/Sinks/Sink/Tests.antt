-- ===== src/Sinks/Sink/Tests.antt =====
-- The making of a sink: a served type and one that `New` refuses.
use conntracct.Prelude.{◌≡◌, refl, true, false, none, some, ok, inl, inr}
use conntracct.Sinks.Influx.Plain.{plain_lib, plain_lib-Accepts}
use conntracct.Prelude.Int.{pos}
use conntracct.Sinks.Types.{SinkConfig, named, std_err, elastic}
use conntracct.Sinks.Influx.Setup.{Server}
use conntracct.Sinks.Sink.{AnySink, SinkError, new_sink, sink_is_init, sink_name}
use conntracct.Sinks.Sink.Making.{makeable, new_sink_makeable}

abbrev down : Server
down = record {
  new_udp_client = some "no route";
  new_http_client = none;
  ping = some "refused";
  query = none;
  query_result = none;
}

abbrev errors_out : SinkConfig
errors_out = record (named "errors") { sink_type = std_err; batch_size = 4 }

new_sink_makeable_example :
    (makeable down errors_out ≡ true
      → (s : AnySink plain_lib) × (new_sink plain_lib down (pos 7) errors_out ≡ ok (inr s))
        × (sink_is_init plain_lib s ≡ true)
        × (sink_name plain_lib s ≡ "errors"))
    × (makeable down errors_out ≡ false
        → (e : SinkError) × (new_sink plain_lib down (pos 7) errors_out ≡ ok (inl e)))
new_sink_makeable_example = new_sink_makeable plain_lib plain_lib-Accepts down (pos 7) errors_out

elastic_refused : makeable down (record (named "search") { sink_type = elastic }) ≡ false
elastic_refused = refl
