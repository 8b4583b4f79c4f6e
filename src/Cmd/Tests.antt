-- ===== src/Cmd/Tests.antt =====
-- Three sinks of a configuration, of which the second cannot be made.
use conntracct.Prelude.{List, [], ◌∷◌, none}
use conntracct.Sinks.Influx.Plain.{plain_lib, plain_lib-Accepts}
use conntracct.Prelude.Int.{pos}
use conntracct.Sinks.Types.{SinkConfig, named, std_out, std_err, elastic}
use conntracct.Sinks.Influx.Setup.{Server}
use conntracct.Sinks.Sink.{AnySink}
use conntracct.Pipeline.{Pipeline, new}
use conntracct.Cmd.Registered.{Registers, init_register_sinks-served}

abbrev reachable : SinkConfig → Server
reachable cfg = record {
  new_udp_client = none;
  new_http_client = none;
  ping = none;
  query = none;
  query_result = none;
}

abbrev three_sinks : List SinkConfig
three_sinks =
    record (named "out") { sink_type = std_out }
    ∷ record (named "search") { sink_type = elastic }
    ∷ record (named "err") { sink_type = std_err }
    ∷ []

abbrev empty_pipeline : Pipeline (AnySink plain_lib)
empty_pipeline = new

init_register_sinks-served_example :
    Registers plain_lib plain_lib-Accepts reachable (pos 7) three_sinks empty_pipeline
init_register_sinks-served_example =
    init_register_sinks-served plain_lib plain_lib-Accepts reachable (pos 7) three_sinks
      empty_pipeline
