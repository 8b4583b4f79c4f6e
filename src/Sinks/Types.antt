-- ===== src/Sinks/Types.antt =====
-- internal/sinks/types: sink types, the configuration of a sink, its counters, and the decoding
-- of the configuration map.
pub mod Decoding
mod Tests
use conntracct.Prelude.{
  ℕ, ◌+◌, ◌-◌, Bool, false, ◌||◌, List, [], ◌∷◌, ◌++◌, String, str_eq, u64, add_u64, slice, get_or,
  length, leb, if◌then◌else◌, ◌⊎◌, inl, inr,
}
use conntracct.Text.{Text, codes, format_uint}

-- `SinkType` is a uint8; the constants count from 0.
abbrev pub dummy : ℕ
dummy = 0

abbrev pub std_out : ℕ
std_out = 1

abbrev pub std_err : ℕ
std_err = 2

abbrev pub influx_udp : ℕ
influx_udp = 3

abbrev pub influx_http : ℕ
influx_http = 4

abbrev pub elastic : ℕ
elastic = 5

-- The generated `SinkType.String`: a slice of all the names, between two indices.
abbrev sink_type_name : Text
sink_type_name = codes "DummyStdOutStdErrInfluxUDPInfluxHTTPElastic"

abbrev sink_type_index : List ℕ
sink_type_index = 0 ∷ 5 ∷ 11 ∷ 17 ∷ 26 ∷ 36 ∷ 43 ∷ []

unfoldable pub sink_type_string : ℕ → Text
sink_type_string i =
    if leb (length sink_type_index - 1) i
    then codes "SinkType(" ++ (format_uint 10 i ++ codes ")")
    else slice sink_type_name (get_or sink_type_index i 0) (get_or sink_type_index (i + 1) 0)

pub record SinkConfig : Type 0 where
  pub batch_size : ℕ
  pub udp_payload_size : ℕ
  pub sink_type : ℕ
  pub enable_src_port : Bool
  pub name : String
  pub address : String
  pub username : String
  pub password : String
  pub database : String
  pub timeout : ℕ

-- `SinkConfig{Name: name}`.
abbrev pub named : String → SinkConfig
named n = record {
  batch_size = 0;
  udp_payload_size = 0;
  sink_type = dummy;
  enable_src_port = false;
  name = n;
  address = "";
  username = "";
  password = "";
  database = "";
  timeout = 0;
}

pub data TypeError : Type 0 where
  failed_parsing : String → TypeError

-- The switch of the decode hook on a string that is to become a sink type.
unfoldable pub parse_sink_type : String → TypeError ⊎ ℕ
parse_sink_type s =
    if str_eq s "dummy"
    then inr dummy
    else if str_eq s "stdout"
    then inr std_out
    else if str_eq s "stderr"
    then inr std_err
    else if str_eq s "influxdb-udp"
    then inr influx_udp
    else if str_eq s "influxdb-http"
    then inr influx_http
    else if str_eq s "elastic" || str_eq s "elasticsearch"
    then inr elastic
    else inl (failed_parsing s)

-- What the hook handles: a string, a sink type, or anything else, which it hands on.
pub data Value (A : Type 0) : Type 0 where
  text : String → Value A
  sink_type : ℕ → Value A
  other : A → Value A

-- `stringToSinkTypeHookFunc`; the first argument says whether the target is a `SinkType`.
unfoldable pub sink_type_hook : {A : Type 0} → Bool → Value A → TypeError ⊎ Value A
unfolding parse_sink_type
sink_type_hook target (text s) =
    if target
    then (elim (parse_sink_type s) [ inl e ↦ inl e | inr t ↦ inr (sink_type t) ])
    else inr (text s)
sink_type_hook target (sink_type t) = inr (sink_type t)
sink_type_hook target (other a) = inr (other a)

-- `DecodeSinkConfigMap` over the entries of the map in the order of the iteration. mapstructure's
-- `Decode` of one entry's parameters into a config is the argument.
unfoldable pub decode_sink_config_map :
    {P E : Type 0}
    → (SinkConfig → P → E ⊎ SinkConfig)
    → List (String × P)
    → List SinkConfig
    → E ⊎ List SinkConfig
decode_sink_config_map decode [] out = inr out
decode_sink_config_map decode ((name, params) ∷ rest) out = elim (decode (named name) params) [
  | inl e ↦ inl e
  | inr sc ↦ decode_sink_config_map decode rest (out ++ (sc ∷ []))
]

pub record SinkStats : Type 0 where
  pub events_pushed : ℕ
  pub events_dropped : ℕ
  pub batch_length : ℕ
  pub batches_sent : ℕ
  pub batches_dropped : ℕ

abbrev pub zero_sink_stats : SinkStats
zero_sink_stats = record {
  events_pushed = 0;
  events_dropped = 0;
  batch_length = 0;
  batches_sent = 0;
  batches_dropped = 0;
}

abbrev pub incr_events_pushed : SinkStats → SinkStats
incr_events_pushed s = record s { events_pushed = add_u64 s.events_pushed 1 }

abbrev pub incr_events_dropped : SinkStats → SinkStats
incr_events_dropped s = record s { events_dropped = add_u64 s.events_dropped 1 }

abbrev pub set_batch_length : SinkStats → ℕ → SinkStats
set_batch_length s l = record s { batch_length = u64 l }

abbrev pub incr_batch_dropped : SinkStats → SinkStats
incr_batch_dropped s = record s { batches_dropped = add_u64 s.batches_dropped 1 }

abbrev pub incr_batch_sent : SinkStats → SinkStats
incr_batch_sent s = record s { batches_sent = add_u64 s.batches_sent 1 }

-- `SinkStats.Get`: one load after the other, while others write. The argument is what each finds.
abbrev pub get_sink_stats : (ℕ → SinkStats) → SinkStats
get_sink_stats at_load = record {
  events_pushed = (at_load 0).events_pushed;
  events_dropped = (at_load 1).events_dropped;
  batch_length = (at_load 2).batch_length;
  batches_sent = (at_load 3).batches_sent;
  batches_dropped = (at_load 4).batches_dropped;
}
