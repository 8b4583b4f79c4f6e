-- ===== src/Sinks/Types/Tests.antt =====
-- Tests and witnesses for Sinks/Types: a decoder of entries that say nothing but their type.
use mathlib.Core.List.{Perm}
use mathlib.Core.List.Perm
use conntracct.Prelude.{◌≡◌, refl, sym, ap, true, List, [], ◌∷◌, map, String, ◌⊎◌, inl, inr}
use conntracct.Text.{codes, format_uint}
use conntracct.Sinks.Types.{
  SinkConfig, TypeError, failed_parsing, Value, text, sink_type, other, named, std_out, std_err,
  sink_type_hook, parse_sink_type, decode_sink_config_map, sink_type_string,
}
use conntracct.Sinks.Types.Decoding.{decode_sink_config_map_order}

abbrev typed : SinkConfig → TypeError ⊎ Value SinkConfig → TypeError ⊎ SinkConfig
typed sc (inl e) = inl e
typed sc (inr (sink_type t)) = inr (record sc { sink_type = t })
typed sc (inr v) = inr sc

abbrev decode_type : SinkConfig → String → TypeError ⊎ SinkConfig
decode_type sc t = typed sc (sink_type_hook true (text t))

abbrev entries : List (String × String)
entries = ("out", "stdout") ∷ ("errors", "stderr") ∷ []

abbrev turned : List (String × String)
turned = ("errors", "stderr") ∷ ("out", "stdout") ∷ []

abbrev both : List SinkConfig
both =
    record (named "out") { sink_type = std_out }
    ∷ record (named "errors") { sink_type = std_err }
    ∷ []

decodes-both : decode_sink_config_map decode_type entries [] ≡ inr both
unfolding decode_sink_config_map sink_type_hook parse_sink_type
decodes-both = refl

unknown_type : decode_type (named "x") "kafka" ≡ inl (failed_parsing "kafka")
unfolding sink_type_hook parse_sink_type
unknown_type = refl

type_out_of_range : sink_type_string 6 ≡ codes "SinkType(6)"
unfolding sink_type_string format_uint
type_out_of_range = refl

abbrev name_or : String → TypeError ⊎ SinkConfig → String
name_or n (inl e) = n
name_or n (inr sc) = sc.name

typed_name :
    (sc d : SinkConfig) (r : TypeError ⊎ Value SinkConfig) → typed sc r ≡ inr d → d.name ≡ sc.name
typed_name sc d (inl e) h = cc
typed_name sc d (inr (sink_type t)) h = ap (name_or sc.name) (sym h)
typed_name sc d (inr (text t)) h = ap (name_or sc.name) (sym h)
typed_name sc d (inr (other t)) h = ap (name_or sc.name) (sym h)

decode_sink_config_map_order_example :
    (map (λ c. c.name) both ≡ "out" ∷ "errors" ∷ [])
    × ((others : List SinkConfig) × (decode_sink_config_map decode_type turned [] ≡ inr others)
        × Perm both others)
decode_sink_config_map_order_example =
    decode_sink_config_map_order decode_type (λ name t sc h. typed_name (named name) sc _ h) entries
      turned (Perm.swap ("errors", "stderr") ("out", "stdout") []) both decodes-both
