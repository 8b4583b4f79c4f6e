-- ===== src/Sinks/Sink/Making.antt =====
-- When `New` of internal/sinks/sinks.go makes a sink.
use conntracct.Prelude.{
  ◌≡◌, ◌≢◌, ◌⊎◌, inl, inr, refl, Bool, true, false, not, ◌||◌, str_eq, str_eq_iff, ok, ◌==◌, arith,
  if◌then◌else◌, ap, Bool-cases,
}
use conntracct.Prelude.Int.{ℤ}
use conntracct.Sinks.Types.{
  SinkConfig, dummy, std_out, std_err, influx_udp, influx_http, sink_type_string,
}
use conntracct.Sinks.Dummy
use conntracct.Sinks.Stdout
use conntracct.Sinks.Stdout.Opening.{init_outcome}
use conntracct.Sinks.Influx.{InfluxLib}
use conntracct.Sinks.Influx.Flow.{Accepts}
use conntracct.Sinks.Influx.Setup.{Server, usable, init-usable}
use conntracct.Sinks.Sink.{
  AnySink, SinkError, influx, std, idle, from_influx, from_stdout, new_sink, sink_is_init,
  sink_name,
}

abbrev is_influx : SinkConfig → Bool
is_influx cfg = cfg.sink_type == influx_udp || cfg.sink_type == influx_http

abbrev is_std : SinkConfig → Bool
is_std cfg = cfg.sink_type == std_out || cfg.sink_type == std_err

-- The configurations that `New` can serve.
abbrev pub makeable : Server → SinkConfig → Bool
makeable srv cfg =
    if is_influx cfg
    then usable srv cfg
    else if is_std cfg
    then not (str_eq cfg.name "")
    else cfg.sink_type == dummy

module _ (lib : InfluxLib) (laws : Accepts lib) (srv : Server) (boot : ℤ) (cfg : SinkConfig) where
  abbrev Made : Type 0
  Made =
      (s : AnySink lib) × (new_sink lib srv boot cfg ≡ ok (inr s))
      × (sink_is_init lib s ≡ true)
      × (sink_name lib s ≡ cfg.name)

  abbrev Refused : Type 0
  Refused = (e : SinkError) × (new_sink lib srv boot cfg ≡ ok (inl e))

  influx-Made : is_influx cfg ≡ true → usable srv cfg ≡ true → Made
  unfolding new_sink from_influx
  influx-Made t u =
      let (s, done, ready, config, _) = (init-usable lib laws srv cfg boot).0 u in
      (influx s, rw t (rw done), ready, ap (λ (c : SinkConfig). c.name) config)

  influx-Refused : is_influx cfg ≡ true → usable srv cfg ≡ false → Refused
  unfolding new_sink from_influx
  influx-Refused t u =
      let (e, done) = (init-usable lib laws srv cfg boot).1 u in
      (SinkError.influx_failed e, rw t (rw done))

  std_type : is_std cfg ≡ true → (cfg.sink_type ≡ std_out) ⊎ (cfg.sink_type ≡ std_err)
  std_type t = ground arith

  std-Made : is_influx cfg ≡ false → is_std cfg ≡ true → cfg.name ≢ "" → Made
  unfolding new_sink from_stdout
  std-Made f t n =
      let (fine, ready, _, name, _) = (init_outcome cfg).2 n (std_type t) in
      (std (Stdout.init cfg Stdout.new).0, rw (f, t) (rw (fine, from_stdout)), ready, name)

  std-Refused : is_influx cfg ≡ false → is_std cfg ≡ true → cfg.name ≡ "" → Refused
  unfolding new_sink from_stdout
  std-Refused f t n = (
    SinkError.stdout_failed Stdout.StdoutError.empty_sink_name,
    rw (f, t) (rw ((init_outcome cfg).0 n)),
  )

  other-Made : is_influx cfg ≡ false → is_std cfg ≡ false → cfg.sink_type ≡ dummy → Made
  unfolding new_sink Dummy.init
  other-Made f t d = (idle (Dummy.init cfg Dummy.new), rw (f, t) (rw d), refl, refl)

  other-Refused :
      is_influx cfg ≡ false → is_std cfg ≡ false → (cfg.sink_type == dummy) ≡ false → Refused
  unfolding new_sink
  other-Refused f t d = (SinkError.not_implemented (sink_type_string cfg.sink_type), rw (f, t, d))

  -- If the Influx library behaves as documented, `New` never panics: it makes an initialized sink
  -- of the configured name if the sink type's own conditions are met (those of `InfluxSink.Init`
  -- for the two Influx types, a name for stdout and stderr, none for dummy), and returns an error
  -- otherwise, so for the elastic type and for unknown ones always.
  pub new_sink_makeable : (makeable srv cfg ≡ true → Made) × (makeable srv cfg ≡ false → Refused)
  new_sink_makeable = elim (Bool-cases (is_influx cfg)) [
    | inl t ↦ (λ u. influx-Made t (rw t at u), λ u. influx-Refused t (rw t at u))
    | inr f ↦ elim (Bool-cases (is_std cfg)) [
      | inl t ↦ (
        λ u. std-Made f t (ground (arith, f, t, str_eq_iff cfg.name "")),
        λ u. std-Refused f t (ground (arith, f, t, str_eq_iff cfg.name "")),
      )
      | inr t ↦ (
        λ u. other-Made f t (ground (arith, f, t)),
        λ u. other-Refused f t (ground (arith, f, t)),
      )
    ]
  ]
