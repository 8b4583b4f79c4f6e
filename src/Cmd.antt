-- ===== src/Cmd.antt =====
-- cmd/config.go: the sinks of the configuration, made and registered to the pipeline; cmd/run.go is
-- in Cmd/Run.
pub mod Registered
pub mod Root
pub mod Run
mod Tests
use conntracct.Prelude.{
  ℕ, Bool, true, false, List, [], ◌∷◌, Option, none, some, String, Go, ok, panic, ◌>>=◌, ◌⊎◌, inl,
  inr,
}
use conntracct.Prelude.Int.{ℤ}
use conntracct.Sinks.Types.{SinkConfig}
use conntracct.Sinks.Influx.{InfluxLib}
use conntracct.Sinks.Influx.Setup.{Server}
use conntracct.Sinks.Sink.{AnySink, SinkError, new_sink, sink_ops}
use conntracct.Pipeline.{Pipeline, PipelineError, register_sink}

pub data CmdError : Type 0 where
  creating : String → SinkError → CmdError
  registering : String → PipelineError → CmdError

module _ (lib : InfluxLib) where
  -- What the loop returns at one sink.
  registered :
      String
      → Pipeline (AnySink lib) × Option PipelineError
      → Pipeline (AnySink lib) × Option CmdError
  registered name (p, none) = (p, none)
  registered name (p, some e) = (p, some (registering name e))

  register_made :
      String
      → SinkError ⊎ AnySink lib
      → Pipeline (AnySink lib)
      → Pipeline (AnySink lib) × Option CmdError
  unfolding registered
  register_made name (inl e) p = (p, some (creating name e))
  register_made name (inr s) p = registered name (register_sink (sink_ops lib) s p)

  -- The body of the loop; the server answers for each sink as the second argument says.
  unfoldable pub init_register_one :
      ℤ
      → (SinkConfig → Server)
      → SinkConfig
      → Pipeline (AnySink lib)
      → Go (Pipeline (AnySink lib) × Option CmdError)
  unfolding register_made
  init_register_one boot servers cfg p =
      new_sink lib (servers cfg) boot cfg >>= λ made. ok (register_made cfg.name made p)

  -- `initRegisterSinks`; the first error ends the loop.
  unfoldable pub init_register_sinks :
      ℤ
      → (SinkConfig → Server)
      → List SinkConfig
      → Pipeline (AnySink lib)
      → Go (Pipeline (AnySink lib) × Option CmdError)
  init_register_sinks boot servers [] p = ok (p, none)
  init_register_sinks boot servers (cfg ∷ cl) p = init_register_one boot servers cfg p >>= λ r.
      elim r.1 [ some e ↦ ok (r.0, some e) | none ↦ init_register_sinks boot servers cl r.0 ]
