-- ===== src/Cmd/Run.antt =====
-- cmd/run.go: the run command, with internal/pprof. What the configuration says, what the system
-- answers, and what the other goroutines do while the command waits are arguments.
pub mod Stages
pub mod Serving
mod Tests
use conntracct.Prelude.{
  Bool, true, false, List, [], Option, none, some, String, Go, ok, ◌>>=◌, ◌⊎◌, inl, inr,
  if◌then◌else◌,
}
use conntracct.Prelude.Int.{ℤ}
use conntracct.Bpf.Event.{Endian}
use conntracct.Bpf.Probe.{Probe, Module, new_probe}
use conntracct.Sinks.Types.{SinkConfig, decode_sink_config_map}
use conntracct.Sinks.Influx.{InfluxLib}
use conntracct.Sinks.Influx.Setup.{Server}
use conntracct.Sinks.Sink.{AnySink, OwnStep, sink_ops}
use conntracct.Pipeline
use conntracct.Pipeline.{Pipeline, PipelineError}
use conntracct.System.{Act, begun}
use conntracct.System
use conntracct.Api
use conntracct.Api.{Api, ApiError, HttpLib}
use conntracct.Sysctl.{SysctlLib, SysctlError, sysctls}
use conntracct.Cmd.{CmdError, init_register_sinks}

pub data RunError (E : Type 0) : Type 0 where
  decoding : E → RunError E
  sinks_failed : CmdError → RunError E
  initializing starting : PipelineError → RunError E
  api_failed : ApiError → RunError E
  config_failed : SysctlError → RunError E

-- The command returns, or ends the process because the deferred `Stop` failed.
pub data Ending (E : Type 0) : Type 0 where
  returns : Option (RunError E) → Ending E
  fatal : PipelineError → Ending E

-- The configuration, and the answers of the system. `sysctl_manage` is the key that the example
-- configuration documents as deciding whether sysctls are set; `run` does not read it. `params` is what viper holds for the sinks, and
-- `decode` is mapstructure's; NewProbe answers with the kprobes of the kernel that it chose; `acts`
-- is what the other goroutines do between the start and the stop of the pipeline.
pub record Setting (P E : Type 0) : Type 0 where
  pub pprof_enabled : Bool
  pub api_enabled : Bool
  pub sysctl_manage : Bool
  pub params : List (String × P)
  pub decode : SinkConfig → P → E ⊎ SinkConfig
  pub servers : SinkConfig → Server
  pub boot : ℤ
  pub kernel_probes : String ⊎ List String
  pub module_answers : Module
  pub close_answer : Option String
  pub endian : Endian
  pub acts : List (Act OwnStep)

abbrev pub made_probe : String ⊎ List String → String ⊎ Probe
made_probe (inl e) = inl e
made_probe (inr probes) = inr (new_probe probes)

module _ (lib : InfluxLib) (http : HttpLib) (sys : SysctlLib) where
  -- The pipeline of the command, the API package (whose handle points to that pipeline), the
  -- default multiplexer, the one that pprof serves, and the machine with its sysctls.
  pub record Program : Type 0 where
    pub pipeline : Pipeline (AnySink lib)
    pub api : Api (Unit {0})
    pub mux : http.Mux
    pub pprof_mux : Option http.Mux
    pub machine : sys.Machine

  module _ {P E : Type 0} (st : Setting P E) where
    -- `pprof.ListenAndServe`, whose listener is left out.
    unfoldable pub serve_pprof : Program → Program
    serve_pprof g =
        if st.pprof_enabled then record g { mux = http.new_mux; pprof_mux = some g.mux } else g

    pub ended : Option (RunError E) → Option PipelineError → Ending E
    ended e none = returns e
    ended e (some f) = fatal f

    -- The deferred function.
    pub finish : Option (RunError E) → Program → Go (Program × Ending E)
    unfolding ended
    finish e g = Pipeline.stop st.close_answer g.pipeline >>= λ r.
        ok (record g { pipeline = r.0 }, ended e r.1)

    pub config_result : Option SysctlError → Option (RunError E)
    config_result none = none
    config_result (some e) = some (config_failed e)

    -- `config.Init` and the waiting. An error of `config.Init` ends the command at once.
    pub wait : Program → Go (Program × Ending E)
    unfolding config_result
    wait g =
        let (m, failed) = sysctls sys g.machine in
        System.run (sink_ops lib) st.endian st.acts (begun g.pipeline) >>= λ q.
        finish (config_result failed) (record g { machine = m; pipeline = q.pipeline })

    -- The API server, if it is enabled.
    pub serve_api : Program → Go (Program × Option ApiError)
    serve_api g =
        if st.api_enabled
        then (let (a, failed) = Api.init (some tt) g.api in
            elim failed [
              | some e ↦ ok (record g { api = a }, some e)
              | none ↦ Api.run http a g.mux >>= λ r. ok (record g { api = a; mux = r.0 }, r.1)
            ])
        else ok (g, none)

    -- The deferred function is not in force yet.
    pub after_api : Program × Option ApiError → Go (Program × Ending E)
    after_api (g, some e) = ok (g, returns (some (api_failed e)))
    after_api (g, none) = wait g

    pub after_start :
        Program → Pipeline (AnySink lib) × Option PipelineError → Go (Program × Ending E)
    unfolding after_api
    after_start g (p, some e) = ok (record g { pipeline = p }, returns (some (starting e)))
    after_start g (p, none) = serve_api (record g { pipeline = p }) >>= λ r. after_api r

    after_init : Program → Pipeline (AnySink lib) × Option PipelineError → Go (Program × Ending E)
    unfolding after_start
    after_init g (p, some e) = ok (record g { pipeline = p }, returns (some (initializing e)))
    after_init g (p, none) = after_start g (Pipeline.start st.module_answers p)

    pub after_sinks : Program → Pipeline (AnySink lib) × Option CmdError → Go (Program × Ending E)
    unfolding after_init
    after_sinks g (p, some e) = ok (record g { pipeline = p }, returns (some (sinks_failed e)))
    after_sinks g (p, none) = after_init g (Pipeline.init (made_probe st.kernel_probes) p)

    after_decode : Program → E ⊎ List SinkConfig → Go (Program × Ending E)
    unfolding after_sinks
    after_decode g (inl e) = ok (g, returns (some (decoding e)))
    after_decode g (inr cl) =
        init_register_sinks lib st.boot st.servers cl Pipeline.new >>= λ r. after_sinks g r

    pub run : Program → Go (Program × Ending E)
    unfolding after_decode
    run g = after_decode (serve_pprof g) (decode_sink_config_map st.decode st.params [])
