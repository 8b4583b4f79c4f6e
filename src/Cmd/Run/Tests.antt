-- ===== src/Cmd/Run/Tests.antt =====
-- A run of the command with two sinks, and one in which a kprobe does not attach.
use mathlib.Core.Path.{subst}
use mathlib.Core.Option.{map as option_map}
use conntracct.Prelude.{
  ℕ, ◌≡◌, refl, true, false, List, [], ◌∷◌, map, none, some, String, ok, inl, inr, replicate, All,
  get_elem?, zero, suc,
}
use conntracct.Prelude.Int.{pos}
use conntracct.Bpf.Event.{little}
use conntracct.Bpf.Probe.{Probe, ProbeError, module_close, new_probe}
use conntracct.Bpf.Probe.Lifecycle.{can_start, stopped}
use conntracct.Sinks.Types.{SinkConfig, named, std_out, decode_sink_config_map}
use conntracct.Sinks.Influx.Plain.{plain_lib, plain_lib-Accepts}
use conntracct.Sinks.Influx.Setup.{Server}
use conntracct.Sinks.Sink.{prints, AnySink, sink_name, sink_ops}
use conntracct.Sinks.Sink.Direct.{IsDirect, IsDirect-Accepting, IsSimple, new_sink-IsDirect}
use conntracct.Pipeline.{Pipeline, new, initializing_probe, starting_probe, stopping_probe}
use conntracct.System.{Running, delivers, takes, pushes, works}
use conntracct.System.Delivery.{Delivered}
use conntracct.Api
use conntracct.Api.{HttpLib}
use conntracct.Sysctl.{SysctlLib, sysctls}
use conntracct.Cmd.{CmdError}
use conntracct.Cmd.Registered.{IsNew, all_served}
use conntracct.Cmd.Run.{
  Setting, Program, serve_pprof, run, decoding, sinks_failed, initializing, starting, config_failed,
  returns, fatal,
}
use conntracct.Cmd.Run.Stages.{run_fails}
use conntracct.Cmd.Run.Serving.{run_serves, at_end}

abbrev silent : SinkConfig → Server
silent cfg = record {
  new_udp_client = none;
  new_http_client = none;
  ping = none;
  query = none;
  query_result = none;
}

-- The parameters of a sink are its type.
abbrev setting : Setting ℕ String
setting = record {
  pprof_enabled = true;
  api_enabled = true;
  sysctl_manage = false;
  params = ("out", std_out) ∷ ("none", 0) ∷ [];
  decode = λ sc t. inr (record sc { sink_type = t });
  servers = silent;
  boot = pos 7;
  kernel_probes = inr ("kprobe/nf_conntrack_free" ∷ []);
  module_answers = record { enable_kprobe = λ p. none; init_perf_map = λ s. none };
  close_answer = none;
  endian = little;
  acts =
      delivers true (replicate 104 0) false
      ∷ takes true
      ∷ pushes true
      ∷ takes false
      ∷ works 0 (prints (record { written = true; flushed = true }))
      ∷ pushes true
      ∷ pushes true
      ∷ [];
}

abbrev configs : List SinkConfig
configs = record (named "out") { sink_type = std_out } ∷ named "none" ∷ []

abbrev paths : HttpLib
paths = record { Mux = List String; new_mux = []; handle = λ path mux. ok (path ∷ mux) }

abbrev no_machine : SysctlLib
no_machine = record { Machine = Unit {0}; get = λ ctl m. some "1"; set = λ ctl v m. some m }

abbrev program : Program plain_lib paths no_machine
program = record {
  pipeline = new;
  api = Api.new;
  mux = "/debug/pprof" ∷ [];
  pprof_mux = none;
  machine = tt;
}

some_inj : {A : Type 0} (y x : A) → some y ≡ some x → y ≡ x
some_inj y x e = cc

get_elem?-All :
    {A : Type 0} (Q : A → Type 0) (xs : List A) (i : ℕ) (x : A)
    → All Q xs
    → get_elem? xs i ≡ some x
    → Q x
get_elem?-All Q [] i x h e = cc
get_elem?-All Q (y ∷ ys) zero x h e = subst Q (some_inj y x e) h.0
get_elem?-All Q (y ∷ ys) (suc i) x h e = get_elem?-All Q ys i x h.1 e

configs-IsDirect :
    (s : AnySink plain_lib)
    → IsNew plain_lib plain_lib-Accepts silent (pos 7) configs s
    → IsDirect plain_lib s
configs-IsDirect s (cfg, i, at, made) =
    new_sink-IsDirect plain_lib (silent cfg) (pos 7) cfg s
      (get_elem?-All IsSimple configs i cfg (inl refl, (inr (inr refl), tt)) at) made

api_mux :
    paths.handle "/" (serve_pprof plain_lib paths no_machine setting program).mux ≡ ok ("/" ∷ [])
unfolding serve_pprof
api_mux = refl

run_serves_example :
    (ss : List (AnySink plain_lib)) × (map (sink_name plain_lib) ss
      ≡ map (λ (c : SinkConfig). c.name) configs)
    × (q : Running (AnySink plain_lib)) × (d : Delivered
        (sink_ops plain_lib)
        little
        (λ ae. Unit {0})
        (IsDirect plain_lib)
        setting.acts
        (record new { sinks = ss })
        q)
    × (setting.close_answer ≡ none
        → run plain_lib paths no_machine setting program
          ≡ ok (
            at_end plain_lib paths no_machine setting
                ("/" ∷ [])
                program
                (record (q.pipeline) { probe = some (stopped d.linked.probe) }),
            returns (option_map config_failed (sysctls no_machine tt).1),
          ))
    × ((e : String)
        → setting.close_answer ≡ some e
        → run plain_lib paths no_machine setting program
          ≡ ok (
            at_end plain_lib paths no_machine setting
                ("/" ∷ [])
                program
                (record (q.pipeline) { probe = some d.linked.probe }),
            fatal (stopping_probe (module_close e)),
          ))
run_serves_example =
    run_serves plain_lib paths no_machine setting plain_lib-Accepts (λ ae. Unit {0})
      (IsDirect plain_lib) program configs ("kprobe/nf_conntrack_free" ∷ []) ("/" ∷ [])
      (IsDirect-Accepting plain_lib) (tt, (tt, (tt, (tt, (tt, (tt, (tt, tt))))))) configs-IsDirect
      (unfold decode_sink_config_map in refl) refl refl refl api_mux

abbrev unwilling : Setting ℕ String
unwilling = record setting {
  module_answers = record {
    enable_kprobe = λ p. some "no such function";
    init_perf_map = λ s. none;
  };
}

run_fails_example :
    ((e : String)
      → decode_sink_config_map unwilling.decode unwilling.params [] ≡ inl e
      → run plain_lib paths no_machine unwilling program
        ≡ ok
            (serve_pprof plain_lib paths no_machine unwilling program, returns (some (decoding e))))
    × ((cl : List SinkConfig)
        → decode_sink_config_map unwilling.decode unwilling.params [] ≡ inr cl
        → all_served silent cl ≡ false
        → (ss : List (AnySink plain_lib)) × (e : CmdError) × (run plain_lib paths no_machine
              unwilling program
            ≡ ok (
              record (serve_pprof plain_lib paths no_machine unwilling program) {
                pipeline = record new { sinks = ss };
              },
              returns (some (sinks_failed e)),
            )))
    × ((cl : List SinkConfig) (e : String)
        → decode_sink_config_map unwilling.decode unwilling.params [] ≡ inr cl
        → all_served silent cl ≡ true
        → unwilling.kernel_probes ≡ inl e
        → (p : Pipeline (AnySink plain_lib)) × (run plain_lib paths no_machine unwilling program
            ≡ ok (
              record (serve_pprof plain_lib paths no_machine unwilling program) { pipeline = p },
              returns (some (initializing (initializing_probe e))),
            ))
          × (p.probe ≡ none)
          × (p.workers ≡ false))
    × ((cl : List SinkConfig) (probes : List String)
        → decode_sink_config_map unwilling.decode unwilling.params [] ≡ inr cl
        → all_served silent cl ≡ true
        → unwilling.kernel_probes ≡ inr probes
        → can_start unwilling.module_answers (new_probe probes) ≡ false
        → (p : Pipeline (AnySink plain_lib)) × (e : ProbeError) × (bp : Probe) × (run plain_lib
              paths no_machine unwilling program
            ≡ ok (
              record (serve_pprof plain_lib paths no_machine unwilling program) { pipeline = p },
              returns (some (starting (starting_probe e))),
            ))
          × (p.probe ≡ some bp)
          × (bp.started ≡ false)
          × (bp.workers ≡ false))
run_fails_example = run_fails plain_lib plain_lib-Accepts paths no_machine unwilling program
