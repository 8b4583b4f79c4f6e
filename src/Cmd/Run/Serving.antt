-- ===== src/Cmd/Run/Serving.antt =====
-- What the run command does once it has started the pipeline.
use mathlib.Core.Option.{map as option_map}
use conntracct.Prelude.{
  All, All-map, ◌≡◌, refl, sym, ap, ◌∙◌, true, List, [], map, Option, none, some, String, ok, ◌>>=◌,
  inl, inr, arith, if◌then◌else◌, Bool-cases,
}
use conntracct.Bpf.Probe.{Probe, module_close, new_probe}
use conntracct.Bpf.Probe.Lifecycle.{can_start, IsUp, stopped}
use conntracct.Sinks.Types.{SinkConfig, decode_sink_config_map}
use conntracct.Sinks.Influx.{InfluxLib}
use conntracct.Sinks.Influx.Flow.{Accepts}
use conntracct.Sinks.Sink.{AnySink, sink_name, sink_ops}
use conntracct.Pipeline
use conntracct.Pipeline.{Pipeline, PipelineError, new, init, start, stopping_probe}
use conntracct.Pipeline.Setup.{connected, init_connects, stop_up}
use conntracct.System
use conntracct.System.{Running, begun}
use conntracct.System.Histories.{Accepting}
use conntracct.System.Steps.{IsFineAct}
use conntracct.Bpf.Event.{Event}
use conntracct.System.Delivery.{Delivered, started, started-starts, run-started}
use conntracct.Api
use conntracct.Api.{HttpLib, ApiError}
use conntracct.Sysctl.{SysctlLib, SysctlError, sysctls}
use conntracct.Cmd.{init_register_sinks}
use conntracct.Cmd.Registered.{all_served, IsNew}
use conntracct.Cmd.Run.{
  Setting, Program, RunError, config_failed, returns, fatal, serve_pprof, config_result, serve_api,
  after_api, after_start, finish, ended, wait, run,
}
use conntracct.Cmd.Run.Stages.{sinks_made, refused_at, probed}

module _ (lib : InfluxLib) (http : HttpLib) (sys : SysctlLib) {P E : Type 0}
    (st : Setting P E) where
  -- The program once the API server runs, if it is enabled, on this multiplexer.
  abbrev pub with_api : http.Mux → Program lib http sys → Program lib http sys
  with_api mux g = record g {
    api = if st.api_enabled then record (g.api) { pipe = some tt; init_success = true } else g.api;
    mux = if st.api_enabled then mux else g.mux;
  }

  serve_api-with_api :
      (g : Program lib http sys) (mux : http.Mux)
      → http.handle "/" g.mux ≡ ok mux
      → serve_api lib http sys st g ≡ ok (with_api mux g, none)
  unfolding serve_api Api.run Api.init
  serve_api-with_api g mux h = elim (Bool-cases st.api_enabled) [
    | inl t ↦ ground (arith, t, h)
    | inr f ↦ ground (arith, f)
  ]

  config_result-map :
      (o : Option SysctlError) → config_result lib http sys st o ≡ option_map config_failed o
  unfolding config_result
  config_result-map none = refl
  config_result-map (some e) = refl

  -- The deferred `Stop` on a pipeline whose probe is up.
  finish-stopped :
      (e : Option (RunError E)) (g : Program lib http sys) (ap' : Probe)
      → g.pipeline.probe ≡ some ap'
      → IsUp ap'
      → st.close_answer ≡ none
      → finish lib http sys st e g
        ≡ ok (record g { pipeline = record (g.pipeline) { probe = some (stopped ap') } }, returns e)
  unfolding finish ended
  finish-stopped e g ap' h u c =
      ap
        (λ x. Pipeline.stop x g.pipeline >>= λ r.
          ok (record g { pipeline = r.0 }, ended lib http sys st e r.1))
        c
      ∙ ap (λ x. x >>= λ r. ok (record g { pipeline = r.0 }, ended lib http sys st e r.1))
          (stop_up g.pipeline ap' h u).0

  finish_fatal :
      (e : Option (RunError E)) (g : Program lib http sys) (ap' : Probe) (err : String)
      → g.pipeline.probe ≡ some ap'
      → IsUp ap'
      → st.close_answer ≡ some err
      → finish lib http sys st e g
        ≡ ok (
          record g { pipeline = record (g.pipeline) { probe = some ap' } },
          fatal (stopping_probe (module_close err)),
        )
  unfolding finish ended
  finish_fatal e g ap' err h u c =
      ap
        (λ x. Pipeline.stop x g.pipeline >>= λ r.
          ok (record g { pipeline = r.0 }, ended lib http sys st e r.1))
        c
      ∙ ap (λ x. x >>= λ r. ok (record g { pipeline = r.0 }, ended lib http sys st e r.1))
          ((stop_up g.pipeline ap' h u).1 err)

  -- The waiting, in terms of what the other goroutines did to the pipeline.
  wait-finish :
      (g : Program lib http sys) (q : Running (AnySink lib))
      → System.run (sink_ops lib) st.endian st.acts (begun g.pipeline) ≡ ok q
      → wait lib http sys st g
        ≡ finish lib http sys st
            (option_map config_failed (sysctls sys g.machine).1)
            (record g { machine = (sysctls sys g.machine).0; pipeline = q.pipeline })
  unfolding wait
  wait-finish g q h =
      ap
        (λ x. x >>= λ y.
          finish lib http sys st (config_result lib http sys st (sysctls sys g.machine).1)
            (record g { machine = (sysctls sys g.machine).0; pipeline = y.pipeline }))
        h
      ∙ ap
          (λ o.
            finish lib http sys st o
              (record g { machine = (sysctls sys g.machine).0; pipeline = q.pipeline }))
          (config_result-map (sysctls sys g.machine).1)

  started_waits :
      (g : Program lib http sys) (p q : Pipeline (AnySink lib)) (mux : http.Mux)
      → start st.module_answers p ≡ (q, none)
      → http.handle "/" g.mux ≡ ok mux
      → after_start lib http sys st g (start st.module_answers p)
        ≡ wait lib http sys st (with_api mux (record g { pipeline = q }))
  unfolding after_start after_api
  started_waits g p q mux h k =
      ap (after_start lib http sys st g) h
      ∙ ap (λ x. x >>= λ r. after_api lib http sys st r)
          (serve_api-with_api (record g { pipeline = q }) mux k)

  -- The program at its end: the API server as it was started, the sysctls as `config.Init` left
  -- them, and this pipeline.
  abbrev pub at_end :
      http.Mux → Program lib http sys → Pipeline (AnySink lib) → Program lib http sys
  at_end mux g p = record (with_api mux (serve_pprof lib http sys st g)) {
    machine = (sysctls sys g.machine).0;
    pipeline = p;
  }

  serve_pprof-machine :
      (g : Program lib http sys) → (serve_pprof lib http sys st g).machine ≡ g.machine
  unfolding serve_pprof
  serve_pprof-machine g = ground arith

  run_waits :
      (laws : Accepts lib) (g : Program lib http sys) (cl : List SinkConfig) (probes : List String)
      (mux : http.Mux) (ss : List (AnySink lib)) (q : Running (AnySink lib))
      (IsFine : Event → Type 0) (Good : AnySink lib → Type 0)
      → decode_sink_config_map st.decode st.params [] ≡ inr cl
      → init_register_sinks lib st.boot st.servers cl new ≡ ok (record new { sinks = ss }, none)
      → st.kernel_probes ≡ inr probes
      → can_start st.module_answers (new_probe probes) ≡ true
      → http.handle "/" (serve_pprof lib http sys st g).mux ≡ ok mux
      → System.run (sink_ops lib) st.endian st.acts (
          begun (
            started
              (sink_ops lib)
              st.endian
              IsFine
              Good
              (new_probe probes)
              st.module_answers
              (record new { sinks = ss })))
        ≡ ok q
      → run lib http sys st g
        ≡ finish lib http sys st
            (option_map config_failed (sysctls sys g.machine).1)
            (at_end mux g q.pipeline)
  run_waits laws g cl probes mux ss q IsFine Good d i k c h r =
      let g' = serve_pprof lib http sys st g in
      let p = record new { sinks = ss } in
      let up =
        started (sink_ops lib) st.endian IsFine Good (new_probe probes) st.module_answers p in
      let begun : start st.module_answers (connected (new_probe probes) p) ≡ (up, none) =
        ap (λ x. start st.module_answers x.0) (sym (init_connects p (new_probe probes) refl refl).0)
        ∙ started-starts (sink_ops lib) st.endian IsFine Good p (new_probe probes) st.module_answers
            refl refl refl refl c in
      refused_at lib laws http sys st g cl ss none d i
      ∙ (probed lib laws http sys st g' p probes refl k
          ∙ (started_waits g' (connected (new_probe probes) p) up mux begun h
              ∙ (wait-finish (with_api mux (record g' { pipeline = up })) q r
                  ∙ ap
                      (λ m.
                        finish lib http sys st (option_map config_failed (sysctls sys m).1)
                          (record (with_api mux g') {
                            machine = (sysctls sys m).0;
                            pipeline = q.pipeline;
                          }))
                      (serve_pprof-machine g))))

  -- If the Influx library behaves as documented, every sink that `New` makes of a configuration is
  -- in a good state, in which it takes the events that the kernel's records stand for or lets them
  -- wait and stays so, the sinks can
  -- be decoded and served, the probe can be made and started, and the multiplexer takes the handler
  -- of the API, then the run command starts a pipeline with a sink of its name for every
  -- configuration, in order, in which the records of the kernel are delivered whatever the
  -- interleaving of the single steps of the workers and of the sinks. It runs the API server if
  -- that is enabled, and applies the sysctls whatever `sysctl_manage` says. In the end it stops the
  -- probe, closing its channels, and returns the error of the sysctls, if there is one, and none
  -- otherwise; but if the probe's module cannot be closed, the channels stay open and it ends the
  -- process.
  pub run_serves :
      (laws : Accepts lib) (IsFine : Event → Type 0) (Good : AnySink lib → Type 0)
      (g : Program lib http sys) (cl : List SinkConfig) (probes : List String) (mux : http.Mux)
      → Accepting (sink_ops lib) IsFine Good
      → All (IsFineAct IsFine st.endian) st.acts
      → ((s : AnySink lib) → IsNew lib laws st.servers st.boot cl s → Good s)
      → decode_sink_config_map st.decode st.params [] ≡ inr cl
      → all_served st.servers cl ≡ true
      → st.kernel_probes ≡ inr probes
      → can_start st.module_answers (new_probe probes) ≡ true
      → http.handle "/" (serve_pprof lib http sys st g).mux ≡ ok mux
      → (ss : List (AnySink lib)) × (map (sink_name lib) ss ≡ map (λ (c : SinkConfig). c.name) cl)
        × (q : Running (AnySink lib)) × (d : Delivered
            (sink_ops lib)
            st.endian
            IsFine
            Good
            st.acts
            (record new { sinks = ss })
            q)
        × (st.close_answer ≡ none
            → run lib http sys st g
              ≡ ok (
                at_end mux g (record (q.pipeline) { probe = some (stopped d.linked.probe) }),
                returns (option_map config_failed (sysctls sys g.machine).1),
              ))
        × ((e : String)
            → st.close_answer ≡ some e
            → run lib http sys st g
              ≡ ok (
                at_end mux g (record (q.pipeline) { probe = some d.linked.probe }),
                fatal (stopping_probe (module_close e)),
              ))
  run_serves laws IsFine Good g cl probes mux acc fine fresh d t k c h =
      let (ss, made, names, new_sinks) = sinks_made lib laws http sys st cl t in
      let (q, done, dl) =
        run-started (sink_ops lib) st.endian IsFine Good acc st.acts fine
          (record new { sinks = ss }) (new_probe probes) st.module_answers refl refl refl refl c
          (All-map fresh ss new_sinks) in
      let waits = run_waits laws g cl probes mux ss q IsFine Good d made k c h done in
      let failed = option_map config_failed (sysctls sys g.machine).1 in
      (
        ss,
        names,
        q,
        dl,
        λ no.
            waits
            ∙ finish-stopped failed (at_end mux g q.pipeline) dl.linked.probe dl.linked.has_probe
                dl.linked.up no,
        λ e yes.
            waits
            ∙ finish_fatal failed (at_end mux g q.pipeline) dl.linked.probe e dl.linked.has_probe
                dl.linked.up yes,
      )
