-- ===== src/Cmd/Run/Stages.antt =====
-- Where the run command fails before anything runs.
use conntracct.Prelude.{
  ◌≡◌, refl, ap, ◌∙◌, true, false, List, [], map, Option, none, some, String, ok, ◌>>=◌, inl, inr,
  All,
}
use conntracct.Bpf.Probe.{Probe, new_probe}
use conntracct.Bpf.Probe
use conntracct.Bpf.Probe.Lifecycle.{can_start}
use conntracct.Sinks.Types.{SinkConfig, decode_sink_config_map}
use conntracct.Sinks.Influx.{InfluxLib}
use conntracct.Sinks.Influx.Flow.{Accepts}
use conntracct.Sinks.Sink.{AnySink, sink_name}
use conntracct.Pipeline.{
  Pipeline, PipelineError, new, init, start, initializing_probe, starting_probe,
}
use conntracct.Pipeline.Setup.{connected, init_connects, start_refused}
use conntracct.Api.{HttpLib}
use conntracct.Sysctl.{SysctlLib}
use conntracct.Cmd.{CmdError, init_register_sinks}
use conntracct.Cmd.Registered.{
  all_served, all_served-served, no_error, IsNew, init_register_sinks-served,
}
use conntracct.Cmd.Run.{
  Setting, Program, decoding, sinks_failed, initializing, starting, returns, made_probe,
  serve_pprof, after_decode, after_sinks, after_init, after_start, run,
}

no_error-none : (r : Option CmdError) → no_error r ≡ true → r ≡ none
no_error-none none h = refl
no_error-none (some e) h = cc

no_error-some : (r : Option CmdError) → no_error r ≡ false → (e : CmdError) × (r ≡ some e)
no_error-some none h = cc
no_error-some (some e) h = (e, refl)

module _ (lib : InfluxLib) (laws : Accepts lib) (http : HttpLib) (sys : SysctlLib) {P E : Type 0}
    (st : Setting P E) where
  -- The sinks of a configuration that can be served.
  pub sinks_made :
      (cl : List SinkConfig)
      → all_served st.servers cl ≡ true
      → (ss : List (AnySink lib)) × (init_register_sinks lib st.boot st.servers cl new
          ≡ ok (record new { sinks = ss }, none))
        × (map (sink_name lib) ss ≡ map (λ (c : SinkConfig). c.name) cl)
        × All (IsNew lib laws st.servers st.boot cl) ss
  sinks_made cl h =
      let (ss, r, done, names, _, made, outcome) =
        init_register_sinks-served lib laws st.servers st.boot cl new in
      (
        ss,
        done ∙ ap (λ o. ok (record new { sinks = ss }, o)) (no_error-none r (outcome ∙ h)),
        names ∙ ap (map (λ (c : SinkConfig). c.name)) (all_served-served st.servers cl h),
        made,
      )

  sinks_refused :
      (cl : List SinkConfig)
      → all_served st.servers cl ≡ false
      → (ss : List (AnySink lib)) × (e : CmdError) × (init_register_sinks lib st.boot st.servers cl
            new
          ≡ ok (record new { sinks = ss }, some e))
  sinks_refused cl h =
      let (ss, r, done, names, _, made, outcome) =
        init_register_sinks-served lib laws st.servers st.boot cl new in
      let (e, is_e) = no_error-some r (outcome ∙ h) in
      (ss, e, done ∙ ap (λ o. ok (record new { sinks = ss }, o)) is_e)

  pub refused_at :
      (g : Program lib http sys) (cl : List SinkConfig) (ss : List (AnySink lib))
      (r : Option CmdError)
      → decode_sink_config_map st.decode st.params [] ≡ inr cl
      → init_register_sinks lib st.boot st.servers cl new ≡ ok (record new { sinks = ss }, r)
      → run lib http sys st g
        ≡ after_sinks lib http sys st (serve_pprof lib http sys st g) (record new { sinks = ss }, r)
  unfolding run after_decode
  refused_at g cl ss r d h =
      ap (after_decode lib http sys st (serve_pprof lib http sys st g)) d
      ∙ ap (λ x. x >>= λ y. after_sinks lib http sys st (serve_pprof lib http sys st g) y) h

  unprobed :
      (g : Program lib http sys) (p : Pipeline (AnySink lib)) (e : String)
      → p.initialized ≡ false
      → st.kernel_probes ≡ inl e
      → after_sinks lib http sys st g (p, none)
        ≡ ok (
          record g { pipeline = record p { initialized = true } },
          returns (some (initializing (initializing_probe e))),
        )
  unfolding after_sinks after_init init
  unprobed g p e i k = rw (after_sinks, k) (rw (init, i))

  -- Once the sinks are registered, the pipeline is initialized with the probe and started.
  pub probed :
      (g : Program lib http sys) (p : Pipeline (AnySink lib)) (probes : List String)
      → p.initialized ≡ false
      → st.kernel_probes ≡ inr probes
      → after_sinks lib http sys st g (p, none)
        ≡ after_start lib http sys st g (start st.module_answers (connected (new_probe probes) p))
  unfolding after_sinks after_init
  probed g p probes i k =
      ap (λ x. after_init lib http sys st g (init (made_probe x) p)) k
      ∙ ap (after_init lib http sys st g) (init_connects p (new_probe probes) i refl).0

  unstarted :
      (g : Program lib http sys) (p q : Pipeline (AnySink lib)) (e : PipelineError)
      → start st.module_answers p ≡ (q, some e)
      → after_start lib http sys st g (start st.module_answers p)
        ≡ ok (record g { pipeline = q }, returns (some (starting e)))
  unfolding after_start
  unstarted g p q e h = ap (after_start lib http sys st g) h

  -- If the Influx library behaves as documented, and the run command fails before it has started
  -- the pipeline, it returns an error that names the stage, and leaves the API package and the
  -- sysctls alone. If the sinks cannot be decoded, or one of them cannot be served, or NewProbe
  -- fails, the pipeline has no probe and no worker runs; if the probe cannot start, the probe is
  -- not started and its workers do not run.
  pub run_fails :
      (g : Program lib http sys)
      → ((e : E)
          → decode_sink_config_map st.decode st.params [] ≡ inl e
          → run lib http sys st g ≡ ok (serve_pprof lib http sys st g, returns (some (decoding e))))
        × ((cl : List SinkConfig)
            → decode_sink_config_map st.decode st.params [] ≡ inr cl
            → all_served st.servers cl ≡ false
            → (ss : List (AnySink lib)) × (e : CmdError) × (run lib http sys st g
                ≡ ok (
                  record (serve_pprof lib http sys st g) { pipeline = record new { sinks = ss } },
                  returns (some (sinks_failed e)),
                )))
        × ((cl : List SinkConfig) (e : String)
            → decode_sink_config_map st.decode st.params [] ≡ inr cl
            → all_served st.servers cl ≡ true
            → st.kernel_probes ≡ inl e
            → (p : Pipeline (AnySink lib)) × (run lib http sys st g
                ≡ ok (
                  record (serve_pprof lib http sys st g) { pipeline = p },
                  returns (some (initializing (initializing_probe e))),
                ))
              × (p.probe ≡ none)
              × (p.workers ≡ false))
        × ((cl : List SinkConfig) (probes : List String)
            → decode_sink_config_map st.decode st.params [] ≡ inr cl
            → all_served st.servers cl ≡ true
            → st.kernel_probes ≡ inr probes
            → can_start st.module_answers (new_probe probes) ≡ false
            → (p : Pipeline (AnySink lib)) × (e : Probe.ProbeError) × (bp : Probe) × (run lib http
                  sys st g
                ≡ ok (
                  record (serve_pprof lib http sys st g) { pipeline = p },
                  returns (some (starting (starting_probe e))),
                ))
              × (p.probe ≡ some bp)
              × (bp.started ≡ false)
              × (bp.workers ≡ false))
  unfolding run after_decode after_sinks
  run_fails g = (
    λ e d. ap (after_decode lib http sys st (serve_pprof lib http sys st g)) d,
    λ cl d f. let (ss, e, done) = sinks_refused cl f in (ss, e, refused_at g cl ss (some e) d done),
    λ cl e d t k.
        let (ss, done, _, _) = sinks_made cl t in
        (
          record new { sinks = ss; initialized = true },
          refused_at g cl ss none d done
              ∙ unprobed (serve_pprof lib http sys st g) (record new { sinks = ss }) e refl k,
          refl,
          refl,
        ),
    λ cl probes d t k c.
        let (ss, done, _, _) = sinks_made cl t in
        let made = record new { sinks = ss } in
        let whole = connected (new_probe probes) made in
        let (q, e, bp, failed, has, idle, workers) =
          start_refused whole _ st.module_answers refl refl refl c in
        (
          q,
          e,
          bp,
          refused_at g cl ss none d done
              ∙ (probed (serve_pprof lib http sys st g) made probes refl k
                  ∙ unstarted (serve_pprof lib http sys st g) whole q (starting_probe e) failed),
          has,
          idle,
          workers,
        ),
  )
