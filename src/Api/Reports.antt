-- ===== src/Api/Reports.antt =====
-- What the stats endpoint reports.
use conntracct.Prelude.{
  ◌≡◌, refl, sym, ap, ◌∙◌, Bool, true, false, List, [], ◌∷◌, Option, none, some, String, str_eq, ok,
  ◌>>=◌, ◌⊎◌, inl, inr, Bool-cases, if◌then◌else◌,
}
use conntracct.GoMap.{lookup, assign, lookup-assign_same, lookup-assign_other}
use conntracct.Bpf.Probe.{Probe}
use conntracct.Sinks.Types.{SinkStats}
use conntracct.Sinks.Sink.{SinkOps}
use conntracct.Pipeline.{Pipeline}
use conntracct.Pipeline.Snapshot.{get_stats, probe_stats}
use conntracct.Api.{
  Api, ReplyLib, Report, HttpLib, no_pipe, not_init, name_eq, init, run, sinks_by_name, answer,
  handle_stats,
}

module _ (ops : SinkOps) (lib : ReplyLib) where
  open ops use {Sink, name, stats}

  -- The counters of the last sink of this name.
  abbrev pub last_named : String → List Sink → Option SinkStats → Option SinkStats
  last_named n [] found = found
  last_named n (s ∷ ss) found =
      if str_eq (name s) n then last_named n ss (some (stats s)) else last_named n ss found

  last_named-assign :
      (n : String) (s : Sink) (ss : List Sink) (m : List (String × SinkStats))
      → last_named n ss (lookup name_eq n (assign name_eq (name s) (stats s) m))
        ≡ last_named n (s ∷ ss) (lookup name_eq n m)
  last_named-assign n s ss m = elim (Bool-cases (str_eq (name s) n)) [
    | inl t ↦ rw t (
        ap (last_named n ss) (
          ap (λ k. lookup name_eq k (assign name_eq (name s) (stats s) m))
            (sym (name_eq.same_sound (name s) n t))
          ∙ lookup-assign_same name_eq (name s) (stats s) m))
    | inr f ↦ rw f (ap (last_named n ss) (lookup-assign_other name_eq (name s) n (stats s) m f))
  ]

  lookup-sinks_by_name :
      (n : String) (ss : List Sink) (m : List (String × SinkStats))
      → lookup name_eq n (sinks_by_name ops lib ss m) ≡ last_named n ss (lookup name_eq n m)
  unfolding sinks_by_name
  lookup-sinks_by_name n [] m = refl
  lookup-sinks_by_name n (s ∷ ss) m =
      lookup-sinks_by_name n ss (assign name_eq (name s) (stats s) m) ∙ last_named-assign n s ss m

  answer-unwritten : (x : String ⊎ String) → answer ops lib false x ≡ none
  unfolding answer
  answer-unwritten (inl err) = refl
  answer-unwritten (inr out) = refl

  -- Once the API server has a pipeline with a probe, HandleStats reports the counters of the probe
  -- and of the pipeline, and under the name of every registered sink the counters of the last sink
  -- that has this name: an earlier one of the same name is not in the report. It answers 200 and
  -- the marshalled report as JSON, or 500 if the marshalling fails, and ends the process if the
  -- client does not take the answer.
  pub handle_stats_reports :
      (api : Api (Pipeline Sink)) (p : Pipeline Sink) (ap' : Probe)
      → api.pipe ≡ some p
      → p.probe ≡ some ap'
      → (r : Report) × ((out : String)
          → lib.marshal r ≡ inr out
          → handle_stats ops lib true api
            ≡ ok (
                some (record { status = 200; content_type = some "application/json"; body = out })))
        × ((err : String)
            → lib.marshal r ≡ inl err
            → handle_stats ops lib true api
              ≡ ok (some (record { status = 500; content_type = none; body = lib.format err })))
        × (handle_stats ops lib false api ≡ ok none)
        × (r.probe ≡ ap'.stats)
        × (r.pipeline ≡ get_stats p)
        × ((n : String) → lookup name_eq n r.sinks ≡ last_named n p.sinks none)
  unfolding handle_stats lookup probe_stats answer
  handle_stats_reports api p ap' h g =
      let r : Report = record {
        probe = ap'.stats;
        pipeline = get_stats p;
        sinks = sinks_by_name ops lib p.sinks [];
      } in
      let done : (taken : Bool)
          → handle_stats ops lib taken api ≡ ok (answer ops lib taken (lib.marshal r)) =
        λ taken. rw (handle_stats, h) (rw (probe_stats, g)) in
      (
        r,
        λ out e. done true ∙ ap (λ x. ok (answer ops lib true x)) e,
        λ err e. done true ∙ ap (λ x. ok (answer ops lib true x)) e,
        done false ∙ ap ok (answer-unwritten (lib.marshal r)),
        refl,
        refl,
        λ n. lookup-sinks_by_name n p.sinks [],
      )

module _ {Handle : Type 0} where
  -- Run refuses, and registers nothing, before an Init that got a pipeline: Init with a nil
  -- pipeline reports an error and leaves the package as it was. After an Init with a pipeline Run
  -- registers its handler, and fails only where `http.Handle` panics, as it does on a path that has
  -- a handler.
  pub init-run :
      (lib : HttpLib) (api : Api Handle) (p : Handle) (mux : lib.Mux)
      → (init none api ≡ (api, some no_pipe))
        × (api.init_success ≡ false → run lib api mux ≡ ok (mux, some not_init))
        × ((init (some p) api).1 ≡ none)
        × ((init (some p) api).0.pipe ≡ some p)
        × (run lib (init (some p) api).0 mux ≡ (lib.handle "/" mux >>= λ m. ok (m, none)))
  unfolding init run
  init-run lib api p mux = (refl, λ h. rw (run, h), refl, refl, refl)
