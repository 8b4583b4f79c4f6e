-- ===== src/System/Delivery.antt =====
-- Runs of the program from a started pipeline on: what becomes of every record of the kernel.
use mathlib.Core.Path.{subst}
use conntracct.Prelude.{
  All, ◌≡◌, refl, sym, ap, ◌∙◌, Bool, true, false, List, [], ◌∷◌, ◌++◌, none, some, ok, ◌>>=◌, inr,
  arith,
}
use conntracct.Bpf.Event.{Event, Endian}
use conntracct.Bpf.Consumer.{new_consumer, consumer_update, consumer_destroy}
use conntracct.Bpf.Probe.{Probe, Module, wants}
use conntracct.Bpf.Probe
use conntracct.Bpf.Probe.Lifecycle.{can_start, running, start_outcome}
use conntracct.Bpf.Probe.Ledger.{Ledger, Kept, offers, takes, fresh, wanted, run-new_consumer}
use conntracct.Bpf.Probe.Ledger
use conntracct.Sinks.Sink.{SinkOps}
use conntracct.Pipeline.{Pipeline, init, start, update_source_name, destroy_source_name}
use conntracct.Pipeline.Setup.{connected, init_connects, update_source, destroy_source}
use conntracct.System.{Act, Running, worker_of, begun, run}
use conntracct.System.Histories.{
  IsFineWorker, SinkStep, Given, Given-begun, Fed, begin, begin-Fed, Accepting,
}
use conntracct.System.Simulation.{Linked, run_none}
use conntracct.System.Steps.{IsFineAct, log_of, Counted, State, step}
use conntracct.System.Projection.{
  record_of, run-append, wanted-append, delivered, fresh_update, fresh_destroy, Kept-at,
}

module _ (ops : SinkOps) (en : Endian) (IsFine : Event → Type 0) (Good : ops.Sink → Type 0) where
  open ops use {Sink, Own}

  -- A run that succeeds, with what it is for each source.
  record Ran (p : Pipeline Sink) (acts : List (Act Own)) (r : Running Sink) (lu ld : Ledger)
      : Type 0 where
    last : Running Sink
    update_end : Ledger
    destroy_end : Ledger
    runs : run ops en acts r ≡ ok last
    state : State ops en IsFine Good p last update_end destroy_end
    update_acts : List Ledger.Act
    destroy_acts : List Ledger.Act
    update_runs : Ledger.run update_acts lu ≡ ok update_end
    destroy_runs : Ledger.run destroy_acts ld ≡ ok destroy_end
    update_wanted : wanted update_source update_acts ≡ delivered en true acts
    destroy_wanted : wanted destroy_source destroy_acts ≡ delivered en false acts

  run-Ran :
      Accepting ops IsFine Good
      → (p : Pipeline Sink) (acts : List (Act Own)) → All (IsFineAct IsFine en) acts
      → (r : Running Sink) (lu ld : Ledger) → State ops en IsFine Good p r lu ld
      → Ran p acts r lu ld
  unfolding run
  run-Ran laws p [] fine r lu ld k = record {
    last = r;
    update_end = lu;
    destroy_end = ld;
    runs = refl;
    state = k;
    update_acts = [];
    destroy_acts = [];
    update_runs = run_none lu;
    destroy_runs = run_none ld;
    update_wanted = refl;
    destroy_wanted = refl;
  }
  run-Ran laws p (a ∷ acts) fine r lu ld k =
      let s = step ops en IsFine Good laws p r lu ld k a fine.0 in
      let t = run-Ran laws p acts fine.1 s.next s.update_next s.destroy_next s.state in
      record {
        last = t.last;
        update_end = t.update_end;
        destroy_end = t.destroy_end;
        runs = ap (λ x. x >>= run ops en acts) s.done ∙ t.runs;
        state = t.state;
        update_acts = s.update_acts ++ t.update_acts;
        destroy_acts = s.destroy_acts ++ t.destroy_acts;
        update_runs =
            run-append s.update_acts t.update_acts lu s.update_next s.update_runs ∙ t.update_runs;
        destroy_runs =
            run-append s.destroy_acts t.destroy_acts ld s.destroy_next s.destroy_runs
            ∙ t.destroy_runs;
        update_wanted =
            wanted-append update_source s.update_acts t.update_acts
            ∙ (ap (λ z. z ++ wanted update_source t.update_acts) s.update_wanted
                ∙ ap (λ z. record_of en true a ++ z) t.update_wanted);
        destroy_wanted =
            wanted-append destroy_source s.destroy_acts t.destroy_acts
            ∙ (ap (λ z. z ++ wanted destroy_source t.destroy_acts) s.destroy_wanted
                ∙ ap (λ z. record_of en false a ++ z) t.destroy_wanted);
      }

  -- The program after a run from p on. The two ledgers hold what each worker received, and what
  -- waits for it.
  pub record Delivered (acts : List (Act Own)) (p : Pipeline Sink) (r : Running Sink) : Type 0 where
    pub update_end : Ledger
    pub destroy_end : Ledger
    pub linked : Linked r.pipeline update_end destroy_end
    pub histories : List (List (SinkStep Own))
    pub fed : Fed ops histories p.sinks r.pipeline.sinks
    pub update_reached : Given true update_end.log r.update_worker histories
    pub destroy_reached : Given false destroy_end.log r.destroy_worker histories
    pub counted : Counted update_end.log destroy_end.log p.stats r.pipeline.stats
    pub good : All Good r.pipeline.sinks
    pub update_kept : Kept update_source (delivered en true acts) update_end
    pub destroy_kept : Kept destroy_source (delivered en false acts) destroy_end

  -- The pipeline after a first `Init` and `Start` that succeed.
  abbrev pub started : Probe → Module → Pipeline Sink → Pipeline Sink
  started ap' m p = (start m (init (inr ap') p).0).0

  abbrev with_sources : Probe → Probe
  with_sources ap' = record ap' { consumers = update_source ∷ destroy_source ∷ [] }

  start_connected :
      (p : Pipeline Sink) (ap' : Probe) (m : Module)
      → p.launched ≡ false
      → Probe.start m (with_sources ap') ≡ (running (with_sources ap'), none)
      → start m (connected ap' p) ≡ (
        record (connected ap' p) {
          launched = true;
          workers = true;
          probe = some (running (with_sources ap'));
        },
        none,
      )
  unfolding start
  start_connected p ap' m l e = ground (arith, l, e)

  started-Linked :
      (p : Pipeline Sink) (ap' : Probe) (m : Module)
      → p.initialized ≡ false
      → p.launched ≡ false
      → ap'.consumers ≡ []
      → ap'.started ≡ false
      → can_start m ap' ≡ true
      → (started ap' m p ≡ record (connected ap' p) {
        launched = true;
        workers = true;
        probe = some (running (with_sources ap'));
      })
        × Linked (started ap' m p) fresh_update fresh_destroy
  unfolding new_consumer
  started-Linked p ap' m i l c s h =
      let fine = (start_outcome m (with_sources ap')).1 s h in
      let same =
        ap (λ r. (start m r.0).0) (init_connects p ap' i c).0
        ∙ ap (λ r. r.0) (start_connected p ap' m l fine) in
      (
        same,
        subst (λ q. Linked q fresh_update fresh_destroy) (sym same)
            (record {
              probe = running (with_sources ap');
              has_probe = refl;
              sources = refl;
              errors_open = refl;
              up = (refl, refl, refl, refl, refl);
              update_source = refl;
              destroy_source = refl;
              update_name = refl;
              destroy_name = refl;
              update_open = refl;
              destroy_open = refl;
            }),
      )

  pub started-starts :
      (p : Pipeline Sink) (ap' : Probe) (m : Module)
      → p.initialized ≡ false
      → p.launched ≡ false
      → ap'.consumers ≡ []
      → ap'.started ≡ false
      → can_start m ap' ≡ true
      → start m (init (inr ap') p).0 ≡ (started ap' m p, none)
  started-starts p ap' m i l c s h =
      let fine = (start_outcome m (with_sources ap')).1 s h in
      ap (λ r. start m r.0) (init_connects p ap' i c).0
      ∙ (start_connected p ap' m l fine
          ∙ ap (λ q. (q, none)) (sym (started-Linked p ap' m i l c s h).0))

  begun-State :
      (p q : Pipeline Sink)
      → q.sinks ≡ p.sinks
      → q.stats ≡ p.stats
      → Linked q fresh_update fresh_destroy
      → All Good p.sinks
      → State ops en IsFine Good p (begun q) fresh_update fresh_destroy
  unfolding new_consumer
  begun-State p q e c k g =
      let (fed, empty) = begin-Fed ops p.sinks in
      record {
        linked = k;
        histories = begin ops p.sinks;
        fed = subst (Fed ops (begin ops p.sinks) p.sinks) (sym e) fed;
        reached = begun_reached (begin ops p.sinks) empty;
        counted =
            subst (Counted [] [] p.stats) (sym c)
              (record { total = omega arith; update = omega arith; destroy = omega arith });
        good = subst (All Good) (sym e) g;
        fine_updates = tt;
        fine_destroys = tt;
        fine_workers = λ u. begun_fine u;
      }
    where
      begun_fine : (u : Bool) → IsFineWorker IsFine (worker_of u (begun q))
      begun_fine true = tt
      begun_fine false = tt

      begun_reached :
          (hs : List (List (SinkStep Own)))
          → All (λ h. h ≡ []) hs
          → (u : Bool) → Given u (log_of u fresh_update fresh_destroy) (worker_of u (begun q)) hs
      begun_reached hs none_yet true = Given-begun true hs none_yet
      begun_reached hs none_yet false = Given-begun false hs none_yet

  -- From a first `Init` and `Start` that succeed on, with sinks that take the events that the
  -- kernel's records stand for, or let them wait for their lock, no interleaving of the kernel's records, malformed ones too, of the
  -- receives of the two workers, of their pushes sink by sink and of the sinks' own goroutines
  -- panics. Of each kind, the events that its worker received and the ones that still wait are, in
  -- order, among the kernel's records of that kind; what is missing is counted as lost, and at most
  -- 1024 wait. Every sink is as if alone with its history, a sequence of events and steps of its
  -- own, in which the events of each kind are exactly the ones that its worker received, each once
  -- and in order, but for the one that the worker still has to bring to it; between the two kinds
  -- two sinks may see different orders. The pipeline's counters are those of the received events.
  pub run-started :
      Accepting ops IsFine Good
      → (acts : List (Act Own)) → All (IsFineAct IsFine en) acts
      → (p : Pipeline Sink) (ap' : Probe) (m : Module) → p.initialized ≡ false
      → p.launched ≡ false
      → ap'.consumers ≡ []
      → ap'.started ≡ false
      → can_start m ap' ≡ true
      → All Good p.sinks
      → (r : Running Sink) × (run ops en acts (begun (started ap' m p)) ≡ ok r) × Delivered acts p r
  run-started laws acts fine p ap' m i l c s h g =
      let (same, linked) = started-Linked p ap' m i l c s h in
      let t = run-Ran laws p acts fine (begun (started ap' m p)) fresh_update fresh_destroy (
        begun-State p (started ap' m p) (ap (λ (x : Pipeline Sink). x.sinks) same)
          (ap (λ (x : Pipeline Sink). x.stats) same) linked g) in
      (
        t.last,
        t.runs,
        record {
          update_end = t.update_end;
          destroy_end = t.destroy_end;
          linked = t.state.linked;
          histories = t.state.histories;
          fed = t.state.fed;
          update_reached = t.state.reached true;
          destroy_reached = t.state.reached false;
          counted = t.state.counted;
          good = t.state.good;
          update_kept =
              subst (λ w. Kept update_source w t.update_end) t.update_wanted
                (Kept-at update_source_name consumer_update t.update_acts t.update_end
                  t.update_runs);
          destroy_kept =
              subst (λ w. Kept destroy_source w t.destroy_end) t.destroy_wanted
                (Kept-at destroy_source_name consumer_destroy t.destroy_acts t.destroy_end
                  t.destroy_runs);
        },
      )
