-- ===== src/System/Steps.antt =====
-- Every step of the running program succeeds, and keeps what ties the sinks to the two sources.
use mathlib.Core.Path.{subst}
use conntracct.Prelude.{
  ℕ, suc, ◌+◌, ◌≤◌, ◌≡◌, refl, sym, ap, ◌∙◌, inl, inr, Bool, true, false, not, List, [], ◌∷◌, ◌++◌,
  map, none, some, ok, u64, All, length, length-append, leb, arith, Bool-cases,
}
use conntracct.Bpf.Event.{Event, Bytes, Endian, zero_event, unmarshal_binary}
use conntracct.Bpf.Probe.{count_delivery}
use conntracct.Bpf.Probe.Fanout.{IsOpen, offered, offer-IsOpen, offered-All}
use conntracct.Bpf.Probe.Counters.{IsRunning, reports, perf_round-map}
use conntracct.Bpf.Probe.Ledger.{Ledger, offers, wanted}
use conntracct.Bpf.Probe.Ledger
use conntracct.Sinks.Sink.{SinkOps}
use conntracct.Pipeline.{Pipeline, PipelineStats, update_source_name, destroy_source_name}
use conntracct.Pipeline.Setup.{update_source, destroy_source}
use conntracct.System.{
  Act, Running, Worker, receiving, pushing, delivers, takes, pushes, works, worker_of, with_worker,
  with_sinks, count_event, took, take_step, after, push_step, work_step, deliver_to, act,
}
use conntracct.System.Histories.{
  IsFineWorker, SinkStep, gets, does, given_by, Given, extend, Given-taken, Given-passed,
  Given-pushed, Given-other, Fed, Fed-length, Accepting, at_sink-Fed,
}
use conntracct.System.Simulation.{
  decoded, Linked, Linked-same, Linked-taken_update, Linked-taken_destroy, act_offers, act_delivers,
  act_takes, take_result, take_update, take_destroy, take_event-empty, take_event-item, taken,
  act_takes-empty, act_takes-item, run_none,
}
use conntracct.System.Projection.{record_of, wanted_update, wanted_destroy}

-- The pipeline's counters `t` are those of `s` after these events were received, modulo 2 ^ 64.
pub record Counted (updates destroys : List Event) (s t : PipelineStats) : Type 0 where
  pub total : u64 t.events_total ≡ u64 (s.events_total + (length updates + length destroys))
  pub update : u64 t.events_update ≡ u64 (s.events_update + length updates)
  pub destroy : u64 t.events_destroy ≡ u64 (s.events_destroy + length destroys)

Counted_update :
    (ae : Event) (us ds : List Event) (s t : PipelineStats)
    → Counted us ds s t
    → Counted (us ++ (ae ∷ [])) ds s (count_event true t)
Counted_update ae us ds s t c = record {
  total = omega (arith, c.total, length-append {0} us (ae ∷ []));
  update = omega (arith, c.update, length-append {0} us (ae ∷ []));
  destroy = c.destroy;
}

Counted_destroy :
    (ae : Event) (us ds : List Event) (s t : PipelineStats)
    → Counted us ds s t
    → Counted us (ds ++ (ae ∷ [])) s (count_event false t)
Counted_destroy ae us ds s t c = record {
  total = omega (arith, c.total, length-append {0} ds (ae ∷ []));
  update = c.update;
  destroy = omega (arith, c.destroy, length-append {0} ds (ae ∷ []));
}

-- The event that the kernel's record stands for.
abbrev pub IsFineAct : {Own : Type 0} → (Event → Type 0) → Endian → Act Own → Type 0
IsFineAct IsFine en (delivers update eb receiver) = IsFine (decoded en eb)
IsFineAct IsFine en (takes u) = Unit {0}
IsFineAct IsFine en (pushes u) = Unit {0}
IsFineAct IsFine en (works i o) = Unit {0}

-- The events that a worker has taken.
abbrev pub log_of : Bool → Ledger → Ledger → List Event
log_of true lu ld = lu.log
log_of false lu ld = ld.log

by_kind : (P : Bool → Type 0) → P true → P false → (v : Bool) → P v
by_kind P a b true = a
by_kind P a b false = b

worker_cases :
    {Sink : Type 0} (P : Bool → Worker → Type 0) (u : Bool) (w : Worker) (r : Running Sink)
    → P u w
    → P (not u) (worker_of (not u) r)
    → (v : Bool) → P v (worker_of v (with_worker u w r))
worker_cases P true w r a b true = a
worker_cases P true w r a b false = b
worker_cases P false w r a b true = b
worker_cases P false w r a b false = a

module _ (ops : SinkOps) (en : Endian) (IsFine : Event → Type 0) (Good : ops.Sink → Type 0) where
  open ops use {Sink, Own}

  -- The running program, from a pipeline on: its two sources with what was taken from them, the
  -- history of every sink, and what these have to do with each other.
  pub record State (p : Pipeline Sink) (r : Running Sink) (lu ld : Ledger) : Type 0 where
    pub linked : Linked r.pipeline lu ld
    pub histories : List (List (SinkStep Own))
    pub fed : Fed ops histories p.sinks r.pipeline.sinks
    pub reached : (u : Bool) → Given u (log_of u lu ld) (worker_of u r) histories
    pub counted : Counted lu.log ld.log p.stats r.pipeline.stats
    pub good : All Good r.pipeline.sinks
    pub fine_updates : All IsFine lu.consumer.events.queue
    pub fine_destroys : All IsFine ld.consumer.events.queue
    pub fine_workers : (u : Bool) → IsFineWorker IsFine (worker_of u r)

  -- A step that succeeds, with what it is for each source.
  pub record Stepped (p : Pipeline Sink) (a : Act Own) (r : Running Sink) (lu ld : Ledger)
      : Type 0 where
    pub next : Running Sink
    pub update_next : Ledger
    pub destroy_next : Ledger
    pub done : act ops en a r ≡ ok next
    pub state : State p next update_next destroy_next
    pub update_acts : List Ledger.Act
    pub destroy_acts : List Ledger.Act
    pub update_runs : Ledger.run update_acts lu ≡ ok update_next
    pub destroy_runs : Ledger.run destroy_acts ld ≡ ok destroy_next
    pub update_wanted : wanted update_source update_acts ≡ record_of en true a
    pub destroy_wanted : wanted destroy_source destroy_acts ≡ record_of en false a

  -- A step of the workers or the sinks that touches no source.
  quiet :
      {p : Pipeline Sink} (a : Act Own) (r t : Running Sink) (lu ld : Ledger)
      → [] ≡ record_of en true a
      → [] ≡ record_of en false a
      → act ops en a r ≡ ok t
      → State p t lu ld
      → Stepped p a r lu ld
  quiet a r t lu ld u d e s = record {
    next = t;
    update_next = lu;
    destroy_next = ld;
    done = e;
    state = s;
    update_acts = [];
    destroy_acts = [];
    update_runs = run_none lu;
    destroy_runs = run_none ld;
    update_wanted = u;
    destroy_wanted = d;
  }

  given_by-not :
      (u : Bool) (ae : Event) → let x : SinkStep Own = gets u ae in given_by (not u) x ≡ []
  given_by-not true ae = refl
  given_by-not false ae = refl

  given_by-gets :
      (u : Bool) (ae : Event) → let x : SinkStep Own = gets u ae in given_by u x ≡ ae ∷ []
  given_by-gets true ae = refl
  given_by-gets false ae = refl

  module _ (laws : Accepting ops IsFine Good) (p : Pipeline Sink) (r : Running Sink)
      (lu ld : Ledger) (k : State p r lu ld) where
    step-works : (i : ℕ) (o : Own) → Stepped p (works i o) r lu ld
    unfolding act work_step after
    step-works i o =
        elim (at_sink-Fed ops IsFine Good laws (does o) tt i k.histories p.sinks r.pipeline.sinks
          k.fed k.good) [
            | inl w ↦ quiet (works i o) r r lu ld refl refl (rw w) k
            | inr (ss, done, fed, good) ↦
                quiet (works i o) r (with_sinks ss r) lu ld refl refl (rw done) (record {
                  linked = Linked-same r.pipeline _ lu ld refl refl refl k.linked;
                  histories = extend (does o) i k.histories;
                  fed = fed;
                  reached = kept ss;
                  counted = k.counted;
                  good = good;
                  fine_updates = k.fine_updates;
                  fine_destroys = k.fine_destroys;
                  fine_workers = by_kind _ (k.fine_workers true) (k.fine_workers false);
                })
          ]
      where
        kept :
            (ss : List Sink) (u : Bool)
            → Given u
                (log_of u lu ld)
                (worker_of u (with_sinks ss r))
                (extend (does o) i k.histories)
        kept ss true = Given-other true (does o) i _ _ k.histories refl (k.reached true)
        kept ss false = Given-other false (does o) i _ _ k.histories refl (k.reached false)

    -- The worker is in its loop.
    step-pushing :
        (u : Bool) (ae : Event) (n : ℕ)
        → worker_of u r ≡ pushing ae n
        → Stepped p (pushes u) r lu ld
    unfolding act push_step after
    step-pushing u ae n e =
        let same : act ops en (pushes u) r ≡ push_step ops u (pushing ae n) r =
          ap (λ w. push_step ops u w r) e in
        let here = subst (λ w. Given u (log_of u lu ld) w k.histories) e (k.reached u) in
        let fine : IsFine ae = subst (IsFineWorker IsFine) e (k.fine_workers u) in
        elim (Bool-cases (leb (length r.pipeline.sinks) n)) [
          | inl past ↦
              let passed : length r.pipeline.sinks ≤ n = ground (arith, past) in
              quiet (pushes u) r (with_worker u receiving r) lu ld refl refl (same ∙ rw past)
                (record {
                  linked = Linked-same r.pipeline _ lu ld refl refl refl k.linked;
                  histories = k.histories;
                  fed = k.fed;
                  reached =
                      worker_cases (λ v w. Given v (log_of v lu ld) w k.histories) u receiving r
                        (Given-passed u ae n (log_of u lu ld) k.histories
                          (omega (
                            arith,
                            passed,
                            Fed-length ops k.histories p.sinks r.pipeline.sinks k.fed,
                          ))
                          here)
                        (k.reached (not u));
                  counted = k.counted;
                  good = k.good;
                  fine_updates = k.fine_updates;
                  fine_destroys = k.fine_destroys;
                  fine_workers =
                      worker_cases (λ v w. IsFineWorker IsFine w) u receiving r tt
                        (k.fine_workers (not u));
                })
          | inr before ↦
              elim (at_sink-Fed ops IsFine Good laws (gets u ae) fine n k.histories p.sinks
                r.pipeline.sinks k.fed k.good) [
                  | inl w ↦ quiet (pushes u) r r lu ld refl refl (same ∙ rw (before, w)) k
                  | inr (ss, done, fed, good) ↦
                      quiet (pushes u) r (with_worker u (pushing ae (suc n)) (with_sinks ss r)) lu
                        ld refl refl (same ∙ rw (before, done))
                        (record {
                          linked = Linked-same r.pipeline _ lu ld refl refl refl k.linked;
                          histories = extend (gets u ae) n k.histories;
                          fed = fed;
                          reached =
                              worker_cases
                                (λ v w.
                                  Given v (log_of v lu ld) w (extend (gets u ae) n k.histories))
                                u (pushing ae (suc n)) (with_sinks ss r)
                                (Given-pushed u ae n (log_of u lu ld) k.histories
                                  (given_by-gets u ae) here)
                                (other u ss);
                          counted = k.counted;
                          good = good;
                          fine_updates = k.fine_updates;
                          fine_destroys = k.fine_destroys;
                          fine_workers =
                              worker_cases (λ v w. IsFineWorker IsFine w) u (pushing ae (suc n))
                                (with_sinks ss r) fine (fine_other u ss);
                        })
                ]
        ]
      where
        other :
            (v : Bool) (ss : List Sink)
            → Given
                (not v)
                (log_of (not v) lu ld)
                (worker_of (not v) (with_sinks ss r))
                (extend (gets v ae) n k.histories)
        other true ss =
            Given-other false (gets true ae) n _ _ k.histories (given_by-not true ae)
              (k.reached false)
        other false ss =
            Given-other true (gets false ae) n _ _ k.histories (given_by-not false ae)
              (k.reached true)

        fine_other :
            (v : Bool) (ss : List Sink) → IsFineWorker IsFine (worker_of (not v) (with_sinks ss r))
        fine_other true ss = k.fine_workers false
        fine_other false ss = k.fine_workers true

    step-pushes : (u : Bool) (w : Worker) → worker_of u r ≡ w → Stepped p (pushes u) r lu ld
    unfolding act push_step
    step-pushes u receiving e =
        quiet (pushes u) r r lu ld refl refl (ap (λ w. push_step ops u w r) e) k
    step-pushes u (pushing ae n) e = step-pushing u ae n e

    -- A worker in its loop does not receive.
    step-busy :
        (u : Bool) (ae : Event) (n : ℕ) → worker_of u r ≡ pushing ae n → Stepped p (takes u) r lu ld
    unfolding act take_step
    step-busy u ae n e = quiet (takes u) r r lu ld refl refl (ap (λ w. ok (take_step u w r)) e) k

    -- The update worker receives, from a channel that holds these events.
    step-takes_update :
        (q : List Event)
        → r.update_worker ≡ receiving
        → lu.consumer.events.queue ≡ q
        → Stepped p (takes true) r lu ld
    unfolding took
    step-takes_update [] w e =
        let l = k.linked in
        let empty = take_event-empty lu.consumer l.update_open e in
        let next = take_result ops en true l.probe r (lu.consumer ∷ ld.consumer ∷ [], none) in
        record {
          next = next;
          update_next = lu;
          destroy_next = ld;
          done =
              act_takes ops en true update_source_name r l.probe w l.update_source l.has_probe
              ∙ ap (λ x. ok (take_result ops en true l.probe r x)) (take_update l _ empty);
          state = record {
            linked =
                Linked-taken_update r.pipeline next.pipeline lu ld lu l refl l.update_open refl refl
                  refl;
            histories = k.histories;
            fed = k.fed;
            reached = by_kind _ (k.reached true) (k.reached false);
            counted = k.counted;
            good = k.good;
            fine_updates = k.fine_updates;
            fine_destroys = k.fine_destroys;
            fine_workers = by_kind _ (k.fine_workers true) (k.fine_workers false);
          };
          update_acts = Ledger.takes ∷ [];
          destroy_acts = [];
          update_runs = act_takes-empty lu l.update_open e;
          destroy_runs = run_none ld;
          update_wanted = refl;
          destroy_wanted = refl;
        }
    step-takes_update (ae ∷ q) w e =
        let l = k.linked in
        let item = take_event-item lu.consumer ae q e in
        let mu = taken ae q lu in
        let next = take_result ops en true l.probe r (mu.consumer ∷ ld.consumer ∷ [], some ae) in
        record {
          next = next;
          update_next = mu;
          destroy_next = ld;
          done =
              act_takes ops en true update_source_name r l.probe w l.update_source l.has_probe
              ∙ ap (λ x. ok (take_result ops en true l.probe r x)) (take_update l _ item);
          state = record {
            linked =
                Linked-taken_update r.pipeline next.pipeline lu ld mu l refl l.update_open refl refl
                  refl;
            histories = k.histories;
            fed = k.fed;
            reached =
                by_kind _
                  (Given-taken true ae lu.log k.histories
                    (subst (λ x. Given true lu.log x k.histories) w (k.reached true)))
                  (k.reached false);
            counted = Counted_update ae lu.log ld.log p.stats r.pipeline.stats k.counted;
            good = k.good;
            fine_updates = (subst (All IsFine) e k.fine_updates).1;
            fine_destroys = k.fine_destroys;
            fine_workers = by_kind _ (subst (All IsFine) e k.fine_updates).0 (k.fine_workers false);
          };
          update_acts = Ledger.takes ∷ [];
          destroy_acts = [];
          update_runs = act_takes-item lu ae q e;
          destroy_runs = run_none ld;
          update_wanted = refl;
          destroy_wanted = refl;
        }

    step-takes_destroy :
        (q : List Event)
        → r.destroy_worker ≡ receiving
        → ld.consumer.events.queue ≡ q
        → Stepped p (takes false) r lu ld
    unfolding took
    step-takes_destroy [] w e =
        let l = k.linked in
        let empty = take_event-empty ld.consumer l.destroy_open e in
        let next = take_result ops en false l.probe r (lu.consumer ∷ ld.consumer ∷ [], none) in
        record {
          next = next;
          update_next = lu;
          destroy_next = ld;
          done =
              act_takes ops en false destroy_source_name r l.probe w l.destroy_source l.has_probe
              ∙ ap (λ x. ok (take_result ops en false l.probe r x)) (take_destroy l _ empty);
          state = record {
            linked =
                Linked-taken_destroy r.pipeline next.pipeline lu ld ld l refl l.destroy_open refl
                  refl refl;
            histories = k.histories;
            fed = k.fed;
            reached = by_kind _ (k.reached true) (k.reached false);
            counted = k.counted;
            good = k.good;
            fine_updates = k.fine_updates;
            fine_destroys = k.fine_destroys;
            fine_workers = by_kind _ (k.fine_workers true) (k.fine_workers false);
          };
          update_acts = [];
          destroy_acts = Ledger.takes ∷ [];
          update_runs = run_none lu;
          destroy_runs = act_takes-empty ld l.destroy_open e;
          update_wanted = refl;
          destroy_wanted = refl;
        }
    step-takes_destroy (ae ∷ q) w e =
        let l = k.linked in
        let item = take_event-item ld.consumer ae q e in
        let md = taken ae q ld in
        let next = take_result ops en false l.probe r (lu.consumer ∷ md.consumer ∷ [], some ae) in
        record {
          next = next;
          update_next = lu;
          destroy_next = md;
          done =
              act_takes ops en false destroy_source_name r l.probe w l.destroy_source l.has_probe
              ∙ ap (λ x. ok (take_result ops en false l.probe r x)) (take_destroy l _ item);
          state = record {
            linked =
                Linked-taken_destroy r.pipeline next.pipeline lu ld md l refl l.destroy_open refl
                  refl refl;
            histories = k.histories;
            fed = k.fed;
            reached = by_kind _ (k.reached true) (
                Given-taken false ae ld.log k.histories
                  (subst (λ x. Given false ld.log x k.histories) w (k.reached false)));
            counted = Counted_destroy ae lu.log ld.log p.stats r.pipeline.stats k.counted;
            good = k.good;
            fine_updates = k.fine_updates;
            fine_destroys = (subst (All IsFine) e k.fine_destroys).1;
            fine_workers = by_kind _ (k.fine_workers true) (subst (All IsFine) e k.fine_destroys).0;
          };
          update_acts = [];
          destroy_acts = Ledger.takes ∷ [];
          update_runs = run_none lu;
          destroy_runs = act_takes-item ld ae q e;
          update_wanted = refl;
          destroy_wanted = refl;
        }

    step-takes : (u : Bool) (w : Worker) → worker_of u r ≡ w → Stepped p (takes u) r lu ld
    step-takes true receiving e = step-takes_update lu.consumer.events.queue e refl
    step-takes false receiving e = step-takes_destroy ld.consumer.events.queue e refl
    step-takes u (pushing ae n) e = step-busy u ae n e

    Linked-IsRunning : IsRunning k.linked.probe
    Linked-IsRunning = record {
      consumers_open =
          subst (All IsOpen) (sym k.linked.sources)
            (k.linked.update_open, (k.linked.destroy_open, tt));
      errors_open = k.linked.errors_open;
    }

    step-delivers :
        (update : Bool) (eb : Bytes) (receiver : Bool)
        → IsFine (decoded en eb)
        → Stepped p (delivers update eb receiver) r lu ld
    unfolding deliver_to
    step-delivers update eb receiver fine =
        let l = k.linked in
        let ae = decoded en eb in
        let given = offered ae update in
        let (_, name_u, open_u, _) = offer-IsOpen ae update lu.consumer l.update_open in
        let (_, name_d, open_d, _) = offer-IsOpen ae update ld.consumer l.destroy_open in
        let ap' = record (l.probe) {
          stats = count_delivery update l.probe.stats;
          consumers = map given l.probe.consumers;
          reported =
              reports (unmarshal_binary en zero_event eb).1 receiver l.probe.err_chan
                l.probe.reported;
        } in
        let next = record r { pipeline = record (r.pipeline) { probe = some ap' } } in
        record {
          next = next;
          update_next = record lu { consumer = given lu.consumer };
          destroy_next = record ld { consumer = given ld.consumer };
          done =
              act_delivers ops en update eb receiver r l.probe l.has_probe
              ∙ rw (perf_round-map en update eb receiver l.probe Linked-IsRunning);
          state = record {
            linked = record {
              probe = ap';
              has_probe = refl;
              sources = ap (map given) l.sources;
              errors_open = l.errors_open;
              up = l.up;
              update_source = l.update_source;
              destroy_source = l.destroy_source;
              update_name = name_u ∙ l.update_name;
              destroy_name = name_d ∙ l.destroy_name;
              update_open = open_u;
              destroy_open = open_d;
            };
            histories = k.histories;
            fed = k.fed;
            reached = by_kind _ (k.reached true) (k.reached false);
            counted = k.counted;
            good = k.good;
            fine_updates =
                offered-All IsFine ae update lu.consumer l.update_open fine k.fine_updates;
            fine_destroys =
                offered-All IsFine ae update ld.consumer l.destroy_open fine k.fine_destroys;
            fine_workers = by_kind _ (k.fine_workers true) (k.fine_workers false);
          };
          update_acts = offers ae update ∷ [];
          destroy_acts = offers ae update ∷ [];
          update_runs = act_offers ae update lu l.update_open;
          destroy_runs = act_offers ae update ld l.destroy_open;
          update_wanted = wanted_update Own en update eb receiver;
          destroy_wanted = wanted_destroy Own en update eb receiver;
        }

    pub step : (a : Act Own) → IsFineAct IsFine en a → Stepped p a r lu ld
    step (delivers update eb receiver) fine = step-delivers update eb receiver fine
    step (takes u) fine = step-takes u (worker_of u r) refl
    step (pushes u) fine = step-pushes u (worker_of u r) refl
    step (works i o) fine = step-works i o
