-- ===== src/Pipeline/Setup.antt =====
-- `Init`, `Start` and `Stop` of the pipeline, each of which has an effect once.
use conntracct.Prelude.{
  ◌≡◌, ◌≢◌, refl, ap, true, false, [], ◌∷◌, Option, none, some, String, ok, panic, ◌>>=◌, ◌⊎◌, inl,
  inr, arith,
}
use conntracct.Chan.{make}
use conntracct.Bpf.Consumer.{
  Consumer, new_consumer, register_consumer, get_consumer, index_of, consumer_update,
  consumer_destroy, want_update, want_destroy,
}
use conntracct.Bpf.Consumer.Registry.{Unique}
use conntracct.Bpf.Probe.{Probe, Module, ProbeError, wants}
use conntracct.Bpf.Probe
use conntracct.Bpf.Probe.Lifecycle.{can_start, is_none, start_outcome, IsUp, stopped, stop-IsUp}
use conntracct.Pipeline.{
  Pipeline, starting_probe, stopping_probe, stopped_probe, acct_not_initialized, init, start,
  started_probe, stop, update_source_name, destroy_source_name,
}

abbrev pub update_source : Consumer
update_source = new_consumer update_source_name (make 1024) consumer_update

abbrev pub destroy_source : Consumer
destroy_source = new_consumer destroy_source_name (make 1024) consumer_destroy

is_none-some : {A : Type 0} (o : Option A) → is_none o ≡ false → (a : A) × (o ≡ some a)
is_none-some none h = cc
is_none-some (some a) h = (a, refl)

module _ {Sink : Type 0} where
  -- What a successful `Init` makes of the pipeline and of the new probe.
  abbrev pub connected : Probe → Pipeline Sink → Pipeline Sink
  connected ap p = record p {
    initialized = true;
    update_source = some update_source_name;
    destroy_source = some destroy_source_name;
    probe = some (record ap { consumers = update_source ∷ destroy_source ∷ [] });
  }

  -- The first `Init` on a new probe, which has no consumers yet, succeeds. It registers two
  -- consumers that are found under their two names and no other, one asking for updates only and
  -- one for destroy events only, and saves the probe.
  pub init_connects :
      (p : Pipeline Sink) (ap : Probe)
      → p.initialized ≡ false
      → ap.consumers ≡ []
      → (init (inr ap) p ≡ (connected ap p, none))
        × Unique (update_source ∷ destroy_source ∷ [])
        × (wants true update_source ≡ true)
        × (wants false update_source ≡ false)
        × (wants true destroy_source ≡ false)
        × (wants false destroy_source ≡ true)
  unfolding init register_consumer index_of get_consumer new_consumer wants want_update want_destroy
  init_connects p ap h e = (ground (arith, h, e), (refl, (refl, tt)), refl, refl, refl, refl)

  init-initialized : (p : Pipeline Sink) (r : String ⊎ Probe) → (init r p).0.initialized ≡ true
  unfolding init
  init-initialized p (inl e) = ground arith
  init-initialized p (inr ap) = ground arith

  init-again :
      (p : Pipeline Sink) (r : String ⊎ Probe) → p.initialized ≡ true → init r p ≡ (p, none)
  unfolding init
  init-again p r h = ground (arith, h)

  init_failed-probe :
      (p : Pipeline Sink) (r : String ⊎ Probe)
      → p.probe ≡ none
      → (init r p).1 ≢ none
      → (init r p).0.probe ≡ none
  unfolding init
  init_failed-probe p (inl e) h f = ground (arith, h)
  init_failed-probe p (inr ap) h f = ground (arith, h, f)

  without_probe :
      (p : Pipeline Sink) (m : Module) (answer : Option String)
      → p.probe ≡ none
      → (start m p ≡ (p, some acct_not_initialized)) × (stop answer p ≡ panic)
  unfolding start stop
  without_probe p m answer h = (ground (arith, h), ground (arith, h))

  started_once :
      (p : Pipeline Sink) (ap : Probe) (m m' : Module)
      → p.probe ≡ some ap
      → start m' (start m p).0 ≡ ((start m p).0, none)
  unfolding start started_probe
  started_once p ap m m' h = ground arith

  -- A later `Init` changes nothing and reports no error, also if the first one failed. After a
  -- failed first `Init` the pipeline has no probe: `Start` reports that it is not initialized, and
  -- `Stop` panics. Once a pipeline has a probe, only the first `Start` has an effect: the error of
  -- a probe that failed to start is reported once, and a later `Start` reports none and starts
  -- nothing.
  pub runs_once :
      (p q : Pipeline Sink) (r r' : String ⊎ Probe) (ap' : Probe) (m m' : Module)
      → q.probe ≡ some ap'
      → (init r' (init r p).0 ≡ ((init r p).0, none))
        × (p.probe ≡ none
            → (init r p).1 ≢ none
            → (answer : Option String)
            → (start m (init r p).0 ≡ ((init r p).0, some acct_not_initialized))
              × (stop answer (init r p).0 ≡ panic))
        × (start m' (start m q).0 ≡ ((start m q).0, none))
  runs_once p q r r' ap' m m' has = (
    init-again (init r p).0 r' (init-initialized p r),
    λ h f answer. without_probe (init r p).0 m answer (init_failed-probe p r h f),
    started_once q ap' m m' has,
  )

  -- A first start of a probe that cannot start.
  pub start_refused :
      (p : Pipeline Sink) (ap' : Probe) (m : Module)
      → p.probe ≡ some ap'
      → p.launched ≡ false
      → ap'.started ≡ false
      → can_start m ap' ≡ false
      → (q : Pipeline Sink) × (e : ProbeError) × (bp : Probe) × (start m p
          ≡ (q, some (starting_probe e)))
        × (q.probe ≡ some bp)
        × (bp.started ≡ false)
        × (bp.workers ≡ ap'.workers)
  unfolding start started_probe
  start_refused p ap' m h l s c =
      let (failed, idle, workers) = (start_outcome m ap').2 s c in
      let (e, is_e) = is_none-some (Probe.start m ap').1 failed in
      (
        record p { launched = true; workers = true; probe = some (Probe.start m ap').0 },
        e,
        (Probe.start m ap').0,
        rw (start, h)
            (rw l (
              ap (started_probe (record p { launched = true; workers = true }))
                (λ i. ((Probe.start m ap').0, is_e i)))),
        refl,
        idle,
        workers,
      )

  -- `Stop` once the probe is up.
  pub stop_up :
      (p : Pipeline Sink) (ap' : Probe)
      → p.probe ≡ some ap'
      → IsUp ap'
      → (stop none p ≡ ok (record p { probe = some (stopped ap') }, none))
        × ((e : String)
            → stop (some e) p
              ≡ ok (record p { probe = some ap' }, some (stopping_probe (Probe.module_close e))))
  unfolding stop stopped_probe
  stop_up p ap' h u = (
    rw (stop, h) (ap (λ x. x >>= λ r. ok (stopped_probe p r)) (stop-IsUp ap' u).0),
    λ e. rw (stop, h) (ap (λ x. x >>= λ r. ok (stopped_probe p r)) ((stop-IsUp ap' u).1 e)),
  )
