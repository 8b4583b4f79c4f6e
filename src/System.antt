-- ===== src/System.antt =====
-- The running program: the perf worker of pkg/bpf/probe.go, the two workers of
-- internal/pipeline/acct.go and the goroutines of the sinks. The two workers share a read lock only, so
-- their rounds overlap: a round is a step for the receive and one for each push.
pub mod Histories
pub mod Simulation
pub mod Steps
pub mod Projection
pub mod Delivery
mod Tests
use conntracct.Prelude.{
  ℕ, suc, ◌-◌, Bool, true, false, List, [], ◌∷◌, Option, none, some, String, str_eq, Go, ok, panic,
  waits, ◌>>=◌, ◌==◌, leb, length, if◌then◌else◌,
}
use conntracct.Chan.{Received, item, drained, blocked, receive}
use conntracct.Bpf.Event.{Event, Bytes, Endian}
use conntracct.Bpf.Consumer.{Consumer}
use conntracct.Bpf.Probe.{Probe, perf_round}
use conntracct.Sinks.Sink.{SinkOps}
use conntracct.Pipeline.{Pipeline, PipelineStats, incr_events_update, incr_events_destroy}

-- Where a worker stands: at its receive, or in the loop over the sinks with an event, before the
-- sink with this index.
pub data Worker : Type 0 where
  receiving : Worker
  pushing : Event → ℕ → Worker

pub record Running (Sink : Type 0) : Type 0 where
  pub pipeline : Pipeline Sink
  pub update_worker : Worker
  pub destroy_worker : Worker

-- What can happen next: the kernel hands a record over on one of the two perf maps (`true` for
-- updates), with whether somebody waits on the error channel; a worker receives; a worker goes on
-- to the next sink; or the goroutine of the sink at a place makes a step of its own.
pub data Act (Own : Type 0) : Type 0 where
  delivers : Bool → Bytes → Bool → Act Own
  takes : Bool → Act Own
  pushes : Bool → Act Own
  works : ℕ → Own → Act Own

-- `ae, ok := <-c` in a pipeline worker. The source is a consumer that the probe holds too, so it
-- is the probe's one of this name that loses the event.
pub take_event : Consumer → Received Event → Consumer × Option Event
take_event c (item ae ch) = (record c { events = ch }, some ae)
take_event c drained = (c, none)
take_event c blocked = (c, none)

pub take_from : String → List Consumer → List Consumer × Option Event
unfolding take_event
take_from n [] = ([], none)
take_from n (c ∷ cs) =
    let r = take_event c (receive c.events) in
    let rest = take_from n cs in if str_eq c.name n then (r.0 ∷ cs, r.1) else (c ∷ rest.0, rest.1)

abbrev pub source_of : {Sink : Type 0} → Bool → Pipeline Sink → Option String
source_of true p = p.update_source
source_of false p = p.destroy_source

-- `p.stats.IncrEventsUpdate()` or `p.stats.IncrEventsDestroy()`.
abbrev pub count_event : Bool → PipelineStats → PipelineStats
count_event true s = incr_events_update s
count_event false s = incr_events_destroy s

abbrev pub worker_of : {Sink : Type 0} → Bool → Running Sink → Worker
worker_of true r = r.update_worker
worker_of false r = r.destroy_worker

abbrev pub with_worker : {Sink : Type 0} → Bool → Worker → Running Sink → Running Sink
with_worker u w r = record r {
  update_worker = if u then w else r.update_worker;
  destroy_worker = if u then r.destroy_worker else w;
}

abbrev pub with_sinks : {Sink : Type 0} → List Sink → Running Sink → Running Sink
with_sinks ss r = record r { pipeline = record (r.pipeline) { sinks = ss } }

-- The program right after the start, with both workers at their receives.
abbrev pub begun : {Sink : Type 0} → Pipeline Sink → Running Sink
begun p = record { pipeline = p; update_worker = receiving; destroy_worker = receiving }

-- An event that was received is counted before it is pushed.
pub took : {Sink : Type 0} → Bool → Option Event → Running Sink → Running Sink
took u none r = r
took u (some ae) r =
    with_worker u (pushing ae 0)
      (record r { pipeline = record (r.pipeline) { stats = count_event u r.pipeline.stats } })

take : {Sink : Type 0} → Bool → Option String → Option Probe → Running Sink → Running Sink
unfolding take_from took
take u none ap r = r
take u (some n) none r = r
take u (some n) (some ap) r =
    let x = take_from n ap.consumers in
    took u x.1
      (record r { pipeline = record (r.pipeline) { probe = some (record ap { consumers = x.0 }) } })

pub take_step : {Sink : Type 0} → Bool → Worker → Running Sink → Running Sink
unfolding take
take_step u receiving r = take u (source_of u r.pipeline) r.pipeline.probe r
take_step u (pushing ae n) r = r

module _ (ops : SinkOps) where
  open ops use {Sink, Own, want_update, want_destroy, push, own}

  abbrev pub want : Bool → Sink → Bool
  want true s = want_update s
  want false s = want_destroy s

  -- `if s.WantUpdate() { s.Push(ae) }`.
  abbrev pub push_wanted : Bool → Event → Sink → Go Sink
  push_wanted u ae s = if want u s then push ae s else ok s

  -- An operation on the sink at an index.
  unfoldable pub at_sink : (Sink → Go Sink) → ℕ → List Sink → Go (List Sink)
  at_sink f n [] = ok []
  at_sink f n (s ∷ ss) =
      let rest = at_sink f (n - 1) ss in
      if n == 0 then (f s >>= λ t. ok (t ∷ ss)) else (rest >>= λ ts. ok (s ∷ ts))

  -- A step that waits for the lock of its sink changes nothing yet, and is tried again. A worker
  -- whose push left the sink waiting on its full channel may go on before that channel takes the
  -- batch, which allows more interleavings than there are.
  pub after : Go (List Sink) → (List Sink → Running Sink) → Running Sink → Go (Running Sink)
  after (ok ss) next r = ok (next ss)
  after panic next r = panic
  after waits next r = ok r

  pub push_step : Bool → Worker → Running Sink → Go (Running Sink)
  unfolding at_sink after
  push_step u receiving r = ok r
  push_step u (pushing ae n) r =
      if leb (length r.pipeline.sinks) n
      then ok (with_worker u receiving r)
      else after (at_sink (push_wanted u ae) n r.pipeline.sinks)
          (λ ss. with_worker u (pushing ae (suc n)) (with_sinks ss r)) r

  pub work_step : ℕ → Own → Running Sink → Go (Running Sink)
  unfolding at_sink after
  work_step i o r = after (at_sink (own o) i r.pipeline.sinks) (λ ss. with_sinks ss r) r

module _ (ops : SinkOps) (en : Endian) where
  open ops use {Sink, Own}

  pub deliver_to : Bool → Bytes → Bool → Option Probe → Running Sink → Go (Running Sink)
  deliver_to update eb receiver none r = ok r
  deliver_to update eb receiver (some ap) r =
      perf_round en (record { update = update; payload = some eb; receiver = receiver }) ap >>= λ x.
      ok (record r { pipeline = record (r.pipeline) { probe = some x.0 } })

  unfoldable pub act : Act Own → Running Sink → Go (Running Sink)
  unfolding take_step push_step work_step deliver_to
  act (delivers update eb receiver) r = deliver_to update eb receiver r.pipeline.probe r
  act (takes u) r = ok (take_step u (worker_of u r) r)
  act (pushes u) r = push_step ops u (worker_of u r) r
  act (works i o) r = work_step ops i o r

  unfoldable pub run : List (Act Own) → Running Sink → Go (Running Sink)
  run [] r = ok r
  run (a ∷ acts) r = act a r >>= run acts
