-- ===== src/System/Simulation.antt =====
-- One step of the running program, held against the two sources by themselves.
use conntracct.Prelude.{
  ◌≡◌, refl, ap, ◌∙◌, Bool, false, List, [], ◌∷◌, ◌++◌, Option, none, some, String, str_eq,
  str_eq_iff, ok, arith,
}
use conntracct.Chan.{receive}
use conntracct.Bpf.Event.{Event, Bytes, Endian, zero_event, unmarshal_binary}
use conntracct.Bpf.Consumer.{Consumer}
use conntracct.Bpf.Probe.{Probe}
use conntracct.Bpf.Probe.Fanout.{IsOpen, offered, offer-IsOpen}
use conntracct.Bpf.Probe.Lifecycle.{IsUp}
use conntracct.Bpf.Probe.Ledger.{Ledger, offers}
use conntracct.Bpf.Probe.Ledger
use conntracct.Sinks.Sink.{SinkOps}
use conntracct.Pipeline.{Pipeline, update_source_name, destroy_source_name}
use conntracct.System.{
  Running, receiving, delivers, takes, worker_of, source_of, act, take_event, take_from, took, take,
  take_step, deliver_to,
}

-- What the perf worker makes of a record.
abbrev pub decoded : Endian → Bytes → Event
decoded en eb = (unmarshal_binary en zero_event eb).0

-- The pipeline's probe holds the two sources, as they stand in their ledgers.
pub record Linked {Sink : Type 0} (p : Pipeline Sink) (lu ld : Ledger) : Type 0 where
  pub probe : Probe
  pub has_probe : p.probe ≡ some probe
  pub sources : probe.consumers ≡ lu.consumer ∷ ld.consumer ∷ []
  pub errors_open : probe.err_chan.closed ≡ false
  pub up : IsUp probe
  pub update_source : p.update_source ≡ some update_source_name
  pub destroy_source : p.destroy_source ≡ some destroy_source_name
  pub update_name : lu.consumer.name ≡ update_source_name
  pub destroy_name : ld.consumer.name ≡ destroy_source_name
  pub update_open : IsOpen lu.consumer
  pub destroy_open : IsOpen ld.consumer

pub act_offers :
    (ae : Event) (update : Bool) (l : Ledger)
    → IsOpen l.consumer
    → Ledger.run (offers ae update ∷ []) l
      ≡ ok (record l { consumer = offered ae update l.consumer })
unfolding Ledger.run Ledger.act
act_offers ae update l h = rw ((offer-IsOpen ae update l.consumer h).0)

pub take_from_update :
    (c d : Consumer)
    → c.name ≡ update_source_name
    → take_from update_source_name (c ∷ d ∷ [])
      ≡ ((take_event c (receive c.events)).0 ∷ d ∷ [], (take_event c (receive c.events)).1)
unfolding take_from
take_from_update c d h = rw ((str_eq_iff c.name update_source_name).1 h)

pub take_from_destroy :
    (c d : Consumer)
    → c.name ≡ update_source_name
    → d.name ≡ destroy_source_name
    → take_from destroy_source_name (c ∷ d ∷ [])
      ≡ (c ∷ (take_event d (receive d.events)).0 ∷ [], (take_event d (receive d.events)).1)
unfolding take_from
take_from_destroy c d h k =
    let other : str_eq c.name destroy_source_name ≡ false =
      ap (λ n. str_eq n destroy_source_name) h in
    rw (other, (str_eq_iff d.name destroy_source_name).1 k)

-- A consumer whose channel holds nothing, and one whose channel holds an event.
pub take_event-empty :
    (c : Consumer) → IsOpen c → c.events.queue ≡ [] → take_event c (receive c.events) ≡ (c, none)
unfolding take_event
take_event-empty c o e = ground (arith, o, e)

abbrev pub without_first : List Event → Consumer → Consumer
without_first q c = record c { events = record (c.events) { queue = q } }

pub take_event-item :
    (c : Consumer) (ae : Event) (q : List Event)
    → c.events.queue ≡ ae ∷ q
    → take_event c (receive c.events) ≡ (without_first q c, some ae)
unfolding take_event
take_event-item c ae q e = ground (arith, e)

pub run_none : (l : Ledger) → Ledger.run [] l ≡ ok l
unfolding Ledger.run
run_none l = refl

pub act_takes-empty :
    (l : Ledger)
    → IsOpen l.consumer
    → l.consumer.events.queue ≡ []
    → Ledger.run (Ledger.takes ∷ []) l ≡ ok l
unfolding Ledger.run Ledger.act
act_takes-empty l o e = ground (arith, o, e)

abbrev pub taken : Event → List Event → Ledger → Ledger
taken ae q l = record { consumer = without_first q l.consumer; log = l.log ++ (ae ∷ []) }

pub act_takes-item :
    (l : Ledger) (ae : Event) (q : List Event)
    → l.consumer.events.queue ≡ ae ∷ q
    → Ledger.run (Ledger.takes ∷ []) l ≡ ok (taken ae q l)
unfolding Ledger.run Ledger.act
act_takes-item l ae q e = ground (arith, e)

-- Nothing that a step leaves alone breaks the link.
pub Linked-same :
    {Sink : Type 0} (p q : Pipeline Sink) (lu ld : Ledger)
    → q.probe ≡ p.probe
    → q.update_source ≡ p.update_source
    → q.destroy_source ≡ p.destroy_source
    → Linked p lu ld
    → Linked q lu ld
Linked-same p q lu ld a u d k = record {
  probe = k.probe;
  has_probe = a ∙ k.has_probe;
  sources = k.sources;
  errors_open = k.errors_open;
  up = k.up;
  update_source = u ∙ k.update_source;
  destroy_source = d ∙ k.destroy_source;
  update_name = k.update_name;
  destroy_name = k.destroy_name;
  update_open = k.update_open;
  destroy_open = k.destroy_open;
}

pub take_update :
    {Sink : Type 0} {p : Pipeline Sink} {lu ld : Ledger} (k : Linked p lu ld)
    (r : Consumer × Option Event)
    → take_event lu.consumer (receive lu.consumer.events) ≡ r
    → take_from update_source_name k.probe.consumers ≡ (r.0 ∷ ld.consumer ∷ [], r.1)
take_update {lu = lu} {ld = ld} k r e =
    ap (take_from update_source_name) k.sources
    ∙ (take_from_update lu.consumer ld.consumer k.update_name
        ∙ ap (λ x. (x.0 ∷ ld.consumer ∷ [], x.1)) e)

pub take_destroy :
    {Sink : Type 0} {p : Pipeline Sink} {lu ld : Ledger} (k : Linked p lu ld)
    (r : Consumer × Option Event)
    → take_event ld.consumer (receive ld.consumer.events) ≡ r
    → take_from destroy_source_name k.probe.consumers ≡ (lu.consumer ∷ r.0 ∷ [], r.1)
take_destroy {lu = lu} {ld = ld} k r e =
    ap (take_from destroy_source_name) k.sources
    ∙ (take_from_destroy lu.consumer ld.consumer k.update_name k.destroy_name
        ∙ ap (λ x. (lu.consumer ∷ x.0 ∷ [], x.1)) e)

-- A source whose first event was taken.
pub Linked-taken_update :
    {Sink : Type 0} (p q : Pipeline Sink) (lu ld mu : Ledger) (k : Linked p lu ld)
    → mu.consumer.name ≡ lu.consumer.name
    → IsOpen mu.consumer
    → q.probe ≡ some (record (k.probe) { consumers = mu.consumer ∷ ld.consumer ∷ [] })
    → q.update_source ≡ p.update_source
    → q.destroy_source ≡ p.destroy_source
    → Linked q mu ld
Linked-taken_update p q lu ld mu k name o has u d = record {
  probe = record (k.probe) { consumers = mu.consumer ∷ ld.consumer ∷ [] };
  has_probe = has;
  sources = refl;
  errors_open = k.errors_open;
  up = k.up;
  update_source = u ∙ k.update_source;
  destroy_source = d ∙ k.destroy_source;
  update_name = name ∙ k.update_name;
  destroy_name = k.destroy_name;
  update_open = o;
  destroy_open = k.destroy_open;
}

pub Linked-taken_destroy :
    {Sink : Type 0} (p q : Pipeline Sink) (lu ld md : Ledger) (k : Linked p lu ld)
    → md.consumer.name ≡ ld.consumer.name
    → IsOpen md.consumer
    → q.probe ≡ some (record (k.probe) { consumers = lu.consumer ∷ md.consumer ∷ [] })
    → q.update_source ≡ p.update_source
    → q.destroy_source ≡ p.destroy_source
    → Linked q lu md
Linked-taken_destroy p q lu ld md k name o has u d = record {
  probe = record (k.probe) { consumers = lu.consumer ∷ md.consumer ∷ [] };
  has_probe = has;
  sources = refl;
  errors_open = k.errors_open;
  up = k.up;
  update_source = u ∙ k.update_source;
  destroy_source = d ∙ k.destroy_source;
  update_name = k.update_name;
  destroy_name = name ∙ k.destroy_name;
  update_open = k.update_open;
  destroy_open = o;
}

module _ (ops : SinkOps) (en : Endian) where
  open ops use {Sink, Own}

  pub act_delivers :
      (update : Bool) (eb : Bytes) (receiver : Bool) (r : Running Sink) (ap' : Probe)
      → r.pipeline.probe ≡ some ap'
      → act ops en (delivers update eb receiver) r
        ≡ deliver_to ops en update eb receiver (some ap') r
  unfolding act
  act_delivers update eb receiver r ap' h = ap (λ o. deliver_to ops en update eb receiver o r) h

  abbrev pub take_result : Bool → Probe → Running Sink → List Consumer × Option Event → Running Sink
  take_result u ap' r x = took u x.1 (record r {
    pipeline = record (r.pipeline) { probe = some (record ap' { consumers = x.0 }) };
  })

  pub act_takes :
      (u : Bool) (n : String) (r : Running Sink) (ap' : Probe)
      → worker_of u r ≡ receiving
      → source_of u r.pipeline ≡ some n
      → r.pipeline.probe ≡ some ap'
      → act ops en (takes u) r ≡ ok (take_result u ap' r (take_from n ap'.consumers))
  unfolding act take_step take
  act_takes u n r ap' w s h =
      ap (λ x. ok (take_step u x r)) w
      ∙ (ap (λ o. ok (take u o r.pipeline.probe r)) s ∙ ap (λ o. ok (take u (some n) o r)) h)
