-- ===== src/Bpf/Probe/Counters.antt =====
-- The probe's counters over a run of its workers.
use conntracct.Prelude.{
  ◌++◌, ◌&&◌, inl, inr, Bool-cases, map, ℕ, zero, suc, ◌+◌, ◌*◌, ◌≡◌, ◌≢◌, refl, ap, ◌∙◌, Bool,
  true, false, List, [], ◌∷◌, Option, none, some, ok, u64, All, length, arith, if◌then◌else◌,
}
use conntracct.Chan.{Chan}
use conntracct.Bpf.Event.{Bytes, Endian, EventError, zero_event, incorrect_length, unmarshal_binary}
use conntracct.Bpf.Event.Decode.{unmarshal_binary_error}
use conntracct.Bpf.Stats.{ProbeStats, incr_perf_events_lost}
use conntracct.Bpf.Consumer.{Consumer}
use conntracct.Bpf.Probe.{
  Probe, ProbeError, unmarshaling, Delivery, count_delivery, report, send_error, fanout_event,
  perf_round, perf_worker, lost_worker,
}
use conntracct.Bpf.Probe.Fanout.{IsOpen, offered, fanout_event-map, fanout_event_isolated}

-- Nothing that the worker sends on is closed.
pub record IsRunning (p : Probe) : Type 0 where
  pub consumers_open : All IsOpen p.consumers
  pub errors_open : p.err_chan.closed ≡ false

-- What the worker takes off its channels: all up to the first that a closed channel gives.
abbrev pub handled : List Delivery → List Delivery
handled [] = []
handled (d ∷ ds) = let rest = handled ds in elim (d.payload) [ none ↦ d ∷ [] | some eb ↦ d ∷ rest ]

abbrev pub updates : List Delivery → ℕ
updates [] = 0
updates (d ∷ ds) = (if d.update then 1 else 0) + updates ds

-- The counters `t` are those of `s` after these deliveries, each modulo 2 ^ 64.
pub record Counted (ds : List Delivery) (s t : ProbeStats) : Type 0 where
  pub update : u64 t.perf_events_update ≡ u64 (s.perf_events_update + updates ds)
  pub destroy : u64 (t.perf_events_destroy + updates ds) ≡ u64 (s.perf_events_destroy + length ds)
  pub total : u64 t.perf_events_total ≡ u64 (s.perf_events_total + length ds)
  pub bytes : u64 t.perf_bytes_total ≡ u64 (s.perf_bytes_total + 104 * length ds)
  pub lost : t.perf_events_lost ≡ s.perf_events_lost

-- What the listener on the error channel has received after a round.
abbrev pub reports : Option EventError → Bool → Chan ProbeError → List ProbeError → List ProbeError
reports none ready ch seen = seen
reports (some e) ready ch seen = if ch.made && ready then seen ++ (unmarshaling e ∷ []) else seen

report-ok :
    (e : Option EventError) (ready : Bool) (p : Probe)
    → p.err_chan.closed ≡ false
    → (b : Bool) × (report e ready p
        ≡ ok (record p { reported = reports e ready p.err_chan p.reported }, b))
unfolding send_error
report-ok none ready p h = (false, refl)
report-ok (some e) ready p h = elim (Bool-cases (p.err_chan.made && ready)) [
  | inl t ↦ (true, rw (h, t))
  | inr f ↦ (false, rw (h, f))
]

-- A round with a record: the event, zero if it cannot be decoded, is offered to every consumer.
pub perf_round-map :
    (en : Endian) (update : Bool) (eb : Bytes) (receiver : Bool) (p : Probe)
    → IsRunning p
    → perf_round en (record { update = update; payload = some eb; receiver = receiver }) p
      ≡ ok (
        record p {
          stats = count_delivery update p.stats;
          consumers = map (offered (unmarshal_binary en zero_event eb).0 update) p.consumers;
          reported = reports (unmarshal_binary en zero_event eb).1 receiver p.err_chan p.reported;
        },
        true,
      )
unfolding perf_round
perf_round-map en update eb receiver p r =
    let r0 = unmarshal_binary en zero_event eb in
    let s = record p { stats = count_delivery update p.stats } in
    let (b, sent) = report-ok r0.1 receiver s r.errors_open in
    rw (sent, fanout_event-map r0.0 update p.consumers r.consumers_open)

abbrev continues : Option Bytes → Bool
continues none = false
continues (some eb) = true

-- One round of a running worker.
perf_round-ok :
    (en : Endian) (d : Delivery) (payload : Option Bytes) (p : Probe)
    → d.payload ≡ payload
    → IsRunning p
    → (q : Probe) × (perf_round en d p ≡ ok (q, continues payload))
      × IsRunning q
      × (q.stats ≡ count_delivery d.update p.stats)
unfolding perf_round
perf_round-ok en d none p e r = (
  record p { stats = count_delivery d.update p.stats },
  rw e,
  record { consumers_open = r.consumers_open; errors_open = r.errors_open },
  refl,
)
perf_round-ok en d (some eb) p e r =
    let r0 = unmarshal_binary en zero_event eb in
    let s = record p { stats = count_delivery d.update p.stats } in
    let (b, sent) = report-ok r0.1 d.receiver s r.errors_open in
    let (cs, fanned, _, still) = fanout_event_isolated r0.0 d.update p.consumers r.consumers_open in
    (
      record s { consumers = cs; reported = reports r0.1 d.receiver p.err_chan p.reported },
      rw e (rw (sent, fanned)),
      record { consumers_open = still; errors_open = r.errors_open },
      refl,
    )

Counted-one :
    (update : Bool) (payload : Option Bytes) (receiver : Bool) (s : ProbeStats)
    → let d : Delivery = record { update = update; payload = payload; receiver = receiver } in
      Counted (d ∷ []) s (count_delivery update s)
Counted-one true payload receiver s = record {
  update = omega arith;
  destroy = omega arith;
  total = omega arith;
  bytes = omega arith;
  lost = refl;
}
Counted-one false payload receiver s = record {
  update = omega arith;
  destroy = omega arith;
  total = omega arith;
  bytes = omega arith;
  lost = refl;
}

Counted-cons :
    (d : Delivery) (ds : List Delivery) (s t u : ProbeStats)
    → Counted (d ∷ []) s t
    → Counted ds t u
    → Counted (d ∷ ds) s u
Counted-cons d ds s t u a b = record {
  update = omega (arith, a.update, b.update);
  destroy = omega (arith, a.destroy, b.destroy);
  total = omega (arith, a.total, b.total);
  bytes = omega (arith, a.bytes, b.bytes);
  lost = b.lost ∙ a.lost;
}

Counted-of_stats :
    (d : Delivery) (s t : ProbeStats) → t ≡ count_delivery d.update s → Counted (d ∷ []) s t
Counted-of_stats d s t e = rw e (Counted-one d.update d.payload d.receiver s)

perf_worker-closed :
    (en : Endian) (d : Delivery) (ds : List Delivery) (p q : Probe)
    → perf_round en d p ≡ ok (q, false)
    → perf_worker en (d ∷ ds) p ≡ ok q
unfolding perf_worker
perf_worker-closed en d ds p q e = rw e

perf_worker-next :
    (en : Endian) (d : Delivery) (ds : List Delivery) (p q : Probe)
    → perf_round en d p ≡ ok (q, true)
    → perf_worker en (d ∷ ds) p ≡ perf_worker en ds q
unfolding perf_worker
perf_worker-next en d ds p q e = rw e

abbrev Runs : Endian → List Delivery → List Delivery → Probe → Type 0
Runs en ds done p =
    (q : Probe) × (perf_worker en ds p ≡ ok q) × IsRunning q × Counted done p.stats q.stats

worker_step :
    (en : Endian) (d : Delivery) (ds : List Delivery) (p : Probe) (payload : Option Bytes)
    → d.payload ≡ payload
    → IsRunning p
    → ((q : Probe) → IsRunning q → Runs en ds (handled ds) q)
    → Runs en (d ∷ ds) (elim payload [ none ↦ d ∷ [] | some eb ↦ d ∷ handled ds ]) p
worker_step en d ds p none e r ih =
    let (q, round, r', s) = perf_round-ok en d none p e r in
    (q, perf_worker-closed en d ds p q round, r', Counted-of_stats d p.stats q.stats s)
worker_step en d ds p (some eb) e r ih =
    let (q, round, r', s) = perf_round-ok en d (some eb) p e r in
    let (u, rest, r'', counted) = ih q r' in
    (
      u,
      perf_worker-next en d ds p q round ∙ rest,
      r'',
      Counted-cons d (handled ds) p.stats q.stats u.stats (Counted-of_stats d p.stats q.stats s)
          counted,
    )

-- A worker whose consumers' channels and error channel are open runs to the end of what it is
-- handed, or to the first closed channel, and keeps them open. It counts each delivery up to there
-- once, as an update or as a destroy event, and 104 bytes for it, where the one from the
-- closed channel counts too; the lost counter stays. (Counters are compared modulo 2 ^ 64.)
pub perf_worker-Counted :
    (en : Endian) (ds : List Delivery) (p : Probe)
    → IsRunning p
    → (q : Probe) × (perf_worker en ds p ≡ ok q)
      × IsRunning q
      × Counted (handled ds) p.stats q.stats
unfolding perf_worker
perf_worker-Counted en [] p r = (
  p,
  refl,
  r,
  record {
    update = omega arith;
    destroy = omega arith;
    total = omega arith;
    bytes = omega arith;
    lost = refl;
  },
)
perf_worker-Counted en (d ∷ ds) p r =
    worker_step en d ds p d.payload refl r (λ q r'. perf_worker-Counted en ds q r')

-- A message that is not 104 bytes long is reported as an error with its length, which whoever
-- listens on the error channel receives and which is lost if nobody does. It is not dropped: the
-- consumers of its kind are offered an event of zeros, as if the probe had sent one.
pub perf_round_malformed :
    (en : Endian) (update receiver : Bool) (eb : Bytes) (p : Probe)
    → IsRunning p
    → length eb ≢ 104
    → let d : Delivery = record { update = update; payload = some eb; receiver = receiver } in
      (cs : List Consumer) × (fanout_event zero_event update p.consumers ≡ ok cs)
      × (perf_round en d p
          ≡ ok (
            record p {
              stats = count_delivery update p.stats;
              consumers = cs;
              reported =
                  if p.err_chan.made && receiver
                  then p.reported ++ (unmarshaling (incorrect_length (length eb)) ∷ [])
                  else p.reported;
            },
            true,
          ))
unfolding perf_round
perf_round_malformed en update receiver eb p r h =
    let s = record p { stats = count_delivery update p.stats } in
    let (b, sent) = report-ok (some (incorrect_length (length eb))) receiver s r.errors_open in
    let (cs, fanned, _, still) =
      fanout_event_isolated zero_event update p.consumers r.consumers_open in
    (cs, fanned, rw ((unmarshal_binary_error en zero_event eb).1 h) (rw (sent, fanned)))

-- That many lost messages before what follows.
abbrev pub lost_messages : ℕ → List Bool → List Bool
lost_messages zero rest = rest
lost_messages (suc n) rest = true ∷ lost_messages n rest

-- `lostWorker` counts the messages before the first closed receive, and changes nothing else.
pub lost_worker-lost :
    (n : ℕ) (rest : List Bool) (p : Probe)
    → (u64 (lost_worker (lost_messages n (false ∷ rest)) p).stats.perf_events_lost
        ≡ u64 (p.stats.perf_events_lost + n))
      × (record (lost_worker (lost_messages n (false ∷ rest)) p) { stats = p.stats } ≡ p)
unfolding lost_worker
lost_worker-lost zero rest p = (omega arith, refl)
lost_worker-lost (suc n) rest p =
    let q = record p { stats = incr_perf_events_lost p.stats } in
    let ih = lost_worker-lost n rest q in
    (omega (arith, ih.0), ap (λ (x : Probe). record x { stats = p.stats }) ih.1)
