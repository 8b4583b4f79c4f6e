-- ===== src/Sinks/Stdout/Ledger.antt =====
-- What becomes of the events pushed into the stdout sink.
use mathlib.Core.List.{Sublist, append_assoc, append-nil}
use mathlib.Core.List.Sublist
use conntracct.Prelude.{
  ℕ, ◌+◌, ◌≤◌, ◌≡◌, refl, ap, ◌∙◌, ◌⊎◌, inl, inr, false, List, [], ◌∷◌, ◌++◌, Option, none, some,
  Go, ok, ◌>>=◌, u64, add_u64, length, length-append, arith,
}
use conntracct.Chan.{make, len}
use conntracct.Bpf.Event.{Event}
use conntracct.Sinks.Types.{
  SinkConfig, zero_sink_stats, incr_events_pushed, incr_events_dropped, set_batch_length,
}
use conntracct.Sinks.Stdout.Opening.{buffer_size}
use conntracct.Sinks.Stdout.{
  StdOut, WriteOutcome, new, init, push, out_round, pushed, printed, with_default,
}

-- A push, or a round of the worker.
pub data Act : Type 0 where
  pushes : Event → Act
  prints : WriteOutcome → Act

-- The sink with the events that its worker took, the first one first.
pub record Ledger : Type 0 where
  pub sink : StdOut
  pub log : List Event

abbrev logged : Option Event → List Event → List Event
logged none log = log
logged (some e) log = log ++ (e ∷ [])

unfoldable pub act : Act → Ledger → Go Ledger
act (pushes e) l = push e l.sink >>= λ s. ok (record l { sink = s })
act (prints w) l =
    let (s, took) = out_round w l.sink in ok (record { sink = s; log = logged took l.log })

unfoldable pub run : List Act → Ledger → Go Ledger
run [] l = ok l
run (a ∷ rest) l = act a l >>= run rest

abbrev pub pushed_events : List Act → List Event
pushed_events [] = []
pushed_events (pushes e ∷ acts) = e ∷ pushed_events acts
pushed_events (prints w ∷ acts) = pushed_events acts

abbrev pub accepted : Ledger → List Event
accepted l = l.log ++ l.sink.events.queue

pub record Kept (cap : ℕ) (w : List Event) (l : Ledger) : Type 0 where
  pub is_open : l.sink.events.closed ≡ false
  pub same_cap : l.sink.events.cap ≡ cap
  pub bounded : len l.sink.events ≤ cap
  pub in_order : Sublist (accepted l) w
  pub pushed_count : l.sink.stats.events_pushed ≡ u64 (length (accepted l))
  pub all_counted : add_u64 l.sink.stats.events_pushed l.sink.stats.events_dropped ≡ u64 (length w)
  pub taken_count :
      add_u64 l.sink.stats.batches_sent l.sink.stats.batches_dropped ≡ u64 (length l.log)

abbrev took_in : Event → StdOut → StdOut
took_in e s =
    let ch = record (s.events) { queue = s.events.queue ++ (e ∷ []) } in
    record s { events = ch; stats = set_batch_length (incr_events_pushed s.stats) (len ch) }

abbrev lost_one : StdOut → StdOut
lost_one s = record s { stats = incr_events_dropped s.stats }

push-cases :
    (e : Event) (s : StdOut)
    → s.events.closed ≡ false
    → ((len s.events + 1 ≤ s.events.cap) × (push e s ≡ ok (took_in e s)))
      ⊎ (push e s ≡ ok (lost_one s))
unfolding push pushed
push-cases e s o = ground arith

pub push-open :
    (e : Event) (s : StdOut)
    → s.events.closed ≡ false
    → (t : StdOut) × (push e s ≡ ok t) × (t.events.closed ≡ false)
push-open e s o = elim (push-cases e s o) [
  | inl (room, q) ↦ (took_in e s, q, o)
  | inr q ↦ (lost_one s, q, o)
]

took_in-Kept :
    (cap : ℕ) (w : List Event) (l : Ledger) (e : Event)
    → len l.sink.events + 1 ≤ l.sink.events.cap
    → Kept cap w l
    → Kept cap (w ++ (e ∷ [])) (record l { sink = took_in e l.sink })
took_in-Kept cap w l e h k =
    let regroup = append_assoc l.log l.sink.events.queue (e ∷ []) in
    record {
      is_open = k.is_open;
      same_cap = k.same_cap;
      bounded = omega (arith, length-append l.sink.events.queue (e ∷ []), k.same_cap);
      in_order = rw (← regroup) (Sublist.append k.in_order (Sublist.refl (e ∷ [])));
      pushed_count =
          rw (← regroup) (omega (arith, k.pushed_count, length-append (accepted l) (e ∷ [])));
      all_counted = omega (arith, k.all_counted, length-append w (e ∷ []));
      taken_count = k.taken_count;
    }

lost_one-Kept :
    (cap : ℕ) (w : List Event) (l : Ledger) (e : Event)
    → Kept cap w l
    → Kept cap (w ++ (e ∷ [])) (record l { sink = lost_one l.sink })
lost_one-Kept cap w l e k = record {
  is_open = k.is_open;
  same_cap = k.same_cap;
  bounded = k.bounded;
  in_order =
      rw (← append-nil (accepted l)) (Sublist.append k.in_order (Sublist.cons e (Sublist.refl [])));
  pushed_count = k.pushed_count;
  all_counted = omega (arith, k.all_counted, length-append w (e ∷ []));
  taken_count = k.taken_count;
}

pushes-Kept :
    (cap : ℕ) (w : List Event) (l : Ledger) (e : Event)
    → Kept cap w l
    → (m : Ledger) × (act (pushes e) l ≡ ok m) × Kept cap (w ++ (e ∷ [])) m
unfolding act
pushes-Kept cap w l e k = elim (push-cases e l.sink k.is_open) [
  | inl (room, q) ↦ (record l { sink = took_in e l.sink }, rw q, took_in-Kept cap w l e room k)
  | inr q ↦ (record l { sink = lost_one l.sink }, rw q, lost_one-Kept cap w l e k)
]

-- A round takes the oldest event, and counts it as sent or as dropped by the writer.
-- The worker of the sink closes nothing.
pub out_round-closed :
    (o : WriteOutcome) (s : StdOut) (q : List Event)
    → s.events.queue ≡ q
    → (out_round o s).0.events.closed ≡ s.events.closed
unfolding out_round printed
out_round-closed o s [] e = ground (arith, e)
out_round-closed o s (ae ∷ q) e = ground (arith, e)

out_round-takes :
    (o : WriteOutcome) (s : StdOut) (e : Event) (q : List Event)
    → s.events.queue ≡ e ∷ q
    → let (t, took) = out_round o s in
      (took ≡ some e)
      × (t.events ≡ record (s.events) { queue = q })
      × (t.stats.events_pushed ≡ s.stats.events_pushed)
      × (t.stats.events_dropped ≡ s.stats.events_dropped)
      × (add_u64 t.stats.batches_sent t.stats.batches_dropped
          ≡ add_u64 (add_u64 s.stats.batches_sent s.stats.batches_dropped) 1)
unfolding out_round printed
out_round-takes o s e q h = ground arith

prints-item :
    (cap : ℕ) (w : List Event) (l : Ledger) (o : WriteOutcome) (e : Event) (q : List Event)
    → l.sink.events.queue ≡ e ∷ q
    → Kept cap w l
    → Kept cap w (record { sink = (out_round o l.sink).0; log = l.log ++ (e ∷ []) })
prints-item cap w l o e q h k =
    let (_, ch, same_pushed, same_lost, one_more) = out_round-takes o l.sink e q h in
    let same : (l.log ++ (e ∷ [])) ++ q ≡ accepted l = append_assoc l.log (e ∷ []) q ∙ rw h in
    let moved : (l.log ++ (e ∷ [])) ++ (out_round o l.sink).0.events.queue ≡ accepted l =
      rw ch same in
    record {
      is_open = rw ch k.is_open;
      same_cap = rw ch k.same_cap;
      bounded = rw ch (omega (arith, k.bounded, ap length h));
      in_order = rw moved k.in_order;
      pushed_count = rw moved (same_pushed ∙ k.pushed_count);
      all_counted = rw (same_pushed, same_lost) k.all_counted;
      taken_count = omega (arith, one_more, k.taken_count, length-append l.log (e ∷ []));
    }

prints-Kept :
    (cap : ℕ) (w : List Event) (l : Ledger) (o : WriteOutcome) (q : List Event)
    → l.sink.events.queue ≡ q
    → Kept cap w l
    → (m : Ledger) × (act (prints o) l ≡ ok m) × Kept cap w m
unfolding act
prints-Kept cap w l o [] e k = (l, unfold out_round printed in ground (arith, e, k.is_open), k)
prints-Kept cap w l o (ae ∷ q) e k =
    (_, rw (out_round-takes o l.sink ae q e).0, prints-item cap w l o ae q e k)

run-Kept :
    (cap : ℕ) (w : List Event) (l : Ledger) (acts : List Act)
    → Kept cap w l
    → (m : Ledger) × (run acts l ≡ ok m) × Kept cap (w ++ pushed_events acts) m
unfolding run
run-Kept cap w l [] k = (l, refl, rw append-nil k)
run-Kept cap w l (pushes e ∷ acts) k =
    let (m, done, k') = pushes-Kept cap w l e k in
    let (n, rest, k'') = run-Kept cap (w ++ (e ∷ [])) m acts k' in
    (n, rw done rest, rw append_assoc at k'')
run-Kept cap w l (prints o ∷ acts) k =
    let (m, done, k') = prints-Kept cap w l o l.sink.events.queue refl k in
    let (n, rest, k'') = run-Kept cap w m acts k' in (n, rw done rest, k'')

empty-Kept :
    (size : ℕ) (s : StdOut)
    → s.events ≡ make size
    → s.stats ≡ zero_sink_stats
    → Kept size [] (record { sink = s; log = [] })
empty-Kept size s e z = record {
  is_open = rw e;
  same_cap = rw e;
  bounded = rw e (omega arith);
  in_order = rw e (Sublist.refl []);
  pushed_count = rw (e, z);
  all_counted = rw z;
  taken_count = rw z;
}

init-new :
    (sc : SinkConfig)
    → (init sc new).1 ≡ none
    → ((init sc new).0.events ≡ make (buffer_size sc)) × ((init sc new).0.stats ≡ zero_sink_stats)
unfolding init with_default
init-new sc h = ground arith

-- After a successful `Init`, pushing events and printing them, in any interleaving and whatever the
-- writer answers, never panics. What the worker took and what waits are, in order, among
-- the pushed events; the pushed and dropped counters add up to the calls of `Push`, the batch
-- counters to the events that the worker took, and the channel holds at most the batch size
-- (2048 if that is 0).
pub run-init :
    (sc : SinkConfig) (acts : List Act)
    → (init sc new).1 ≡ none
    → (m : Ledger) × (run acts (record { sink = (init sc new).0; log = [] }) ≡ ok m)
      × Kept (buffer_size sc) (pushed_events acts) m
run-init sc acts h =
    let (ch, counters) = init-new sc h in
    run-Kept (buffer_size sc) [] _ acts (empty-Kept (buffer_size sc) (init sc new).0 ch counters)
