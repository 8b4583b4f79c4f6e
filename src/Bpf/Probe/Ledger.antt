-- ===== src/Bpf/Probe/Ledger.antt =====
-- What one consumer gets of the events offered to it, while somebody reads its channel: the two
-- sides of the channel as a sequence of steps.
use mathlib.Core.List.{Sublist, append_assoc, append-nil}
use mathlib.Core.List.Sublist
use conntracct.Prelude.{
  ℕ, ◌+◌, ◌≤◌, ◌≡◌, refl, ap, ◌∙◌, ◌⊎◌, Bool, true, false, List, [], ◌∷◌, ◌++◌, String, Go, ok,
  ◌>>=◌, u64, add_u64, length, length-append, arith, if◌then◌else◌, Bool-cases, inl, inr,
}
use conntracct.Chan.{make, len, receive, Received, item, drained, blocked}
use conntracct.Bpf.Event.{Event}
use conntracct.Bpf.Stats.{incr_events_received, incr_events_lost, set_queue_length}
use conntracct.Bpf.Consumer.{Consumer, new_consumer, want_update, want_destroy}
use conntracct.Bpf.Probe.{wants, deliver, offer}

-- The probe offers an event (`true` for an update), or the reader takes one.
pub data Act : Type 0 where
  offers : Event → Bool → Act
  takes : Act

-- A consumer with the events that its reader has taken, the first one first.
pub record Ledger : Type 0 where
  pub consumer : Consumer
  pub log : List Event

take_into : Ledger → Received Event → Ledger
take_into l (item ae ch) = record l {
  consumer = record (l.consumer) { events = ch };
  log = l.log ++ (ae ∷ []);
}
take_into l drained = l
take_into l blocked = l

unfoldable pub act : Act → Ledger → Go Ledger
unfolding take_into
act (offers ae update) l = offer ae update l.consumer >>= λ c. ok (record l { consumer = c })
act takes l = ok (take_into l (receive l.consumer.events))

unfoldable pub run : List Act → Ledger → Go Ledger
run [] l = ok l
run (a ∷ rest) l = act a l >>= run rest

-- The events among the acts that the consumer asked for.
abbrev pub wanted : Consumer → List Act → List Event
wanted c [] = []
wanted c (offers ae update ∷ acts) =
    let rest = wanted c acts in if wants update c then ae ∷ rest else rest
wanted c (takes ∷ acts) = wanted c acts

-- What was taken, and after it what still waits.
abbrev pub accepted : Ledger → List Event
accepted l = l.log ++ l.consumer.events.queue

-- The state of a ledger after the events `w` were wanted.
pub record Kept (start : Consumer) (w : List Event) (l : Ledger) : Type 0 where
  pub is_open : l.consumer.events.closed ≡ false
  pub same_mode : l.consumer.mode ≡ start.mode
  pub same_cap : l.consumer.events.cap ≡ start.events.cap
  pub bounded : len l.consumer.events ≤ start.events.cap
  pub in_order : Sublist (accepted l) w
  pub received : l.consumer.stats.events_received ≡ u64 (length (accepted l))
  pub all_counted :
      add_u64 l.consumer.stats.events_received l.consumer.stats.events_lost ≡ u64 (length w)

wants-mode : (update : Bool) (c d : Consumer) → c.mode ≡ d.mode → wants update c ≡ wants update d
unfolding wants want_update want_destroy
wants-mode update c d h = rw h

wants-Kept :
    (start : Consumer) (w : List Event) (l : Ledger) (update : Bool)
    → Kept start w l
    → wants update l.consumer ≡ wants update start
wants-Kept start w l update k = wants-mode update l.consumer start k.same_mode

-- The consumer that took the event, and the one that lost it.
abbrev pushed : Event → Consumer → Consumer
pushed ae c =
    let ch = record (c.events) { queue = c.events.queue ++ (ae ∷ []) } in
    record c { events = ch; stats = incr_events_received (set_queue_length c.stats (len ch)) }

abbrev dropped : Consumer → Consumer
dropped c = record c { stats = incr_events_lost c.stats }

offer-cases :
    (ae : Event) (update : Bool) (c : Consumer)
    → wants update c ≡ true
    → c.events.closed ≡ false
    → ((len c.events + 1 ≤ c.events.cap) × (offer ae update c ≡ ok (pushed ae c)))
      ⊎ (offer ae update c ≡ ok (dropped c))
unfolding offer deliver
offer-cases ae update c h o = ground arith

pushed-Kept :
    (start : Consumer) (w : List Event) (l : Ledger) (ae : Event)
    → len l.consumer.events + 1 ≤ l.consumer.events.cap
    → Kept start w l
    → Kept start (w ++ (ae ∷ [])) (record l { consumer = pushed ae l.consumer })
pushed-Kept start w l ae h k =
    let regroup = append_assoc l.log l.consumer.events.queue (ae ∷ []) in
    record {
      is_open = k.is_open;
      same_mode = k.same_mode;
      same_cap = k.same_cap;
      bounded = omega (arith, length-append l.consumer.events.queue (ae ∷ []), k.same_cap);
      in_order = rw (← regroup) (Sublist.append k.in_order (Sublist.refl (ae ∷ [])));
      received = rw (← regroup) (omega (arith, k.received, length-append (accepted l) (ae ∷ [])));
      all_counted = omega (arith, k.all_counted, length-append w (ae ∷ []));
    }

dropped-Kept :
    (start : Consumer) (w : List Event) (l : Ledger) (ae : Event)
    → Kept start w l
    → Kept start (w ++ (ae ∷ [])) (record l { consumer = dropped l.consumer })
dropped-Kept start w l ae k = record {
  is_open = k.is_open;
  same_mode = k.same_mode;
  same_cap = k.same_cap;
  bounded = k.bounded;
  in_order =
      rw (← append-nil (accepted l))
        (Sublist.append k.in_order (Sublist.cons ae (Sublist.refl [])));
  received = k.received;
  all_counted = omega (arith, k.all_counted, length-append w (ae ∷ []));
}

-- One wanted event: it is accepted, or it is counted as lost.
offers-Kept :
    (start : Consumer) (w : List Event) (l : Ledger) (ae : Event) (update : Bool)
    → wants update l.consumer ≡ true
    → Kept start w l
    → (m : Ledger) × (act (offers ae update) l ≡ ok m) × Kept start (w ++ (ae ∷ [])) m
unfolding act
offers-Kept start w l ae update h k = elim (offer-cases ae update l.consumer h k.is_open) [
  | inl (room, e) ↦
      (record l { consumer = pushed ae l.consumer }, rw e, pushed-Kept start w l ae room k)
  | inr e ↦ (record l { consumer = dropped l.consumer }, rw e, dropped-Kept start w l ae k)
]

abbrev taken : Event → List Event → Ledger → Ledger
taken ae q l = record {
  consumer = record (l.consumer) { events = record (l.consumer.events) { queue = q } };
  log = l.log ++ (ae ∷ []);
}

accepted-taken :
    (ae : Event) (q : List Event) (l : Ledger)
    → l.consumer.events.queue ≡ ae ∷ q
    → accepted (taken ae q l) ≡ accepted l
accepted-taken ae q l e = append_assoc l.log (ae ∷ []) q ∙ rw e

takes-Kept :
    (start : Consumer) (w : List Event) (l : Ledger) (q : List Event)
    → l.consumer.events.queue ≡ q
    → Kept start w l
    → (m : Ledger) × (act takes l ≡ ok m) × Kept start w m
unfolding act take_into
takes-Kept start w l [] e k = (l, ground (arith, e, k.is_open), k)
takes-Kept start w l (ae ∷ q) e k =
    let same = accepted-taken ae q l e in
    (
      taken ae q l,
      ground (arith, e),
      record {
        is_open = k.is_open;
        same_mode = k.same_mode;
        same_cap = k.same_cap;
        bounded = omega (arith, k.bounded, ap length e);
        in_order = rw same k.in_order;
        received = rw same k.received;
        all_counted = k.all_counted;
      },
    )

skips-Kept :
    (start : Consumer) (w : List Event) (l : Ledger) (ae : Event) (update : Bool)
    → wants update l.consumer ≡ false
    → Kept start w l
    → (m : Ledger) × (act (offers ae update) l ≡ ok m) × Kept start w m
unfolding act offer
skips-Kept start w l ae update h k = (l, ground (arith, h), k)

run-Kept :
    (start : Consumer) (w : List Event) (l : Ledger) (acts : List Act)
    → Kept start w l
    → (m : Ledger) × (run acts l ≡ ok m) × Kept start (w ++ wanted start acts) m
unfolding run
run-Kept start w l [] k = (l, refl, rw append-nil k)
run-Kept start w l (takes ∷ acts) k =
    let (m, e, k') = takes-Kept start w l l.consumer.events.queue refl k in
    rw e (run-Kept start w m acts k')
run-Kept start w l (offers ae update ∷ acts) k = elim (Bool-cases (wants update start)) [
  | inl t ↦
      let (m, e, k') = offers-Kept start w l ae update (wants-Kept start w l update k ∙ t) k in
      let (n, e', k'') = run-Kept start (w ++ (ae ∷ [])) m acts k' in
      rw (e, t) (n, e', rw append_assoc at k'')
  | inr t ↦
      let (m, e, k') = skips-Kept start w l ae update (wants-Kept start w l update k ∙ t) k in
      rw (e, t) (run-Kept start w m acts k')
]

abbrev pub fresh : String → ℕ → ℕ → Ledger
fresh name cap mode = record { consumer = new_consumer name (make cap) mode; log = [] }

-- Whatever events are offered to a new consumer, and whenever its channel is read, nothing panics.
-- What the reader has taken and what still waits are, in order, among the events that the
-- consumer's mode asks for; their number is the received counter, each other event asked for
-- is counted as lost, and at most the channel's capacity waits.
pub run-new_consumer :
    (name : String) (cap mode : ℕ) (acts : List Act)
    → (m : Ledger) × (run acts (fresh name cap mode) ≡ ok m)
      × Kept (new_consumer name (make cap) mode) (wanted (new_consumer name (make cap) mode) acts) m
unfolding new_consumer
run-new_consumer name cap mode acts = run-Kept _ [] (fresh name cap mode) acts (record {
  is_open = refl;
  same_mode = refl;
  same_cap = refl;
  bounded = omega arith;
  in_order = Sublist.refl [];
  received = refl;
  all_counted = refl;
})
