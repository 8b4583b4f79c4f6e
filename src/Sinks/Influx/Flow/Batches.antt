-- ===== src/Sinks/Influx/Flow/Batches.antt =====
-- Flushing a batch, and adding a point to it.
use mathlib.Core.List.{append_assoc, append-nil, flatten}
use conntracct.Prelude.{
  ◌+◌, ◌≤◌, ◌≡◌, refl, sym, ap, ◌∙◌, ◌⊎◌, inl, inr, true, false, List, [], ◌∷◌, ◌++◌, String, ok,
  u64, add_u64, All-append, length, length-append, leb, arith, Bool-cases,
}
use conntracct.Chan.{len}
use conntracct.Sinks.Influx.{InfluxSink, InfluxLib, new_batch, after_send, flush, push_point}
use conntracct.Sinks.Influx.Flow.{Flow, Inv, Pre, Inv-Pre, Pre-Inv, IsFull}

module _ (lib : InfluxLib) where
  open lib use {Point, ip_string, new_point, new_batch_points}

  pub flatten_snoc :
      (q : List (List Point)) (b : List Point) → flatten (q ++ (b ∷ [])) ≡ flatten q ++ b
  unfolding flatten
  flatten_snoc [] b = append-nil b
  flatten_snoc (x ∷ q) b = ap (◌++◌ x) (flatten_snoc q b) ∙ sym (append_assoc x (flatten q) b)

  abbrev flushed : InfluxSink Point → InfluxSink Point
  flushed s = record s {
    send_chan = record (s.send_chan) { queue = s.send_chan.queue ++ (s.batch ∷ []) };
    waiting = false;
    batch = [];
    stats = record (s.stats) { batch_length = 0 };
  }

  flush-cases :
      (s : InfluxSink Point)
      → ((db : String) → new_batch_points db ≡ true)
      → s.send_chan.closed ≡ false
      → s.send_chan.made ≡ true
      → ((len s.send_chan + 1 ≤ s.send_chan.cap) × (flush lib s ≡ ok (flushed s)))
        ⊎ (flush lib s ≡ ok (record s { waiting = true }))
  unfolding flush after_send new_batch
  flush-cases s laws o m = ground (arith, laws s.config.database)

  flushed-Inv :
      (f : Flow lib)
      → Pre lib f
      → len f.sink.send_chan + 1 ≤ f.sink.send_chan.cap
      → IsFull lib f.sink.config.batch_size f.sink.batch
      → Inv lib (record f { sink = flushed f.sink })
  flushed-Inv f i room full =
      let q = f.sink.send_chan.queue in
      record {
        is_open = i.is_open;
        is_made = i.is_made;
        capacity = i.capacity;
        queue_bounded = omega (arith, room, i.capacity, length-append q (f.sink.batch ∷ []));
        sized = i.sized;
        in_order = rw (flatten_snoc q f.sink.batch, append-nil) i.in_order;
        batches_full = (
          i.batches_full.0,
          All-append (IsFull lib f.sink.config.batch_size) q (f.sink.batch ∷ []) i.batches_full.1
              (full, tt),
        );
        batch_small = λ _. i.sized;
        batch_waits = λ h. absurd (cc);
        pushed_count = i.pushed_count;
        taken_count = i.taken_count;
      }

  waiting-Inv :
      (f : Flow lib)
      → Pre lib f
      → IsFull lib f.sink.config.batch_size f.sink.batch
      → Inv lib (record f { sink = record (f.sink) { waiting = true } })
  waiting-Inv f i full = record {
    is_open = i.is_open;
    is_made = i.is_made;
    capacity = i.capacity;
    queue_bounded = i.queue_bounded;
    sized = i.sized;
    in_order = i.in_order;
    batches_full = i.batches_full;
    batch_small = λ h. absurd (cc);
    batch_waits = λ _. full;
    pushed_count = i.pushed_count;
    taken_count = i.taken_count;
  }

  -- `flush` succeeds or waits, and keeps the invariant, if there is a full batch to send.
  pub flush-Inv :
      (f : Flow lib)
      → ((db : String) → new_batch_points db ≡ true)
      → Pre lib f
      → IsFull lib f.sink.config.batch_size f.sink.batch
      → (s : InfluxSink Point) × (flush lib f.sink ≡ ok s) × Inv lib (record f { sink = s })
  flush-Inv f laws i full = elim (flush-cases f.sink laws i.is_open i.is_made) [
    | inl (room, e) ↦ (flushed f.sink, e, flushed-Inv f i room full)
    | inr e ↦ (record (f.sink) { waiting = true }, e, waiting-Inv f i full)
  ]

  -- The sink and the history once a point has joined the batch.
  abbrev joined : Point → Flow lib → Flow lib
  joined pt f =
      let b = f.sink.batch ++ (pt ∷ []) in
      record f {
        sink = record (f.sink) {
          batch = b;
          stats = record (f.sink.stats) {
            batch_length = u64 (length b);
            events_pushed = add_u64 f.sink.stats.events_pushed 1;
          };
        };
        pushed = f.pushed ++ (pt ∷ []);
      }

  joined-Pre : (pt : Point) (f : Flow lib) → Pre lib f → Pre lib (joined pt f)
  joined-Pre pt f i =
      let q = flatten f.sink.send_chan.queue in
      record {
        is_open = i.is_open;
        is_made = i.is_made;
        capacity = i.capacity;
        queue_bounded = i.queue_bounded;
        sized = i.sized;
        in_order =
            ap (◌++◌ (flatten f.taken)) (sym (append_assoc q f.sink.batch (pt ∷ [])))
            ∙ sym (append_assoc (flatten f.taken) (q ++ f.sink.batch) (pt ∷ []))
            ∙ ap (λ (ps : List Point). ps ++ (pt ∷ [])) i.in_order;
        batches_full = i.batches_full;
        pushed_count = omega (arith, i.pushed_count, length-append f.pushed (pt ∷ []));
        taken_count = i.taken_count;
      }

  pub push_point-Inv :
      (f : Flow lib) (pt : Point)
      → ((db : String) → new_batch_points db ≡ true)
      → f.sink.waiting ≡ false
      → Inv lib f
      → (s : InfluxSink Point) × (push_point lib pt f.sink ≡ ok s)
        × Inv lib (record f { sink = s; pushed = f.pushed ++ (pt ∷ []) })
  unfolding push_point
  push_point-Inv f pt laws idle i =
      let grown = length-append f.sink.batch (pt ∷ []) in
      let small = i.batch_small idle in
      elim (Bool-cases (leb f.sink.config.batch_size (length (f.sink.batch ++ (pt ∷ []))))) [
        | inl t ↦ rw t (
            flush-Inv (joined pt f) laws (joined-Pre pt f (Inv-Pre lib f i))
              (omega (arith, grown), omega (arith, grown, small)))
        | inr t ↦ rw t (
          (joined pt f).sink,
          refl,
          Pre-Inv lib (joined pt f) (joined-Pre pt f (Inv-Pre lib f i)) (λ _. ground (arith, t))
              (λ h. absurd (cc)),
        )
      ]
