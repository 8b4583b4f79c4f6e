-- ===== src/Sinks/Influx/Flow/Taking.antt =====
-- What the send worker takes.
use mathlib.Core.List.{append_assoc, flatten}
use conntracct.Prelude.{
  ◌≡◌, refl, sym, ap, ◌∙◌, Bool, true, false, List, [], ◌∷◌, ◌++◌, some, add_u64, All-append,
  length, length-append, arith,
}
use conntracct.Sinks.Types.{SinkStats}
use conntracct.Sinks.Influx.{InfluxSink, InfluxLib, send_round, counted, sent_off}
use conntracct.Sinks.Influx.Flow.{writes, Flow, Inv, act, IsFull, Steps}
use conntracct.Sinks.Influx.Flow.Batches.{flatten_snoc}

module _ (lib : InfluxLib) where
  open lib use {Point, ip_string, new_point, new_batch_points}

  -- A round of the worker takes the oldest batch, and counts it as sent or as dropped.
  send_round-takes :
      (written : Bool) (s : InfluxSink Point) (b : List Point) (q : List (List Point))
      → s.send_chan.queue ≡ b ∷ q
      → (stats : SinkStats) × (send_round lib written s
          ≡ (record s { send_chan = record (s.send_chan) { queue = q }; stats = stats }, some b))
        × (stats.events_pushed ≡ s.stats.events_pushed)
        × (add_u64 stats.batches_sent stats.batches_dropped
            ≡ add_u64 (add_u64 s.stats.batches_sent s.stats.batches_dropped) 1)
  unfolding send_round sent_off counted
  send_round-takes true s b q h = (
    record (s.stats) { batches_sent = add_u64 s.stats.batches_sent 1 },
    ground (arith, h),
    refl,
    omega arith,
  )
  send_round-takes false s b q h = (
    record (s.stats) { batches_dropped = add_u64 s.stats.batches_dropped 1 },
    ground (arith, h),
    refl,
    omega arith,
  )

  taken-Inv :
      (f : Flow lib) (b : List Point) (q : List (List Point)) (stats : SinkStats)
      → f.sink.send_chan.queue ≡ b ∷ q
      → stats.events_pushed ≡ f.sink.stats.events_pushed
      → add_u64 stats.batches_sent stats.batches_dropped
        ≡ add_u64 (add_u64 f.sink.stats.batches_sent f.sink.stats.batches_dropped) 1
      → Inv lib f
      → Inv lib (record f {
        sink = record (f.sink) {
          send_chan = record (f.sink.send_chan) { queue = q };
          stats = stats;
        };
        taken = f.taken ++ (b ∷ []);
      })
  unfolding flatten
  taken-Inv f b q stats h same one_more i =
      let full = rw h at i.batches_full.1 in
      record {
        is_open = i.is_open;
        is_made = i.is_made;
        capacity = i.capacity;
        queue_bounded = omega (arith, i.queue_bounded, ap length h);
        sized = i.sized;
        in_order = rw (flatten_snoc lib f.taken b) (
            append_assoc (flatten f.taken) b (flatten q ++ f.sink.batch)
            ∙ ap (◌++◌ (flatten f.taken)) (sym (append_assoc b (flatten q) f.sink.batch))
            ∙ (rw h at i.in_order));
        batches_full = (
          All-append (IsFull lib f.sink.config.batch_size) f.taken (b ∷ []) i.batches_full.0
              (full.0, tt),
          full.1,
        );
        batch_small = i.batch_small;
        batch_waits = i.batch_waits;
        pushed_count = same ∙ i.pushed_count;
        taken_count = omega (arith, one_more, i.taken_count, length-append f.taken (b ∷ []));
      }

  pub writes-Inv :
      (written : Bool) (f : Flow lib) (q : List (List Point))
      → f.sink.send_chan.queue ≡ q
      → Inv lib f
      → Steps lib (writes written) f
  unfolding act
  writes-Inv written f [] h i = (f, unfold send_round sent_off in ground (arith, h, i.is_open), i)
  writes-Inv written f (b ∷ q) h i =
      let (stats, took, same, one_more) = send_round-takes written f.sink b q h in
      (_, rw took, taken-Inv f b q stats h same one_more i)
