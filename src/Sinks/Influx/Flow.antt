-- ===== src/Sinks/Influx/Flow.antt =====
-- The way of the points from `Push` to the client, over any interleaving of pushes, ticks and the
-- send worker.
pub mod Batches
pub mod Taking
pub mod Interleaving
use mathlib.Core.List.{append_assoc, append-nil, flatten}
use conntracct.Prelude.{
  ◌≢◌, ℕ, suc, ◌+◌, ◌≤◌, ◌<◌, ◌≡◌, refl, sym, ap, ◌∙◌, ◌⊎◌, inl, inr, Bool, true, false, List, [],
  ◌∷◌, ◌++◌, Option, none, some, String, Go, ok, ◌>>=◌, u64, add_u64, All, All-append, length,
  length-append, ◌==◌, leb, arith, if◌then◌else◌, Bool-cases,
}
use conntracct.Prelude.Int.{ℤ, pos, negsuc, ◌+ℤ◌, int64}
use conntracct.Chan.{len}
use conntracct.Bpf.Event.{Event}
use conntracct.Sinks.Types.{SinkStats}
use conntracct.Sinks.Influx.{
  InfluxSink, InfluxLib, new_batch, after_send, flush, push_point, push, tick, send_round, counted,
  sent_off, PointData, point_data,
}

-- What can happen next: a push, a tick, a round of the send worker (with the client's answer), or
-- the goroutine that waits on the full channel goes on.
pub data Act : Type 0 where
  pushes : Event → Act
  ticks : Act
  writes : Bool → Act
  resumes : Act

-- The nanoseconds that Influx stores: from 2 - 2 ^ 63 up to 2 ^ 63 - 2.
abbrev pub IsTime : ℤ → Type 0
IsTime (pos n) = n ≤ 9223372036854775806
IsTime (negsuc n) = n ≤ 9223372036854775805

-- What is pushed has a time in that range, given the boot time.
abbrev pub IsTimely : ℤ → Act → Type 0
IsTimely boot (pushes e) = IsTime (boot +ℤ int64 e.timestamp)
IsTimely boot ticks = Unit {0}
IsTimely boot (writes written) = Unit {0}
IsTimely boot resumes = Unit {0}

module _ (lib : InfluxLib) where
  open lib use {Point, ip_string, new_point, new_batch_points}

  -- The sink with what was pushed into it, and the batches that its worker took.
  pub record Flow : Type 0 where
    pub sink : InfluxSink Point
    pub pushed : List Point
    pub taken : List (List Point)

  abbrev noted : Option Point → List Point → List Point
  noted none ps = ps
  noted (some p) ps = ps ++ (p ∷ [])

  abbrev logged : Option (List Point) → List (List Point) → List (List Point)
  logged none log = log
  logged (some b) log = log ++ (b ∷ [])

  abbrev pub point_of : Event → InfluxSink Point → Option Point
  point_of e s = new_point (point_data ip_string s.config.enable_src_port s.boot_time e)

  -- While a goroutine waits with the lock, pushes and ticks wait for the lock.
  unfoldable pub act : Act → Flow → Go Flow
  act (pushes e) f =
      if f.sink.waiting
      then ok f
      else (push lib e f.sink >>= λ s.
          ok (record f { sink = s; pushed = noted (point_of e f.sink) f.pushed }))
  act ticks f =
      if f.sink.waiting then ok f else (tick lib f.sink >>= λ s. ok (record f { sink = s }))
  act (writes written) f =
      let (s, took) = send_round lib written f.sink in
      ok (record f { sink = s; taken = logged took f.taken })
  act resumes f =
      if f.sink.waiting then (flush lib f.sink >>= λ s. ok (record f { sink = s })) else ok f

  unfoldable pub run : List Act → Flow → Go Flow
  run [] f = ok f
  run (a ∷ rest) f = act a f >>= run rest

  -- A batch that is sent holds a point, and no more than the watermark.
  abbrev pub IsFull : ℕ → List Point → Type 0
  IsFull size b = (0 < length b) × (length b ≤ size)

  pub record Inv (f : Flow) : Type 0 where
    pub is_open : f.sink.send_chan.closed ≡ false
    pub is_made : f.sink.send_chan.made ≡ true
    pub capacity : f.sink.send_chan.cap ≡ 64
    pub queue_bounded : len f.sink.send_chan ≤ 64
    pub sized : 0 < f.sink.config.batch_size
    pub in_order : flatten f.taken ++ (flatten f.sink.send_chan.queue ++ f.sink.batch) ≡ f.pushed
    pub batches_full :
        All (IsFull f.sink.config.batch_size) f.taken
        × All (IsFull f.sink.config.batch_size) f.sink.send_chan.queue
    pub batch_small : f.sink.waiting ≡ false → suc (length f.sink.batch) ≤ f.sink.config.batch_size
    pub batch_waits : f.sink.waiting ≡ true → IsFull f.sink.config.batch_size f.sink.batch
    pub pushed_count : f.sink.stats.events_pushed ≡ u64 (length f.pushed)
    pub taken_count :
        add_u64 f.sink.stats.batches_sent f.sink.stats.batches_dropped ≡ u64 (length f.taken)

  -- The invariant without what it says of the current batch.
  record Pre (f : Flow) : Type 0 where
    is_open : f.sink.send_chan.closed ≡ false
    is_made : f.sink.send_chan.made ≡ true
    capacity : f.sink.send_chan.cap ≡ 64
    queue_bounded : len f.sink.send_chan ≤ 64
    sized : 0 < f.sink.config.batch_size
    in_order : flatten f.taken ++ (flatten f.sink.send_chan.queue ++ f.sink.batch) ≡ f.pushed
    batches_full :
        All (IsFull f.sink.config.batch_size) f.taken
        × All (IsFull f.sink.config.batch_size) f.sink.send_chan.queue
    pushed_count : f.sink.stats.events_pushed ≡ u64 (length f.pushed)
    taken_count :
        add_u64 f.sink.stats.batches_sent f.sink.stats.batches_dropped ≡ u64 (length f.taken)

  Inv-Pre : (f : Flow) → Inv f → Pre f
  Inv-Pre f i = record {
    is_open = i.is_open;
    is_made = i.is_made;
    capacity = i.capacity;
    queue_bounded = i.queue_bounded;
    sized = i.sized;
    in_order = i.in_order;
    batches_full = i.batches_full;
    pushed_count = i.pushed_count;
    taken_count = i.taken_count;
  }

  Pre-Inv :
      (f : Flow)
      → Pre f
      → (f.sink.waiting ≡ false → suc (length f.sink.batch) ≤ f.sink.config.batch_size)
      → (f.sink.waiting ≡ true → IsFull f.sink.config.batch_size f.sink.batch)
      → Inv f
  Pre-Inv f i small waits = record {
    is_open = i.is_open;
    is_made = i.is_made;
    capacity = i.capacity;
    queue_bounded = i.queue_bounded;
    sized = i.sized;
    in_order = i.in_order;
    batches_full = i.batches_full;
    batch_small = small;
    batch_waits = waits;
    pushed_count = i.pushed_count;
    taken_count = i.taken_count;
  }

  -- The documented behaviour of the client library: it makes a point of fields, of which there is
  -- one at least, and a time in its range, and a batch with nanosecond precision in any database.
  pub record Accepts : Type 0 where
    pub points :
        (d : PointData) → IsTime d.time → d.fields ≢ [] → (pt : Point) × (new_point d ≡ some pt)
    pub batches : (db : String) → new_batch_points db ≡ true

  -- A step from f succeeds, and keeps the invariant.
  abbrev pub Steps : Act → Flow → Type 0
  Steps a f = (g : Flow) × (act a f ≡ ok g) × Inv g
