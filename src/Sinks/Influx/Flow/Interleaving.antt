-- ===== src/Sinks/Influx/Flow/Interleaving.antt =====
-- Any interleaving of pushes, ticks and the send worker.
use mathlib.Core.Path.{subst}
use conntracct.Prelude.{
  Bool, true, false, bind_ok, Go, panic, ◌>>=◌, ap, sym, ◌∙◌, All, Option, none, some, leb,
  if◌then◌else◌, ◌≡◌, refl, inl, inr, List, [], ◌∷◌, ◌++◌, ok, length, ◌==◌, arith, Bool-cases,
}
use conntracct.Prelude.Int.{ℤ}
use conntracct.Chan.{Sent, sent, full, closed_chan, try_send}
use conntracct.Bpf.Event.{Event}
use conntracct.Sinks.Influx.{
  InfluxLib, InfluxSink, push, tick, point_data, after_send, new_batch, flush, push_point,
  send_round, sent_off, counted,
}
use conntracct.Sinks.Influx.Flow.{
  IsTimely, Act, pushes, ticks, writes, resumes, Flow, Inv, Inv-Pre, Accepts, act, run, Steps,
}
use conntracct.Sinks.Influx.Flow.Batches.{flush-Inv, push_point-Inv}
use conntracct.Sinks.Influx.Flow.Taking.{writes-Inv}

module _ (lib : InfluxLib) where
  open lib use {Point, ip_string, new_point, new_batch_points}

  pushes-Inv :
      Accepts lib
      → (e : Event) (f : Flow lib) → IsTimely f.sink.boot_time (pushes e)
      → Inv lib f
      → Steps lib (pushes e) f
  unfolding act push point_data
  pushes-Inv laws e f time i = elim (Bool-cases f.sink.waiting) [
    | inl w ↦ (f, rw w, i)
    | inr w ↦
        let (pt, made) =
          laws.points (point_data ip_string f.sink.config.enable_src_port f.sink.boot_time e) time
            (λ h. cc) in
        let (s, q, i') = push_point-Inv lib f pt laws.batches w i in
        (record f { sink = s; pushed = f.pushed ++ (pt ∷ []) }, ground (arith, w, made, q), i')
  ]

  ticks-Inv : Accepts lib → (f : Flow lib) → Inv lib f → Steps lib ticks f
  unfolding act tick
  ticks-Inv laws f i = elim (Bool-cases f.sink.waiting) [
    | inl w ↦ (f, rw w, i)
    | inr w ↦ elim (Bool-cases (length f.sink.batch == 0)) [
      | inl z ↦ (f, rw (w, z), i)
      | inr z ↦
          let (s, q, i') =
            flush-Inv lib f laws.batches (Inv-Pre lib f i)
              (ground (arith, z), omega (arith, i.batch_small w)) in
          (record f { sink = s }, ground (arith, w, z, q), i')
    ]
  ]

  resumes-Inv : Accepts lib → (f : Flow lib) → Inv lib f → Steps lib resumes f
  unfolding act
  resumes-Inv laws f i = elim (Bool-cases f.sink.waiting) [
    | inl w ↦
        let (s, q, i') = flush-Inv lib f laws.batches (Inv-Pre lib f i) (i.batch_waits w) in
        (record f { sink = s }, ground (arith, w, q), i')
    | inr w ↦ (f, rw w, i)
  ]

  -- Every step keeps the boot time of the sink.
  after_send-boot_time :
      (r : Sent (List Point)) (s t : InfluxSink Point)
      → after_send lib r s ≡ ok t
      → t.boot_time ≡ s.boot_time
  unfolding after_send new_batch
  after_send-boot_time (sent ch) s t h = ground (arith, h)
  after_send-boot_time full s t h = ground (arith, h)
  after_send-boot_time closed_chan s t h = cc

  flush-boot_time : (s t : InfluxSink Point) → flush lib s ≡ ok t → t.boot_time ≡ s.boot_time
  unfolding flush
  flush-boot_time s t h = after_send-boot_time (try_send s.send_chan s.batch) s t h

  push_point-boot_time :
      (pt : Point) (s t : InfluxSink Point) → push_point lib pt s ≡ ok t → t.boot_time ≡ s.boot_time
  unfolding push_point
  push_point-boot_time pt s t h =
      elim (Bool-cases (leb s.config.batch_size (length (s.batch ++ (pt ∷ []))))) [
        | inl y ↦ flush-boot_time _ t (rw y at h)
        | inr n ↦ ground (arith, n, h)
      ]

  pushed-boot_time :
      (o : Option Point) (s t : InfluxSink Point)
      → (elim o [ none ↦ panic | some pt ↦ push_point lib pt s ]) ≡ ok t
      → t.boot_time ≡ s.boot_time
  pushed-boot_time none s t h = cc
  pushed-boot_time (some pt) s t h = push_point-boot_time pt s t h

  flow_inj : (f g : Flow lib) → ◌≡◌ {A = Go (Flow lib)} (ok f) (ok g) → f ≡ g
  flow_inj f g h = cc

  -- A step that runs an operation of the sink and puts the result into the history.
  stored-boot_time :
      (r : Go (InfluxSink Point)) (put : InfluxSink Point → Flow lib) (b : ℤ) (g : Flow lib)
      → ((s : InfluxSink Point) → (put s).sink.boot_time ≡ s.boot_time)
      → ((s : InfluxSink Point) → r ≡ ok s → s.boot_time ≡ b)
      → (r >>= λ s. ok (put s)) ≡ ok g
      → g.sink.boot_time ≡ b
  stored-boot_time r put b g same kept h =
      let (s, first, last) = bind_ok r (λ s. ok (put s)) g h in
      ap (λ (x : Flow lib). x.sink.boot_time) (sym (flow_inj (put s) g last))
      ∙ (same s ∙ kept s first)

  either-boot_time :
      (w : Bool) (l r : Go (Flow lib)) (g : Flow lib) (b : ℤ)
      → (l ≡ ok g → g.sink.boot_time ≡ b)
      → (r ≡ ok g → g.sink.boot_time ≡ b)
      → (if w then l else r) ≡ ok g
      → g.sink.boot_time ≡ b
  either-boot_time true l r g b x y h = x h
  either-boot_time false l r g b x y h = y h

  same-boot_time : (f g : Flow lib) → ok f ≡ ok g → g.sink.boot_time ≡ f.sink.boot_time
  same-boot_time f g h = ap (λ (x : Flow lib). x.sink.boot_time) (sym (flow_inj f g h))

  tick-boot_time : (s t : InfluxSink Point) → tick lib s ≡ ok t → t.boot_time ≡ s.boot_time
  unfolding tick
  tick-boot_time s t k = elim (Bool-cases (length s.batch == 0)) [
    | inl z ↦ ground (arith, z, k)
    | inr z ↦ flush-boot_time s t (rw z at k)
  ]

  send_round-boot_time :
      (written : Bool) (s : InfluxSink Point) → (send_round lib written s).0.boot_time ≡ s.boot_time
  unfolding send_round sent_off counted
  send_round-boot_time written s = ground arith

  pub act-boot_time :
      (a : Act) (f g : Flow lib) → act lib a f ≡ ok g → g.sink.boot_time ≡ f.sink.boot_time
  unfolding act push
  act-boot_time (pushes e) f g h =
      either-boot_time f.sink.waiting _ _ g f.sink.boot_time (same-boot_time f g)
        (stored-boot_time (push lib e f.sink) _ f.sink.boot_time g (λ s. refl)
          (λ s k. pushed-boot_time _ f.sink s k))
        h
  act-boot_time ticks f g h =
      either-boot_time f.sink.waiting _ _ g f.sink.boot_time (same-boot_time f g)
        (stored-boot_time (tick lib f.sink) _ f.sink.boot_time g (λ s. refl)
          (λ s k. tick-boot_time f.sink s k))
        h
  act-boot_time (writes written) f g h = same-boot_time _ g h ∙ send_round-boot_time written f.sink
  act-boot_time resumes f g h =
      either-boot_time f.sink.waiting _ _ g f.sink.boot_time
        (stored-boot_time (flush lib f.sink) _ f.sink.boot_time g (λ s. refl)
          (λ s k. flush-boot_time f.sink s k))
        (same-boot_time f g) h

  pub act-Inv :
      Accepts lib
      → (a : Act) (f : Flow lib) → IsTimely f.sink.boot_time a
      → Inv lib f
      → (g : Flow lib) × (act lib a f ≡ ok g) × Inv lib g
  act-Inv laws (pushes e) f time i = pushes-Inv laws e f time i
  act-Inv laws ticks f time i = ticks-Inv laws f i
  act-Inv laws (writes written) f time i = writes-Inv lib written f f.sink.send_chan.queue refl i
  act-Inv laws resumes f time i = resumes-Inv laws f i

  -- With a client library that behaves as documented, and events whose time (their timestamp added
  -- to the boot time) is one that Influx can store, no interleaving of pushes, ticks, rounds of the
  -- send worker (whatever the client answers) and waits on the full channel panics, and each
  -- keeps the sink's invariant: the batches that the worker took, the ones that wait and the
  -- current one hold exactly the points pushed, each once and in order; at most 64 batches wait; a
  -- batch that is sent holds between one point and the watermark, and the current one is below the
  -- watermark unless a goroutine waits with it; and the counters agree with the history.
  pub run-Inv :
      Accepts lib
      → (acts : List Act) (f : Flow lib) → All (IsTimely f.sink.boot_time) acts
      → Inv lib f
      → (g : Flow lib) × (run lib acts f ≡ ok g) × Inv lib g
  unfolding run
  run-Inv laws [] f times i = (f, refl, i)
  run-Inv laws (a ∷ rest) f times i =
      let (g, done, i') = act-Inv laws a f times.0 i in
      let still = subst (λ b. All (IsTimely b) rest) (sym (act-boot_time a f g done)) times.1 in
      let (h, more, i'') = run-Inv laws rest g still i' in (h, rw done more, i'')
