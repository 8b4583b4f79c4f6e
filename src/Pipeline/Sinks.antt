-- ===== src/Pipeline/Sinks.antt =====
-- The sinks that the pipeline holds.
use conntracct.Prelude.{
  ◌≡◌, refl, true, false, [], ◌∷◌, ◌++◌, none, some, All, All-append, Bool-cases, inl, inr,
}
use conntracct.Sinks.Sink.{SinkOps}
use conntracct.Pipeline.{Pipeline, sink_not_init, register_sink}

module _ (ops : SinkOps) where
  open ops use {Sink, is_init}

  -- Only initialized sinks ever stand in the pipeline: `RegisterSink` appends a sink that is
  -- initialized, and refuses any other without a change.
  pub register_sink-All :
      (s : Sink) (p : Pipeline Sink)
      → All (λ t. is_init t ≡ true) p.sinks
      → All (λ t. is_init t ≡ true) (register_sink ops s p).0.sinks
        × (is_init s ≡ true
            → register_sink ops s p ≡ (record p { sinks = p.sinks ++ (s ∷ []) }, none))
        × (is_init s ≡ false → register_sink ops s p ≡ (p, some sink_not_init))
  unfolding register_sink
  register_sink-All s p h = elim (Bool-cases (is_init s)) [
    | inl t ↦ rw t (All-append _ p.sinks (s ∷ []) h (t, tt), λ _. refl, λ f. absurd (cc))
    | inr f ↦ rw f (h, λ t. absurd (cc), λ _. refl)
  ]
