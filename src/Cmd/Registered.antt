-- ===== src/Cmd/Registered.antt =====
-- Which sinks `initRegisterSinks` leaves in the pipeline.
use mathlib.Core.List.{append_assoc, append-nil}
use conntracct.Prelude.{
  ℕ, zero, suc, get_elem?, All-map, arith, ◌≡◌, refl, sym, ap, ◌∙◌, Bool, true, false, List, [],
  ◌∷◌, ◌++◌, map, Option, none, some, ok, ◌>>=◌, inl, inr, All, Bool-cases, if◌then◌else◌,
}
use conntracct.Prelude.Int.{ℤ}
use conntracct.Sinks.Types.{SinkConfig}
use conntracct.Sinks.Influx.{InfluxLib}
use conntracct.Sinks.Influx.Flow.{Accepts}
use conntracct.Sinks.Influx.Setup.{Server}
use conntracct.Sinks.Sink.{AnySink, SinkError, sink_name, sink_is_init, new_sink}
use conntracct.Sinks.Sink.Making.{makeable, new_sink_makeable}
use conntracct.Pipeline.{Pipeline, register_sink}
use conntracct.Cmd.{
  CmdError, creating, registered, register_made, init_register_one, init_register_sinks,
}

-- The configurations before the first one that cannot be served, and whether there is one.
abbrev pub served : (SinkConfig → Server) → List SinkConfig → List SinkConfig
served servers [] = []
served servers (cfg ∷ cl) =
    let rest = served servers cl in if makeable (servers cfg) cfg then cfg ∷ rest else []

abbrev pub all_served : (SinkConfig → Server) → List SinkConfig → Bool
all_served servers [] = true
all_served servers (cfg ∷ cl) =
    let rest = all_served servers cl in if makeable (servers cfg) cfg then rest else false

pub all_served-served :
    (servers : SinkConfig → Server) (cl : List SinkConfig)
    → all_served servers cl ≡ true
    → served servers cl ≡ cl
all_served-served servers [] h = refl
all_served-served servers (cfg ∷ cl) h = elim (Bool-cases (makeable (servers cfg) cfg)) [
  | inl t ↦ rw t (ap (◌∷◌ cfg) (all_served-served servers cl (rw t at h)))
  | inr f ↦ absurd (ground (arith, f, h))
]

abbrev pub no_error : Option CmdError → Bool
no_error none = true
no_error (some e) = false

module _ (lib : InfluxLib) (laws : Accepts lib) (servers : SinkConfig → Server) (boot : ℤ) where
  one-made :
      (cfg : SinkConfig) (p : Pipeline (AnySink lib))
      → makeable (servers cfg) cfg ≡ true
      → (s : AnySink lib) × (sink_is_init lib s ≡ true)
        × (sink_name lib s ≡ cfg.name)
        × (new_sink lib (servers cfg) boot cfg ≡ ok (inr s))
        × (init_register_one lib boot servers cfg p
            ≡ ok (record p { sinks = p.sinks ++ (s ∷ []) }, none))
  unfolding init_register_one register_made registered register_sink
  one-made cfg p h =
      let (s, made, ready, name) = (new_sink_makeable lib laws (servers cfg) boot cfg).0 h in
      (
        s,
        ready,
        name,
        made,
        rw (init_register_one, made) (rw (◌>>=◌, register_made, register_sink, ready)),
      )

  one-refused :
      (cfg : SinkConfig) (p : Pipeline (AnySink lib))
      → makeable (servers cfg) cfg ≡ false
      → (e : SinkError) × (init_register_one lib boot servers cfg p
          ≡ ok (p, some (creating cfg.name e)))
  unfolding init_register_one register_made
  one-refused cfg p h =
      let (e, refused) = (new_sink_makeable lib laws (servers cfg) boot cfg).1 h in
      (e, rw (init_register_one, refused))

  -- `New` made the sink, from one of the configurations.
  abbrev pub IsNew : List SinkConfig → AnySink lib → Type 0
  IsNew cl s =
      (cfg : SinkConfig) × (i : ℕ) × (get_elem? cl i ≡ some cfg)
      × (new_sink lib (servers cfg) boot cfg ≡ ok (inr s))

  abbrev pub Registers : List SinkConfig → Pipeline (AnySink lib) → Type 0
  Registers cl p =
      (ss : List (AnySink lib)) × (r : Option CmdError) × (init_register_sinks lib boot servers cl p
        ≡ ok (record p { sinks = p.sinks ++ ss }, r))
      × (map (sink_name lib) ss ≡ map (λ (c : SinkConfig). c.name) (served servers cl))
      × All (λ s. sink_is_init lib s ≡ true) ss
      × All (IsNew cl) ss
      × (no_error r ≡ all_served servers cl)

  -- If the Influx library behaves as documented, `initRegisterSinks` never panics: it appends, in
  -- the order of the configurations, an initialized sink that `New` made for each one before the
  -- first that cannot be served, with the name of the configuration, and changes nothing else of
  -- the pipeline. It returns no error exactly if every configuration can be served.
  pub init_register_sinks-served :
      (cl : List SinkConfig) (p : Pipeline (AnySink lib)) → Registers cl p
  unfolding init_register_sinks
  init_register_sinks-served [] p = (
    [],
    none,
    ap (λ ss. ok (record p { sinks = ss }, none)) (sym (append-nil p.sinks)),
    refl,
    tt,
    tt,
    refl,
  )
  init_register_sinks-served (cfg ∷ cl) p = elim (Bool-cases (makeable (servers cfg) cfg)) [
    | inl t ↦
        let (s, ready, name, made, done) = one-made cfg p t in
        let (ss, r, rest, names, all_ready, all_new, outcome) =
          init_register_sinks-served cl (record p { sinks = p.sinks ++ (s ∷ []) }) in
        (
          s ∷ ss,
          r,
          rw done (
              rest
              ∙ ap (λ sinks'. ok (record p { sinks = sinks' }, r))
                  (append_assoc p.sinks (s ∷ []) ss)),
          rw t (rw (name, names)),
          (ready, all_ready),
          ((cfg, zero, refl, made), All-map (λ x n. (n.0, suc n.1, n.2, n.3)) ss all_new),
          rw t outcome,
        )
    | inr f ↦
        let (e, done) = one-refused cfg p f in
        (
          [],
          some (creating cfg.name e),
          rw done (
              ap (λ sinks'. ok (record p { sinks = sinks' }, some (creating cfg.name e)))
                (sym (append-nil p.sinks))),
          rw f,
          tt,
          tt,
          rw f,
        )
  ]
