-- ===== src/Sinks/Types/Decoding.antt =====
-- DecodeSinkConfigMap does not depend on the order in which Go iterates over the map.
use mathlib.Core.List.{
  Mem, mem-cons_self, mem-cons_of_mem, eq-or-mem_of_mem-cons, not-mem-nil, Perm, append_assoc,
  append-nil, filter_map,
}
use mathlib.Core.List.Perm
use mathlib.Core.Logic.Or
use mathlib.Core.Path.{subst}
use conntracct.Prelude.{
  ◌≡◌, refl, sym, ap, ◌∙◌, Bool, true, false, List, [], ◌∷◌, ◌++◌, map, Option, none, some, String,
  ◌⊎◌, inl, inr,
}
use conntracct.Sinks.Types.{SinkConfig, named, decode_sink_config_map}

abbrev right_of : {E : Type 0} → E ⊎ SinkConfig → Option SinkConfig
right_of (inl e) = none
right_of (inr sc) = some sc

abbrev is_right : {E : Type 0} → E ⊎ SinkConfig → Bool
is_right (inl e) = false
is_right (inr sc) = true

answer-cases :
    {E : Type 0} (x : E ⊎ SinkConfig) → ((e : E) × (x ≡ inl e)) ⊎ ((sc : SinkConfig) × (x ≡ inr sc))
answer-cases (inl e) = inl (e, refl)
answer-cases (inr sc) = inr (sc, refl)

inr_eq : {E A : Type 0} (a b : A) (x y : E ⊎ A) → x ≡ inr a → y ≡ inr b → x ≡ y → a ≡ b
inr_eq a b x y p q h = cc

module _ {P E : Type 0} (decode : SinkConfig → P → E ⊎ SinkConfig) where
  abbrev answer : String × P → E ⊎ SinkConfig
  answer p = decode (named p.0) p.1

  abbrev sinks_of : List (String × P) → List SinkConfig
  sinks_of ps = filter_map (λ p. right_of (answer p)) ps

  abbrev AllDecode : List (String × P) → Type 0
  AllDecode ps = (p : String × P) → Mem p ps → is_right (answer p) ≡ true

  -- Decoding succeeds exactly if every entry decodes.
  decode_sink_config_map-AllDecode :
      (ps : List (String × P)) (out cl : List SinkConfig)
      → decode_sink_config_map decode ps out ≡ inr cl
      → AllDecode ps × (cl ≡ out ++ sinks_of ps)
  unfolding decode_sink_config_map filter_map
  decode_sink_config_map-AllDecode [] out cl h =
      (λ p m. absurd (not-mem-nil m), sym (append-nil out ∙ inr_eq out cl _ _ refl refl h))
  decode_sink_config_map-AllDecode ((name, params) ∷ ps) out cl h =
      elim (answer-cases (decode (named name) params)) [
        | inl (e, f) ↦ absurd (inl-inr (rw (decode_sink_config_map, f) at h))
        | inr (sc, t) ↦
            let (all, same) =
              decode_sink_config_map-AllDecode ps (out ++ (sc ∷ [])) cl
                (rw (decode_sink_config_map, t) at h) in
            (
              λ p m.
                  Or.elim (hlevel) (eq-or-mem_of_mem-cons m)
                    (λ e. ap (λ q. is_right (answer q)) e ∙ ap is_right t) (all p),
              rw t (same ∙ append_assoc out (sc ∷ []) (sinks_of ps)),
            )
      ]
    where
      inl-inr : {e : E} → inl e ≡ inr cl → ⊥
      inl-inr h = cc

  AllDecode-decode_sink_config_map :
      (ps : List (String × P)) (out : List SinkConfig)
      → AllDecode ps
      → decode_sink_config_map decode ps out ≡ inr (out ++ sinks_of ps)
  unfolding decode_sink_config_map filter_map
  AllDecode-decode_sink_config_map [] out all = ap inr (sym (append-nil out))
  AllDecode-decode_sink_config_map ((name, params) ∷ ps) out all =
      elim (answer-cases (decode (named name) params)) [
        | inl (e, f) ↦ absurd (false-true (ap is_right (sym f) ∙ all (name, params) mem-cons_self))
        | inr (sc, t) ↦
            rw (decode_sink_config_map, t)
              (AllDecode-decode_sink_config_map ps (out ++ (sc ∷ []))
                  (λ p m. all p (mem-cons_of_mem _ m))
                ∙ ap inr (append_assoc out (sc ∷ []) (sinks_of ps)))
      ]
    where
      false-true : false ≡ true → ⊥
      false-true h = cc

  sinks_of-names :
      ((name : String) (params : P) (sc : SinkConfig)
        → decode (named name) params ≡ inr sc
        → sc.name ≡ name)
      → (ps : List (String × P)) → AllDecode ps
      → map (λ c. c.name) (sinks_of ps) ≡ map (λ p. p.0) ps
  unfolding filter_map
  sinks_of-names keeps [] all = refl
  sinks_of-names keeps ((name, params) ∷ ps) all =
      elim (answer-cases (decode (named name) params)) [
        | inl (e, f) ↦ absurd (false-true (ap is_right (sym f) ∙ all (name, params) mem-cons_self))
        | inr (sc, t) ↦
            rw
              (
                t,
                keeps name params sc t,
                sinks_of-names keeps ps (λ p m. all p (mem-cons_of_mem _ m)),
              )
              refl
      ]
    where
      false-true : false ≡ true → ⊥
      false-true h = cc

  -- If decoding the entries of the configuration map in one order succeeds, it succeeds in every order,
  -- with the same sinks up to their order; and as the decoder leaves the names alone, which it
  -- is told to, the sinks have the keys of the map as their names, in the order of the iteration.
  pub decode_sink_config_map_order :
      ((name : String) (params : P) (sc : SinkConfig)
        → decode (named name) params ≡ inr sc
        → sc.name ≡ name)
      → (ps qs : List (String × P)) → Perm ps qs
      → (out : List SinkConfig) → decode_sink_config_map decode ps [] ≡ inr out
      → (map (λ c. c.name) out ≡ map (λ p. p.0) ps)
        × ((other : List SinkConfig) × (decode_sink_config_map decode qs [] ≡ inr other)
            × Perm out other)
  decode_sink_config_map_order keeps ps qs perm out h =
      let (all, same) = decode_sink_config_map-AllDecode ps [] out h in
      (
        ap (map (λ c. c.name)) same ∙ sinks_of-names keeps ps all,
        (
          sinks_of qs,
          AllDecode-decode_sink_config_map qs [] (λ p m. all p ((Perm.mem_iff perm).1 m)),
          subst (λ x. Perm x (sinks_of qs)) (sym same)
              (Perm.filter_map (λ p. right_of (answer p)) perm),
        ),
      )
