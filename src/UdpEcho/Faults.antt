-- ===== src/UdpEcho/Faults.antt =====
-- pkg/udpecho under faults: what holds in every run, also when packets are late or lost and writes fail.
use mathlib.Core.Path.{subst}
use mathlib.Core.List.{append_assoc}
use conntracct.Prelude.{
  ℕ, zero, suc, ◌+◌, ◌≤◌, ◌≡◌, refl, sym, ap, ◌∙◌, ◌⊎◌, inl, inr, Bool, true, false, Bool-cases,
  List, [], ◌∷◌, ◌++◌, map, length, arith, if◌then◌else◌, length-append,
}
use conntracct.Text.{Text, text_eq}
use conntracct.UdpEcho.{
  Worker, idle, writing, waiting, stopped, dead, Line, hung_up, closed_line, Echo, Call, controls,
  dial, packet, ping, pong, write, take, serve, Step, hands, writes, hangs_up, stops, closes,
  serves, takes, read_fails, loses, write_fails, echo_fails, ends_server, cuts_off, Run, start,
  next,
}

-- How many packets are pings.
abbrev pub pings_in : List Text → ℕ
pings_in [] = 0
pings_in (p ∷ ps) = let rest = pings_in ps in if text_eq p ping then rest + 1 else rest

pings_in-append : (ps qs : List Text) → pings_in (ps ++ qs) ≡ pings_in ps + pings_in qs
pings_in-append [] qs = omega arith
pings_in-append (p ∷ ps) qs = ground (arith, pings_in-append ps qs)

pings_in_ping :
    (p : Text) (ps : List Text) → text_eq p ping ≡ true → pings_in (p ∷ ps) ≡ pings_in ps + 1
pings_in_ping p ps t = ground (arith, t)

pings_in_fewer : (p : Text) (ps : List Text) → pings_in ps ≤ pings_in (p ∷ ps)
pings_in_fewer p ps = ground arith

-- The packet of the control message that the client took and has not written.
abbrev pub in_hand : Worker → List Text
in_hand (writing c) = packet c ∷ []
in_hand idle = []
in_hand waiting = []
in_hand stopped = []
in_hand dead = []

-- What the client has sent begins the packets of the calls, and it goes on with the one in hand and
-- those that are pending unless it is dead; every answer, taken or under way, belongs to a ping that was sent.
pub record Safe (cs : List Bool) (e : Echo) : Type 0 where
  pub unsent : List Text
  pub begins : e.written ++ unsent ≡ map packet cs
  pub goes_on : (e.worker ≡ dead) ⊎ (unsent ≡ in_hand e.worker ++ map packet e.pending)
  pub asked_for : e.answered + length e.to_client + pings_in e.to_server ≤ pings_in e.written

-- Of a worker that is not dead.
living : {A : Type 0} (v w : Worker) → w ≡ v → (w ≡ dead) ⊎ A → (v ≡ dead → ⊥) → A
living v w h (inl d) alive = absurd (alive (sym h ∙ d))
living v w h (inr a) alive = a

module _ (cs : List Bool) (e : Echo) (s : Safe cs e) where
  -- What is still to be sent, while the worker is v.
  rest_of :
      (v : Worker) → e.worker ≡ v → (v ≡ dead → ⊥) → s.unsent ≡ in_hand v ++ map packet e.pending
  rest_of v w alive =
      living v e.worker w s.goes_on alive ∙ ap (λ x. in_hand x ++ map packet e.pending) w

  hands-Safe :
      (c : Bool) (rest : List Bool)
      → e.worker ≡ idle
      → e.pending ≡ c ∷ rest
      → Safe cs (record e { pending = rest; worker = writing c })
  hands-Safe c rest w p = record {
    unsent = s.unsent;
    begins = s.begins;
    goes_on = inr (rest_of idle w (λ x. cc) ∙ ap (map packet) p);
    asked_for = s.asked_for;
  }

  writes-Safe : (c : Bool) → e.worker ≡ writing c → Safe cs (write c e)
  unfolding write
  writes-Safe c w = record {
    unsent = map packet e.pending;
    begins =
        append_assoc e.written (packet c ∷ []) (map packet e.pending)
        ∙ (ap (λ x. e.written ++ x) (sym (rest_of (writing c) w (λ x. cc))) ∙ s.begins);
    goes_on = inr (after c);
    asked_for = omega (
      arith,
      s.asked_for,
      pings_in-append e.to_server (packet c ∷ []),
      pings_in-append e.written (packet c ∷ []),
    );
  }
    where
      after :
          (c : Bool)
          → map packet e.pending ≡ in_hand (if c then waiting else idle) ++ map packet e.pending
      after true = refl
      after false = refl

  -- The caller closes one of its ends.
  line-Safe : (line : Line) → Safe cs (record e { line = line })
  line-Safe line = record {
    unsent = s.unsent;
    begins = s.begins;
    goes_on = s.goes_on;
    asked_for = s.asked_for;
  }

  serves-Safe :
      (p : Text) (rest : List Text)
      → e.to_server ≡ p ∷ rest
      → Safe cs (serve p (record e { to_server = rest }))
  unfolding serve
  serves-Safe p rest o = elim (Bool-cases (text_eq p ping)) [
    | inl t ↦ rw t (record {
      unsent = s.unsent;
      begins = s.begins;
      goes_on = s.goes_on;
      asked_for = omega (
        arith,
        s.asked_for,
        ap pings_in o,
        pings_in_ping p rest t,
        length-append e.to_client (pong ∷ []),
      );
    })
    | inr f ↦ rw f (record {
      unsent = s.unsent;
      begins = s.begins;
      goes_on = s.goes_on;
      asked_for = omega (arith, s.asked_for, ap pings_in o, pings_in_fewer p rest);
    })
  ]

  takes-Safe :
      (p : Text) (rest : List Text)
      → e.worker ≡ waiting
      → e.to_client ≡ p ∷ rest
      → Safe cs (take p (record e { to_client = rest }))
  unfolding take
  takes-Safe p rest w c = elim (Bool-cases (text_eq p pong)) [
    | inl t ↦ rw t (record {
      unsent = s.unsent;
      begins = s.begins;
      goes_on = inr (rest_of waiting w (λ x. cc));
      asked_for = omega (arith, s.asked_for, ap length c);
    })
    | inr f ↦ rw f (record {
      unsent = s.unsent;
      begins = s.begins;
      goes_on = inl refl;
      asked_for = omega (arith, s.asked_for, ap length c);
    })
  ]

  dies-Safe : Safe cs (record e { worker = dead })
  dies-Safe = record {
    unsent = s.unsent;
    begins = s.begins;
    goes_on = inl refl;
    asked_for = s.asked_for;
  }

  -- A packet leaves the queue without an answer.
  loses-Safe :
      (p : Text) (rest : List Text)
      → e.to_server ≡ p ∷ rest
      → Safe cs (record e { to_server = rest })
  loses-Safe p rest o = record {
    unsent = s.unsent;
    begins = s.begins;
    goes_on = s.goes_on;
    asked_for = omega (arith, s.asked_for, ap pings_in o, pings_in_fewer p rest);
  }

Step-Safe : (faults : Bool) (cs : List Bool) (e f : Echo) → Safe cs e → Step faults e f → Safe cs f
Step-Safe b cs e f s (hands c rest w p n) = subst (Safe cs) (sym n) (hands-Safe cs e s c rest w p)
Step-Safe b cs e f s (writes c w o n) = subst (Safe cs) (sym n) (writes-Safe cs e s c w)
Step-Safe b cs e f s (hangs_up p o n) = subst (Safe cs) (sym n) (line-Safe cs e s hung_up)
Step-Safe b cs e f s (stops w o n) = subst (Safe cs) (sym n) (record {
  unsent = s.unsent;
  begins = s.begins;
  goes_on = inr (rest_of cs e s idle w (λ x. cc));
  asked_for = s.asked_for;
})
Step-Safe b cs e f s (closes w o n) = subst (Safe cs) (sym n) (line-Safe cs e s closed_line)
Step-Safe b cs e f s (serves p rest r o n) = subst (Safe cs) (sym n) (serves-Safe cs e s p rest o)
Step-Safe b cs e f s (takes p rest w o c n) = subst (Safe cs) (sym n) (takes-Safe cs e s p rest w c)
Step-Safe b cs e f s (read_fails y w n) = subst (Safe cs) (sym n) (dies-Safe cs e s)
Step-Safe b cs e f s (loses p rest y o n) = subst (Safe cs) (sym n) (loses-Safe cs e s p rest o)
Step-Safe b cs e f s (write_fails c y w n) = subst (Safe cs) (sym n) (dies-Safe cs e s)
Step-Safe b cs e f s (echo_fails rest y r o n) =
    let lost = loses-Safe cs e s ping rest o in
    subst (Safe cs) (sym n) (dies-Safe cs (record e { to_server = rest }) lost)
Step-Safe b cs e f s (ends_server y n) =
    subst (Safe cs) (sym n) (record {
      unsent = s.unsent;
      begins = s.begins;
      goes_on = s.goes_on;
      asked_for = s.asked_for;
    })
Step-Safe b cs e f s (cuts_off y o n) = subst (Safe cs) (sym n) (line-Safe cs e s closed_line)

pub Run-Safe :
    (faults : Bool) (calls : List Call) (n : ℕ) (f : Echo)
    → Run faults (dial calls) n f
    → Safe (controls calls) f
Run-Safe b calls zero f (start _ same) = subst (Safe (controls calls)) (sym same) (record {
  unsent = map packet (controls calls);
  begins = refl;
  goes_on = inr refl;
  asked_for = omega arith;
})
Run-Safe b calls (suc n) g (next _ f _ before step) =
    Step-Safe b (controls calls) f g (Run-Safe b calls n f before) step
