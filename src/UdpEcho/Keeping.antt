-- ===== src/UdpEcho/Keeping.antt =====
-- pkg/udpecho: a step without faults keeps what is under way, and leaves fewer steps.
use mathlib.Core.Path.{subst}
use conntracct.Prelude.{
  ◌<◌, ◌≡◌, refl, sym, ap, ◌∙◌, inl, inr, Bool, true, false, Bool-cases, List, [], ◌∷◌, ◌++◌, map,
  length, arith, length-append, All-append,
}
use mathlib.Core.List.{append_assoc}
use conntracct.Text.{Text, text_eq}
use conntracct.UdpEcho.{
  Worker, idle, writing, waiting, stopped, open_line, hung_up, closed_line, ctrl_closed, Echo,
  packet, ping, pong, nop, write, take, serve, Step, hands, writes, hangs_up, stops, closes, serves,
  takes, read_fails, loses, write_fails, echo_fails, ends_server, cuts_off,
}
use conntracct.UdpEcho.Faults.{in_hand}
use conntracct.UdpEcho.UnderWay.{
  count_pings, count_pings-cons, IsQuiet, UnderWay, LineOk, hands-LineOk, goes_on-LineOk,
  stops-LineOk, asked, Inv, effort, left_open, measure, answer_alone, serves-UnderWay,
}

module _ (cs : List Bool) (e : Echo) (i : Inv cs e) where
  quiet : e.worker ≡ idle → IsQuiet e.to_server × (e.to_client ≡ [])
  quiet w = subst (λ x. UnderWay x e.to_server e.to_client) w i.under_way

  -- A step keeps the invariant, and there are fewer steps left after it.
  abbrev Keeps : Echo → Type 0
  Keeps f = Inv cs f × (measure f < measure e)

  hands-Keeps :
      (c : Bool) (rest : List Bool)
      → e.worker ≡ idle
      → e.pending ≡ c ∷ rest
      → Keeps (record e { pending = rest; worker = writing c })
  hands-Keeps c rest w p = (
    record {
      under_way = quiet w;
      running = i.running;
      line_ok = hands-LineOk e.line e.pending e.worker c rest p i.line_ok;
      log =
          ap (λ x. e.written ++ map packet x) (sym p)
          ∙ (ap (λ x. e.written ++ (in_hand x ++ map packet e.pending)) (sym w) ∙ i.log);
      answers = omega (arith, i.answers, ap asked w, ap count_pings p, count_pings-cons c rest);
    },
    omega (arith, ap length p, ap effort w),
  )

  -- The client has not returned while it is at work.
  line_after :
      (v w : Worker)
      → e.worker ≡ v
      → (v ≡ stopped → ⊥)
      → (w ≡ stopped → ⊥)
      → LineOk e.line e.pending w
  line_after v w same a b =
      goes_on-LineOk e.line e.pending v w a b (subst (LineOk e.line e.pending) same i.line_ok)

  wrote :
      (c : Bool)
      → e.worker ≡ writing c
      → (e.written ++ (packet c ∷ [])) ++ map packet e.pending ≡ map packet cs
  wrote c w =
      append_assoc e.written (packet c ∷ []) (map packet e.pending)
      ∙ (ap (λ x. e.written ++ (in_hand x ++ map packet e.pending)) (sym w) ∙ i.log)

  writes_ping : e.worker ≡ writing true → Keeps (write true e)
  unfolding write
  writes_ping w =
      let (still, empty) = subst (λ x. UnderWay x e.to_server e.to_client) w i.under_way in
      (
        record {
          under_way = inl (e.to_server, still, refl, empty);
          running = i.running;
          line_ok = line_after (writing true) waiting w (λ x. cc) (λ x. cc);
          log = wrote true w;
          answers = omega (arith, i.answers, ap asked w);
        },
        omega (arith, ap effort w, length-append e.to_server (ping ∷ [])),
      )

  writes_nop : e.worker ≡ writing false → Keeps (write false e)
  unfolding write
  writes_nop w =
      let (still, empty) = subst (λ x. UnderWay x e.to_server e.to_client) w i.under_way in
      (
        record {
          under_way = (All-append (λ q. q ≡ nop) e.to_server (nop ∷ []) still (refl, tt), empty);
          running = i.running;
          line_ok = line_after (writing false) idle w (λ x. cc) (λ x. cc);
          log = wrote false w;
          answers = omega (arith, i.answers, ap asked w);
        },
        omega (arith, ap effort w, length-append e.to_server (nop ∷ [])),
      )

  hangs_up-Keeps : e.pending ≡ [] → e.line ≡ open_line → Keeps (record e { line = hung_up })
  hangs_up-Keeps p o = (
    record {
      under_way = i.under_way;
      running = i.running;
      line_ok = p;
      log = i.log;
      answers = i.answers;
    },
    omega (arith, ap left_open o),
  )

  stops-Keeps : e.worker ≡ idle → ctrl_closed e.line ≡ true → Keeps (record e { worker = stopped })
  stops-Keeps w o = (
    record {
      under_way = quiet w;
      running = i.running;
      line_ok = stops-LineOk e.line e.pending e.worker o i.line_ok;
      log = ap (λ x. e.written ++ (in_hand x ++ map packet e.pending)) (sym w) ∙ i.log;
      answers = omega (arith, i.answers, ap asked w);
    },
    omega (arith, ap effort w),
  )

  closes-Keeps : e.worker ≡ stopped → e.line ≡ hung_up → Keeps (record e { line = closed_line })
  closes-Keeps w o = (
    record {
      under_way = i.under_way;
      running = i.running;
      line_ok = (subst (λ x. LineOk x e.pending e.worker) o i.line_ok, w);
      log = i.log;
      answers = i.answers;
    },
    omega (arith, ap left_open o),
  )

  takes-Keeps :
      (p : Text) (rest : List Text)
      → e.worker ≡ waiting
      → e.to_client ≡ p ∷ rest
      → Keeps (take p (record e { to_client = rest }))
  unfolding take text_eq
  takes-Keeps p rest w c =
      let (out, p', rest') =
        answer_alone e.to_server e.to_client p rest c
          (subst (λ x. UnderWay x e.to_server e.to_client) w i.under_way) in
      rw p' (
        record {
          under_way = (subst IsQuiet (sym out) tt, rest');
          running = i.running;
          line_ok = line_after waiting idle w (λ x. cc) (λ x. cc);
          log = ap (λ x. e.written ++ (in_hand x ++ map packet e.pending)) (sym w) ∙ i.log;
          answers = omega (arith, i.answers, ap asked w);
        },
        omega (arith, ap length c, ap effort w),
      )

  serves-Keeps :
      (p : Text) (rest : List Text)
      → e.to_server ≡ p ∷ rest
      → Keeps (serve p (record e { to_server = rest }))
  unfolding serve
  serves-Keeps p rest o = elim (Bool-cases (text_eq p ping)) [
    | inl t ↦ rw t (
      record {
        under_way = rw t at (serves-UnderWay e.worker e.to_server e.to_client rest p o i.under_way);
        running = i.running;
        line_ok = i.line_ok;
        log = i.log;
        answers = i.answers;
      },
      omega (arith, ap length o, length-append e.to_client (pong ∷ [])),
    )
    | inr f ↦ rw f (
      record {
        under_way = rw f at (serves-UnderWay e.worker e.to_server e.to_client rest p o i.under_way);
        running = i.running;
        line_ok = i.line_ok;
        log = i.log;
        answers = i.answers;
      },
      omega (arith, ap length o),
    )
  ]

pub Step-Keeps :
    (cs : List Bool) (e f : Echo) → Inv cs e → Step false e f → Inv cs f × (measure f < measure e)
Step-Keeps cs e f i (hands c rest w p n) =
    subst (Keeps cs e i) (sym n) (hands-Keeps cs e i c rest w p)
Step-Keeps cs e f i (writes true w o n) = subst (Keeps cs e i) (sym n) (writes_ping cs e i w)
Step-Keeps cs e f i (writes false w o n) = subst (Keeps cs e i) (sym n) (writes_nop cs e i w)
Step-Keeps cs e f i (hangs_up p o n) = subst (Keeps cs e i) (sym n) (hangs_up-Keeps cs e i p o)
Step-Keeps cs e f i (stops w o n) = subst (Keeps cs e i) (sym n) (stops-Keeps cs e i w o)
Step-Keeps cs e f i (closes w o n) = subst (Keeps cs e i) (sym n) (closes-Keeps cs e i w o)
Step-Keeps cs e f i (serves p rest r o n) =
    subst (Keeps cs e i) (sym n) (serves-Keeps cs e i p rest o)
Step-Keeps cs e f i (takes p rest w o c n) =
    subst (Keeps cs e i) (sym n) (takes-Keeps cs e i p rest w c)
Step-Keeps cs e f i (read_fails b w n) = cc
Step-Keeps cs e f i (loses p rest b o n) = cc
Step-Keeps cs e f i (write_fails c b w n) = cc
Step-Keeps cs e f i (echo_fails rest b r o n) = cc
Step-Keeps cs e f i (ends_server b n) = cc
Step-Keeps cs e f i (cuts_off b o n) = cc
