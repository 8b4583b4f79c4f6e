-- ===== src/UdpEcho/Ends.antt =====
-- pkg/udpecho: the runs of the client and the server, with and without faults.
use mathlib.Core.Path.{subst}
use conntracct.Prelude.{
  ℕ, zero, suc, ◌≢◌, ◌+◌, ◌*◌, ◌≤◌, ◌≡◌, refl, sym, ap, ◌∙◌, ◌⊎◌, inl, inr, Bool, true, false, List,
  [], ◌∷◌, ◌++◌, map, length, arith,
}
use mathlib.Core.List.{append-nil}
use conntracct.UdpEcho.{
  Worker, idle, writing, waiting, stopped, dead, Line, open_line, hung_up, closed_line, connected,
  ctrl_closed, Echo, Call, controls, dial, packet, ping, pong, Step, hands, writes, hangs_up, stops,
  closes, serves, takes, Run, start, next,
}
use conntracct.UdpEcho.Faults.{Safe, Run-Safe, in_hand}
use conntracct.UdpEcho.UnderWay.{
  count_pings, UnderWay, LineOk, LineOk-connected, asked, Inv, measure,
}
use conntracct.UdpEcho.Keeping.{Step-Keeps}

-- How a run ends: the client has returned, it has sent every packet, and every ping was answered.
pub record Finished (cs : List Bool) (e : Echo) : Type 0 where
  pub has_stopped : e.worker ≡ stopped
  pub is_closed : e.line ≡ closed_line
  pub all_written : e.written ≡ map packet cs
  pub all_answered : e.answered ≡ count_pings cs

abbrev pub CanStep : Echo → Type 0
CanStep e = (f : Echo) × Step false e f

answers-CanStep :
    (e : Echo)
    → e.worker ≡ waiting
    → connected e.line ≡ true
    → e.serving ≡ true
    → UnderWay waiting e.to_server e.to_client
    → CanStep e
answers-CanStep e w o r (inl ([], quiet, one, empty)) = (_, serves ping [] r one refl)
answers-CanStep e w o r (inl (x ∷ q, quiet, more, empty)) =
    (_, serves x (q ++ (ping ∷ [])) r more refl)
answers-CanStep e w o r (inr (out, one)) = (_, takes pong [] w o one refl)

idle-CanStep :
    (e : Echo) (pending : List Bool) (line : Line)
    → e.worker ≡ idle
    → e.pending ≡ pending
    → e.line ≡ line
    → CanStep e
idle-CanStep e (c ∷ rest) line w p o = (_, hands c rest w p refl)
idle-CanStep e [] open_line w p o = (_, hangs_up p o refl)
idle-CanStep e [] hung_up w p o = (_, stops w (ap ctrl_closed o) refl)
idle-CanStep e [] closed_line w p o = (_, stops w (ap ctrl_closed o) refl)

returned :
    (cs : List Bool) (e : Echo) (line : Line)
    → e.worker ≡ stopped
    → e.line ≡ line
    → Inv cs e
    → CanStep e ⊎ Finished cs e
returned cs e open_line w o i = absurd (subst (λ x. LineOk x e.pending e.worker) o i.line_ok w)
returned cs e hung_up w o i = inl (_, closes w o refl)
returned cs e closed_line w o i =
    let none_left = (subst (λ x. LineOk x e.pending e.worker) o i.line_ok).0 in
    inr (record {
      has_stopped = w;
      is_closed = o;
      all_written =
          sym (append-nil e.written)
          ∙ (ap (λ x. e.written ++ map packet x) (sym none_left)
              ∙ (ap (λ x. e.written ++ (in_hand x ++ map packet e.pending)) (sym w) ∙ i.log));
      all_answered = omega (arith, i.answers, ap asked w, ap count_pings none_left);
    })

progress :
    (cs : List Bool) (e : Echo) (v : Worker) → e.worker ≡ v → Inv cs e → CanStep e ⊎ Finished cs e
progress cs e idle w i = inl (idle-CanStep e e.pending e.line w refl refl)
progress cs e (writing c) w i = inl (
  _,
  writes c w
      (LineOk-connected e.line e.pending (writing c) (λ x. cc)
        (subst (LineOk e.line e.pending) w i.line_ok))
      refl,
)
progress cs e waiting w i = inl (
    answers-CanStep e w
      (LineOk-connected e.line e.pending waiting (λ x. cc)
        (subst (LineOk e.line e.pending) w i.line_ok))
      i.running (subst (λ x. UnderWay x e.to_server e.to_client) w i.under_way))
progress cs e stopped w i = returned cs e e.line w refl i
progress cs e dead w i = absurd (subst (λ x. UnderWay x e.to_server e.to_client) w i.under_way)

dial-Inv : (calls : List Call) → Inv (controls calls) (dial calls)
dial-Inv calls = record {
  under_way = (tt, refl);
  running = refl;
  line_ok = λ h. cc;
  log = refl;
  answers = omega arith;
}

run-Inv :
    (cs : List Bool) (e : Echo) (n : ℕ) (f : Echo)
    → Inv cs e
    → Run false e n f
    → Inv cs f × (n + measure f ≤ measure e)
run-Inv cs e zero f i (start _ same) = (subst (Inv cs) (sym same) i, omega (arith, ap measure same))
run-Inv cs e (suc n) g i (next _ f _ before step) =
    let (j, fewer) = run-Inv cs e n f i before in
    let (k, less) = Step-Keeps cs f g j step in (k, omega (arith, fewer, less))

-- What holds after n steps, with faults and without.
abbrev pub Outcome : Bool → List Bool → ℕ → Echo → Type 0
Outcome true cs n f = Safe cs f
Outcome false cs n f =
    Safe cs f × (n ≤ 4 * length cs + 3) × (f.worker ≢ dead) × (CanStep f ⊎ Finished cs f)

-- In every interleaving of the caller, the client and the server, with packets that are late or lost,
-- writes and reads that fail, and a connection that is closed too early, the packets that the client
-- has sent begin those of the calls, and it goes on with the next unless the process ended;
-- there are never more answers than pings sent. Without such faults, where the connection is closed
-- only after the client's goroutine has returned, every interleaving ends, after at most four
-- steps for each packet and three more: it never comes to a `log.Fatal`, and it cannot stop before
-- the client has returned and is closed, all the packets are sent in their order, and every ping
-- is answered.
pub run_ends :
    (faults : Bool) (calls : List Call) (n : ℕ) (f : Echo)
    → Run faults (dial calls) n f
    → Outcome faults (controls calls) n f
run_ends true calls n f r = Run-Safe true calls n f r
run_ends false calls n f r =
    let (i, bound) = run-Inv (controls calls) (dial calls) n f (dial-Inv calls) r in
    (
      Run-Safe false calls n f r,
      omega (arith, bound),
      λ d. subst (λ x. UnderWay x f.to_server f.to_client) d i.under_way,
      progress (controls calls) f f.worker refl i,
    )
