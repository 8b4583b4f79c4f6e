-- ===== src/UdpEcho/UnderWay.antt =====
-- pkg/udpecho: what is under way between the client and the server, and what they do with it.
use mathlib.Core.Path.{subst}
use conntracct.Prelude.{
  ℕ, ◌+◌, ◌*◌, ◌≡◌, refl, sym, ap, ◌∙◌, ◌⊎◌, inl, inr, Bool, true, false, List, [], ◌∷◌, ◌++◌, map,
  All, length, arith, if◌then◌else◌,
}
use conntracct.Text.{Text, text_eq}
use conntracct.UdpEcho.Faults.{in_hand}
use conntracct.UdpEcho.{
  Worker, idle, writing, waiting, stopped, dead, Line, open_line, hung_up, closed_line, connected,
  ctrl_closed, Echo, packet, ping, pong, nop,
}

abbrev pub count_pings : List Bool → ℕ
count_pings [] = 0
count_pings (true ∷ cs) = count_pings cs + 1
count_pings (false ∷ cs) = count_pings cs

abbrev pub IsQuiet : List Text → Type 0
IsQuiet q = All (λ p. p ≡ nop) q

-- What is under way: at most the last packet is a ping, and only while the client waits for its answer.
abbrev pub UnderWay : Worker → List Text → List Text → Type 0
UnderWay idle out in' = IsQuiet out × (in' ≡ [])
UnderWay (writing c) out in' = IsQuiet out × (in' ≡ [])
UnderWay stopped out in' = IsQuiet out × (in' ≡ [])
UnderWay waiting out in' =
    ((q : List Text) × IsQuiet q × (out ≡ q ++ (ping ∷ [])) × (in' ≡ []))
    ⊎ ((out ≡ []) × (in' ≡ pong ∷ []))
UnderWay dead out in' = ⊥

abbrev pub asked : Worker → ℕ
asked waiting = 1
asked (writing true) = 1
asked (writing false) = 0
asked idle = 0
asked stopped = 0
asked dead = 0

-- The control channel is closed once nothing is left to hand over, the client stops only after that,
-- and the connection is closed after the client.
abbrev pub LineOk : Line → List Bool → Worker → Type 0
LineOk open_line pending w = w ≡ stopped → ⊥
LineOk hung_up pending w = pending ≡ []
LineOk closed_line pending w = (pending ≡ []) × (w ≡ stopped)

pub record Inv (cs : List Bool) (e : Echo) : Type 0 where
  pub under_way : UnderWay e.worker e.to_server e.to_client
  pub running : e.serving ≡ true
  pub line_ok : LineOk e.line e.pending e.worker
  pub log : e.written ++ (in_hand e.worker ++ map packet e.pending) ≡ map packet cs
  pub answers : e.answered + asked e.worker + count_pings e.pending ≡ count_pings cs

abbrev pub effort : Worker → ℕ
effort stopped = 0
effort idle = 1
effort waiting = 1
effort dead = 1
effort (writing c) = 4

abbrev pub left_open : Line → ℕ
left_open open_line = 2
left_open hung_up = 1
left_open closed_line = 0

-- How many steps are left at most.
abbrev pub measure : Echo → ℕ
measure e =
    4 * length e.pending
    + 2 * length e.to_server
    + length e.to_client
    + effort e.worker
    + left_open e.line

pub count_pings-cons :
    (c : Bool) (cs : List Bool) → count_pings (c ∷ cs) ≡ asked (writing c) + count_pings cs
count_pings-cons true cs = omega arith
count_pings-cons false cs = omega arith

nil-cons : {A : Type 0} (xs : List A) (y : A) (ys : List A) → xs ≡ [] → xs ≡ y ∷ ys → ⊥
nil-cons xs y ys h k = absurd (bare (sym h ∙ k))
  where
    bare : [] ≡ y ∷ ys → ⊥
    bare h = cc

pub hands-LineOk :
    (line : Line) (pending : List Bool) (w : Worker) (c : Bool) (rest : List Bool)
    → pending ≡ c ∷ rest
    → LineOk line pending w
    → LineOk line rest (writing c)
hands-LineOk open_line pending w c rest p k = λ h. cc
hands-LineOk hung_up pending w c rest p k = absurd (nil-cons pending c rest k p)
hands-LineOk closed_line pending w c rest p k = absurd (nil-cons pending c rest k.0 p)

-- A client that has not returned goes on.
pub goes_on-LineOk :
    (line : Line) (pending : List Bool) (v w : Worker)
    → (v ≡ stopped → ⊥)
    → (w ≡ stopped → ⊥)
    → LineOk line pending v
    → LineOk line pending w
goes_on-LineOk open_line pending v w a b k = b
goes_on-LineOk hung_up pending v w a b k = k
goes_on-LineOk closed_line pending v w a b k = absurd (a k.1)

pub stops-LineOk :
    (line : Line) (pending : List Bool) (v : Worker)
    → ctrl_closed line ≡ true
    → LineOk line pending v
    → LineOk line pending stopped
stops-LineOk open_line pending v h k = cc
stops-LineOk hung_up pending v h k = k
stops-LineOk closed_line pending v h k = (k.0, refl)

pub LineOk-connected :
    (line : Line) (pending : List Bool) (v : Worker)
    → (v ≡ stopped → ⊥)
    → LineOk line pending v
    → connected line ≡ true
LineOk-connected open_line pending v a k = refl
LineOk-connected hung_up pending v a k = refl
LineOk-connected closed_line pending v a k = absurd (a k.1)

pub head_eq : {A : Type 0} (a b : A) (xs ys : List A) → a ∷ xs ≡ b ∷ ys → a ≡ b
head_eq a b xs ys h = cc

pub tail_eq : {A : Type 0} (a b : A) (xs ys : List A) → a ∷ xs ≡ b ∷ ys → xs ≡ ys
tail_eq a b xs ys h = cc

-- The client that waits finds nothing but the answer to its ping.
pub answer_alone :
    (out in' : List Text) (p : Text) (rest : List Text)
    → in' ≡ p ∷ rest
    → UnderWay waiting out in'
    → (out ≡ []) × (p ≡ pong) × (rest ≡ [])
answer_alone out in' p rest c (inl (q, _, _, none_in)) = absurd (nil-cons (sym none_in ∙ c))
  where
    nil-cons : [] ≡ p ∷ rest → ⊥
    nil-cons h = cc
answer_alone out in' p rest c (inr (o, one)) =
    (o, head_eq p pong rest [] (sym c ∙ one), tail_eq p pong rest [] (sym c ∙ one))

-- What the server does with a no-op, which it does not answer.
pub unanswered : (p : Text) → p ≡ nop → text_eq p ping ≡ false
unfolding text_eq
unanswered p h = ap (λ x. text_eq x ping) h

-- A server round keeps what is under way, since it answers pings and nothing else.
pub serves-UnderWay :
    (v : Worker) (out in' rest : List Text) (p : Text)
    → out ≡ p ∷ rest
    → UnderWay v out in'
    → UnderWay v rest (if text_eq p ping then in' ++ (pong ∷ []) else in')
unfolding text_eq
serves-UnderWay idle out in' rest p o (quiet, empty) =
    let (n, still) = subst IsQuiet o quiet in rw (unanswered p n) (still, empty)
serves-UnderWay (writing c) out in' rest p o (quiet, empty) =
    let (n, still) = subst IsQuiet o quiet in rw (unanswered p n) (still, empty)
serves-UnderWay stopped out in' rest p o (quiet, empty) =
    let (n, still) = subst IsQuiet o quiet in rw (unanswered p n) (still, empty)
serves-UnderWay waiting out in' rest p o (inl ([], quiet, one, empty)) =
    rw (head_eq p ping rest [] (sym o ∙ one), empty)
      (inr (tail_eq p ping rest [] (sym o ∙ one), refl))
serves-UnderWay waiting out in' rest p o (inl (x ∷ q, quiet, more, empty)) =
    let n = head_eq p x rest (q ++ (ping ∷ [])) (sym o ∙ more) ∙ quiet.0 in
    rw (unanswered p n)
      (inl (q, quiet.1, tail_eq p x rest (q ++ (ping ∷ [])) (sym o ∙ more), empty))
serves-UnderWay waiting out in' rest p o (inr (none_out, one)) =
    absurd (nil-cons (sym none_out ∙ o))
  where
    nil-cons : [] ≡ p ∷ rest → ⊥
    nil-cons h = cc
serves-UnderWay dead out in' rest p o u = absurd u
