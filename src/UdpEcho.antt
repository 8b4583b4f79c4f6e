-- ===== src/UdpEcho.antt =====
-- pkg/udpecho: a client that sends pings and no-ops over UDP, and the server that answers the pings. The
-- socket is two queues of packets; that it delivers late, loses a packet or fails is a step.
pub mod UnderWay
pub mod Keeping
pub mod Faults
pub mod Ends
mod Tests
use conntracct.Prelude.{
  ℕ, zero, suc, ◌+◌, ◌≡◌, Bool, true, false, List, [], ◌∷◌, ◌++◌, Option, none, some, replicate,
  if◌then◌else◌,
}
use conntracct.Prelude.Int.{int64, pos_part}
use conntracct.Text.{Text, codes, text_eq}

abbrev pub ping : Text
ping = codes "ping"

abbrev pub pong : Text
pong = codes "pong"

abbrev pub nop : Text
nop = codes "nop"

-- A call of `Ping` or of `Nop`, with its number, a uint.
pub data Call : Type 0 where
  pings nops : ℕ → Call

-- The rounds of the loops, which compare with `int(num)`.
abbrev pub rounds : ℕ → ℕ
rounds num = pos_part (int64 num)

-- The control messages of the calls, `true` for a ping.
abbrev pub controls : List Call → List Bool
controls [] = []
controls (pings n ∷ calls) = replicate (rounds n) true ++ controls calls
controls (nops n ∷ calls) = replicate (rounds n) false ++ controls calls

-- The client's goroutine: at its control channel, about to write after a control message, at the
-- socket, returned, or ended with the process by `log.Fatal`.
pub data Worker : Type 0 where
  idle waiting stopped dead : Worker
  writing : Bool → Worker

-- The caller's end: both open, the control channel closed, and then the connection too.
pub data Line : Type 0 where
  open_line hung_up closed_line : Line

abbrev pub connected : Line → Bool
connected open_line = true
connected hung_up = true
connected closed_line = false

abbrev pub ctrl_closed : Line → Bool
ctrl_closed open_line = false
ctrl_closed hung_up = true
ctrl_closed closed_line = true

-- The caller has still to hand over `pending`, and calls `Close` after that; `written` is what the
-- client has sent, and `answered` counts the answers that it took.
pub record Echo : Type 0 where
  pub pending : List Bool
  pub worker : Worker
  pub line : Line
  pub to_server : List Text
  pub to_client : List Text
  pub serving : Bool
  pub written : List Text
  pub answered : ℕ

-- `Dial` to a server that runs, for a caller with these calls.
abbrev pub dial : List Call → Echo
dial calls = record {
  pending = controls calls;
  worker = idle;
  line = open_line;
  to_server = [];
  to_client = [];
  serving = true;
  written = [];
  answered = 0;
}

abbrev pub packet : Bool → Text
packet true = ping
packet false = nop

-- The writing after a control message; the client then reads only after a ping.
pub write : Bool → Echo → Echo
write c e = record e {
  worker = if c then waiting else idle;
  to_server = e.to_server ++ (packet c ∷ []);
  written = e.written ++ (packet c ∷ []);
}

-- What the client does with an answer.
pub take : Text → Echo → Echo
take p e =
    if text_eq p pong
    then record e { worker = idle; answered = e.answered + 1 }
    else record e { worker = dead }

-- A round of the server on a packet.
pub serve : Text → Echo → Echo
serve p e = if text_eq p ping then record e { to_client = e.to_client ++ (pong ∷ []) } else e

-- One step of the caller with the client, of the client, or of the server. A call of `Close` is the
-- steps `hangs_up` and `closes`. The faults are the last ones: a read that ends in an error, by the
-- deadline or otherwise, a lost packet, a failed write of either side, the closing of the server, and
-- a connection that `Close` takes away from a goroutine which still uses it.
pub data Step (faults : Bool) (e f : Echo) : Type 0 where
  hands :
      (c : Bool) (rest : List Bool)
      → e.worker ≡ idle
      → e.pending ≡ c ∷ rest
      → f ≡ record e { pending = rest; worker = writing c }
      → Step faults e f
  writes :
      (c : Bool) → e.worker ≡ writing c → connected e.line ≡ true → f ≡ write c e → Step faults e f
  hangs_up : e.pending ≡ [] → e.line ≡ open_line → f ≡ record e { line = hung_up } → Step faults e f
  stops :
      e.worker ≡ idle
      → ctrl_closed e.line ≡ true
      → f ≡ record e { worker = stopped }
      → Step faults e f
  closes :
      e.worker ≡ stopped → e.line ≡ hung_up → f ≡ record e { line = closed_line } → Step faults e f
  serves :
      (p : Text) (rest : List Text)
      → e.serving ≡ true
      → e.to_server ≡ p ∷ rest
      → f ≡ serve p (record e { to_server = rest })
      → Step faults e f
  takes :
      (p : Text) (rest : List Text)
      → e.worker ≡ waiting
      → connected e.line ≡ true
      → e.to_client ≡ p ∷ rest
      → f ≡ take p (record e { to_client = rest })
      → Step faults e f
  read_fails : faults ≡ true → e.worker ≡ waiting → f ≡ record e { worker = dead } → Step faults e f
  loses :
      (p : Text) (rest : List Text)
      → faults ≡ true
      → e.to_server ≡ p ∷ rest
      → f ≡ record e { to_server = rest }
      → Step faults e f
  write_fails :
      (c : Bool)
      → faults ≡ true
      → e.worker ≡ writing c
      → f ≡ record e { worker = dead }
      → Step faults e f
  echo_fails :
      (rest : List Text)
      → faults ≡ true
      → e.serving ≡ true
      → e.to_server ≡ ping ∷ rest
      → f ≡ record e { to_server = rest; worker = dead }
      → Step faults e f
  ends_server : faults ≡ true → f ≡ record e { serving = false } → Step faults e f
  cuts_off :
      faults ≡ true → e.line ≡ hung_up → f ≡ record e { line = closed_line } → Step faults e f

-- Runs, with the number of their steps.
pub data Run (faults : Bool) (e : Echo) : ℕ → Echo → Type 0 where
  start : (f : Echo) → f ≡ e → Run faults e zero f
  next : (n : ℕ) (f g : Echo) → Run faults e n f → Step faults f g → Run faults e (suc n) g
