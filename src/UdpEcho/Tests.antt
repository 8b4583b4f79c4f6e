-- ===== src/UdpEcho/Tests.antt =====
-- Tests and witnesses for UdpEcho.
use conntracct.Text.{text_eq}
use conntracct.Prelude.{◌^◌, ◌≡◌, refl, true, false, List, [], ◌∷◌}
use conntracct.UdpEcho.{
  dead, writing, hung_up, closed_line, Echo, Call, pings, nops, controls, dial, ping, pong, write,
  take, serve, hands, writes, hangs_up, serves, takes, cuts_off, read_fails, Run, start, next,
}
use conntracct.UdpEcho.Ends.{Outcome, run_ends}

-- One ping and one no-op.
abbrev calls : List Call
calls = pings 1 ∷ nops 1 ∷ []

abbrev handed : Echo
handed = record (dial calls) { pending = false ∷ []; worker = writing true }

abbrev asked_once : Echo
asked_once = write true handed

abbrev served : Echo
served = serve ping (record asked_once { to_server = [] })

abbrev answered_once : Echo
answered_once = take pong (record served { to_client = [] })

first_ping : Run false (dial calls) 4 answered_once
unfolding write serve take text_eq
first_ping =
    next 3 served answered_once
      (next 2 asked_once served
        (next 1 handed asked_once
          (next 0 (dial calls) handed (start (dial calls) refl)
            (hands true (false ∷ []) refl refl refl))
          (writes true refl refl refl))
        (serves ping [] refl refl refl))
      (takes pong [] refl refl refl refl)

counts_one_answer : answered_once.answered ≡ 1
unfolding write serve take text_eq
counts_one_answer = refl

-- `int(num)` is negative from 2^63 on.
huge_ping_sends_nothing : controls (pings (2 ^ 63) ∷ []) ≡ []
huge_ping_sends_nothing = refl

run_ends_example : Outcome false (controls calls) 4 answered_once
run_ends_example = run_ends false calls 4 answered_once first_ping

-- `Close` comes right after `Ping`, while the client waits for the answer: its read fails, and
-- `log.Fatal` ends the process.
abbrev sent : Echo
sent = write true (record (dial (pings 1 ∷ [])) { pending = []; worker = writing true })

abbrev hung : Echo
hung = record sent { line = hung_up }

abbrev cut : Echo
cut = record sent { line = closed_line }

close_kills : Run true (dial (pings 1 ∷ [])) 5 (record cut { worker = dead })
unfolding write
close_kills =
    next 4 cut (record cut { worker = dead })
      (next 3 hung cut
        (next 2 sent hung
          (next 1 (record (dial (pings 1 ∷ [])) { pending = []; worker = writing true }) sent
            (next 0 (dial (pings 1 ∷ []))
              (record (dial (pings 1 ∷ [])) { pending = []; worker = writing true })
              (start (dial (pings 1 ∷ [])) refl) (hands true [] refl refl refl))
            (writes true refl refl refl))
          (hangs_up refl refl refl))
        (cuts_off refl refl refl))
      (read_fails refl refl refl)

cut-Safe : Outcome true (controls (pings 1 ∷ [])) 5 (record cut { worker = dead })
cut-Safe = run_ends true (pings 1 ∷ []) 5 (record cut { worker = dead }) close_kills
