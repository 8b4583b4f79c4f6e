-- ===== src/Sinks/Stdout/Tests.antt =====
-- The stdout sink with room for two events.
use conntracct.Prelude.{◌≡◌, refl, true, false, List, [], ◌∷◌, none, ok}
use conntracct.Bpf.Event.{zero_event}
use conntracct.Sinks.Types.{SinkConfig, named, std_out}
use conntracct.Sinks.Stdout.{new, init, with_default}
use conntracct.Sinks.Stdout.Opening.{buffer_size}
use conntracct.Sinks.Stdout.Ledger.{Act, Ledger, Kept, pushes, prints, run, pushed_events, run-init}

abbrev small : SinkConfig
small = record (named "out") { sink_type = std_out; batch_size = 2 }

abbrev three_pushes : List Act
three_pushes =
    pushes zero_event
    ∷ pushes zero_event
    ∷ pushes zero_event
    ∷ prints (record { written = true; flushed = false })
    ∷ []

init-small : (init small new).1 ≡ none
unfolding init with_default
init-small = refl

run-init_example :
    (m : Ledger) × (run three_pushes (record { sink = (init small new).0; log = [] }) ≡ ok m)
    × Kept (buffer_size small) (pushed_events three_pushes) m
run-init_example = run-init small three_pushes init-small
