-- ===== src/Sinks/Stdout/Opening.antt =====
-- How the Init of the stdout sink ends.
use conntracct.Prelude.{ℕ, ◌≡◌, ◌⊎◌, true, none, some, str_eq_iff, ◌≢◌, ◌==◌, arith, if◌then◌else◌}
use conntracct.Chan.{make}
use conntracct.Sinks.Types.{SinkConfig, std_out, std_err, zero_sink_stats}
use conntracct.Sinks.Stdout.{new, init, with_default, empty_sink_name, invalid_sink_type}

-- The buffer that a configuration asks for.
abbrev pub buffer_size : SinkConfig → ℕ
buffer_size sc = if sc.batch_size == 0 then 2048 else sc.batch_size

-- `Init` of a new sink succeeds exactly with a name and the stdout or the stderr type; it then
-- keeps the name, marks the sink as initialized, and opens an empty channel of the batch size (2048
-- if that is 0). Otherwise it names the fault, the empty name first, and leaves the sink as it was.
pub init_outcome :
    (sc : SinkConfig)
    → (sc.name ≡ "" → init sc new ≡ (new, some empty_sink_name))
      × (sc.name ≢ ""
          → sc.sink_type ≢ std_out
          → sc.sink_type ≢ std_err
          → init sc new ≡ (new, some invalid_sink_type))
      × (sc.name ≢ ""
          → (sc.sink_type ≡ std_out) ⊎ (sc.sink_type ≡ std_err)
          → ((init sc new).1 ≡ none)
            × ((init sc new).0.is_init ≡ true)
            × ((init sc new).0.events ≡ make (buffer_size sc))
            × ((init sc new).0.config.name ≡ sc.name)
            × ((init sc new).0.stats ≡ zero_sink_stats))
unfolding init with_default
init_outcome sc = (
  λ h. ground (arith, str_eq_iff sc.name ""),
  λ h a b. ground (arith, str_eq_iff sc.name ""),
  λ h a. ground (arith, str_eq_iff sc.name ""),
)
