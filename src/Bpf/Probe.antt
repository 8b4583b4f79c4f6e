-- ===== src/Bpf/Probe.antt =====
-- pkg/bpf/probe.go: the life of a probe, the worker that decodes and fans out events, and the
-- worker that counts lost ones. What gobpf and the kernel answer to a call is an argument of it.
pub mod Fanout
pub mod Ledger
pub mod Counters
pub mod Lifecycle
mod Tests
use conntracct.Prelude.{
  ℕ, zero, suc, ◌+◌, ◌≡◌, refl, Bool, true, false, not, ◌&&◌, ◌||◌, List, [], ◌∷◌, ◌++◌, Option,
  none, some, String, Go, ok, panic, ◌>>=◌, if◌then◌else◌,
}
use conntracct.Chan.{Chan, nil_chan, make, close, len, Sent, sent, full, closed_chan, try_send}
use conntracct.Bpf.Event.{Event, Bytes, Endian, EventError, zero_event, unmarshal_binary}
use conntracct.Bpf.Stats.{
  ConsumerStats, ProbeStats, zero_probe_stats, get_probe_stats, incr_events_received,
  incr_events_lost, set_queue_length, incr_perf_events_update, incr_perf_events_destroy,
  incr_perf_events_lost,
}
use conntracct.Bpf.Consumer.{Consumer, want_update, want_destroy}

pub data ProbeError : Type 0 where
  probe_started probe_not_started : ProbeError
  enabling_kprobe : String → ProbeError
  init_perf_map_failed : String → String → ProbeError
  module_close : String → ProbeError
  unmarshaling : EventError → ProbeError

-- What gobpf answers: `none` is a nil error.
pub record Module : Type 0 where
  pub enable_kprobe : String → Option String
  pub init_perf_map : String → Option String

abbrev pub perf_update_map : String
perf_update_map = "perf_acct_update"

abbrev pub perf_destroy_map : String
perf_destroy_map = "perf_acct_end"

-- `enabled`, `workers` and `reported` record effects: the kprobes attached, whether the goroutines
-- run, and what was received from the error channel.
pub record Probe : Type 0 where
  pub kernel_probes : List String
  pub consumers : List Consumer
  pub lost_chan : Chan ℕ
  pub perf_update_chan : Chan Bytes
  pub perf_destroy_chan : Chan Bytes
  pub err_chan : Chan ProbeError
  pub started : Bool
  pub stats : ProbeStats
  pub enabled : List String
  pub workers : Bool
  pub reported : List ProbeError

-- What `NewProbe` returns for a kernel with these kprobes.
abbrev pub new_probe : List String → Probe
new_probe probes = record {
  kernel_probes = probes;
  consumers = [];
  lost_chan = nil_chan;
  perf_update_chan = nil_chan;
  perf_destroy_chan = nil_chan;
  err_chan = nil_chan;
  started = false;
  stats = zero_probe_stats;
  enabled = [];
  workers = false;
  reported = [];
}

-- The loop over the kernel's kprobes, with the ones attached so far.
pub enable_kprobes : Module → List String → List String → List String × Option ProbeError
enable_kprobes m [] enabled = (enabled, none)
enable_kprobes m (p ∷ ps) enabled =
    let rest = enable_kprobes m ps (enabled ++ (p ∷ [])) in
    elim (m.enable_kprobe p) [ none ↦ rest | some e ↦ (enabled, some (enabling_kprobe e)) ]

-- `Start` after the kprobes: the channels, the two perf maps, and the workers.
open_maps : Module → Probe → Probe × Option ProbeError
open_maps m p =
    let q = record p {
      perf_update_chan = make 1024;
      perf_destroy_chan = make 1024;
      lost_chan = make 0;
      err_chan = make 0;
    } in
    elim (m.init_perf_map perf_update_map) [
      | some e ↦ (q, some (init_perf_map_failed perf_update_map e))
      | none ↦ elim (m.init_perf_map perf_destroy_map) [
        | some e ↦ (q, some (init_perf_map_failed perf_update_map e))
        | none ↦ (record q { started = true; workers = true }, none)
      ]
    ]

pub start : Module → Probe → Probe × Option ProbeError
unfolding enable_kprobes open_maps
start m p =
    if p.started
    then (p, some probe_started)
    else let (attached, failed) = enable_kprobes m p.kernel_probes p.enabled in
      let q = record p { enabled = attached } in
      elim failed [ some e ↦ (q, some e) | none ↦ open_maps m q ]

close_channels : Probe → Go Probe
close_channels p = close p.lost_chan >>= λ lost. close p.perf_update_chan >>= λ update.
    close p.perf_destroy_chan >>= λ destroy. close p.err_chan >>= λ errors. ok (record p {
      lost_chan = lost;
      perf_update_chan = update;
      perf_destroy_chan = destroy;
      err_chan = errors;
    })

-- `Stop`, where the module's `Close` answers as the first argument says.
pub stop : Option String → Probe → Go (Probe × Option ProbeError)
unfolding close_channels
stop answer p = if not p.started then ok (p, some probe_not_started) else elim answer [
  | some e ↦ ok (p, some (module_close e))
  | none ↦ close_channels p >>= λ q. ok (q, none)
]

-- `sendError` on the unbuffered channel: it is sent if a receiver waits, and dropped otherwise.
pub send_error : Bool → ProbeError → Probe → Go (Probe × Bool)
send_error ready e p =
    if p.err_chan.closed
    then panic
    else if p.err_chan.made && ready
    then ok (record p { reported = p.reported ++ (e ∷ []) }, true)
    else ok (p, false)

unfoldable pub wants : Bool → Consumer → Bool
wants update c = (update && want_update c) || (not update && want_destroy c)

deliver : Sent Event → Consumer → Go Consumer
deliver (sent ch) c =
    ok (record c { events = ch; stats = incr_events_received (set_queue_length c.stats (len ch)) })
deliver full c = ok (record c { stats = incr_events_lost c.stats })
deliver closed_chan c = panic

-- The body of the loop of `fanoutEvent`. Sending and reading the length are one step here.
pub offer : Event → Bool → Consumer → Go Consumer
unfolding deliver wants
offer ae update c = if wants update c then deliver (try_send c.events ae) c else ok c

pub fanout_event : Event → Bool → List Consumer → Go (List Consumer)
fanout_event ae update [] = ok []
fanout_event ae update (c ∷ cs) =
    offer ae update c >>= λ c'. fanout_event ae update cs >>= λ cs'. ok (c' ∷ cs')

-- What the worker's `select` hands over: the channel that was ready, and what it gave (`none` from
-- a closed one). `receiver` says whether somebody waits on the error channel at that moment.
pub record Delivery : Type 0 where
  pub update : Bool
  pub payload : Option Bytes
  pub receiver : Bool

abbrev pub count_delivery : Bool → ProbeStats → ProbeStats
count_delivery true s = incr_perf_events_update s
count_delivery false s = incr_perf_events_destroy s

abbrev report : Option EventError → Bool → Probe → Go (Probe × Bool)
report none ready p = ok (p, false)
report (some e) ready p = send_error ready (unmarshaling e) p

-- One round of `perfWorker`; with `false` the worker returns. An event that could not be decoded is
-- reported, and fanned out all the same.
pub perf_round : Endian → Delivery → Probe → Go (Probe × Bool)
unfolding send_error
perf_round en d p =
    let q = record p { stats = count_delivery d.update p.stats } in
    elim d.payload [
      | none ↦ ok (q, false)
      | some eb ↦
          let (ae, err) = unmarshal_binary en zero_event eb in
          report err d.receiver q >>= λ r. fanout_event ae d.update r.0.consumers >>= λ cs.
          ok (record (r.0) { consumers = cs }, true)
    ]

pub perf_worker : Endian → List Delivery → Probe → Go Probe
perf_worker en [] p = ok p
perf_worker en (d ∷ ds) p =
    perf_round en d p >>= λ r. (elim r.1 [ true ↦ perf_worker en ds r.0 | false ↦ ok r.0 ])

-- `lostWorker` over what its channel gives: `true` a lost message, `false` the closed channel.
pub lost_worker : List Bool → Probe → Probe
lost_worker [] p = p
lost_worker (false ∷ ms) p = p
lost_worker (true ∷ ms) p = lost_worker ms (record p { stats = incr_perf_events_lost p.stats })

-- `ErrChan`.
abbrev pub probe_err_chan : Probe → Chan ProbeError
probe_err_chan p = p.err_chan

-- `Stats`, with nothing written meanwhile.
abbrev pub probe_stats : Probe → ProbeStats
probe_stats p = get_probe_stats (λ _. p.stats)
