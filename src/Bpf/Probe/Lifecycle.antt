-- ===== src/Bpf/Probe/Lifecycle.antt =====
-- `Start` and `Stop`: when they succeed, and what may follow.
use conntracct.Prelude.{
  ◌≡◌, refl, Bool, true, false, not, ◌&&◌, List, [], ◌∷◌, ◌++◌, Option, none, some, String, ok,
  panic, arith,
}
use mathlib.Core.List.{append_assoc, append-nil}
use conntracct.Chan.{Chan, make}
use conntracct.Bpf.Probe.{
  Module, Probe, ProbeError, probe_started, enable_kprobes, open_maps, start, stop, close_channels,
  perf_update_map, perf_destroy_map,
}

abbrev pub is_none {ℓ} : {A : Type ℓ} → Option A → Bool
is_none none = true
is_none (some a) = false

abbrev pub all_attach : Module → List String → Bool
all_attach m [] = true
all_attach m (p ∷ ps) = is_none (m.enable_kprobe p) && all_attach m ps

-- What must go well for `Start` to.
abbrev pub can_start : Module → Probe → Bool
can_start m p =
    all_attach m p.kernel_probes
    && (is_none (m.init_perf_map perf_update_map) && is_none (m.init_perf_map perf_destroy_map))

-- The probe that `Start` leaves when all goes well.
abbrev pub running : Probe → Probe
running p = record p {
  enabled = p.enabled ++ p.kernel_probes;
  perf_update_chan = make 1024;
  perf_destroy_chan = make 1024;
  lost_chan = make 0;
  err_chan = make 0;
  started = true;
  workers = true;
}

enable_kprobes-all :
    (m : Module) (ps enabled : List String)
    → all_attach m ps ≡ true
    → enable_kprobes m ps enabled ≡ (enabled ++ ps, none)
unfolding enable_kprobes
enable_kprobes-all m [] enabled h = rw append-nil
enable_kprobes-all m (p ∷ ps) enabled h =
    ground (arith, enable_kprobes-all m ps (enabled ++ (p ∷ [])), append_assoc enabled (p ∷ []) ps)

is_none-enable_kprobes :
    (m : Module) (ps enabled : List String)
    → is_none (enable_kprobes m ps enabled).1 ≡ all_attach m ps
unfolding enable_kprobes
is_none-enable_kprobes m [] enabled = refl
is_none-enable_kprobes m (p ∷ ps) enabled =
    ground (arith, is_none-enable_kprobes m ps (enabled ++ (p ∷ [])))

start-running :
    (m : Module) (p : Probe)
    → p.started ≡ false
    → can_start m p ≡ true
    → start m p ≡ (running p, none)
unfolding start open_maps
start-running m p h k = ground (arith, enable_kprobes-all m p.kernel_probes p.enabled)

start-refused :
    (m : Module) (p : Probe)
    → p.started ≡ false
    → can_start m p ≡ false
    → (is_none (start m p).1 ≡ false)
      × ((start m p).0.started ≡ false)
      × ((start m p).0.workers ≡ p.workers)
unfolding start open_maps
start-refused m p h k = ground (arith, is_none-enable_kprobes m p.kernel_probes p.enabled)

-- `Start` on a probe that is not started succeeds exactly if every kprobe of its kernel attaches
-- and both perf maps open. It has then attached the kprobes in the kernel's order, made the
-- channels, and launched the workers; after any error the probe is still not started and no worker
-- runs that did not before. On a started probe it changes nothing and says so.
pub start_outcome :
    (m : Module) (p : Probe)
    → (p.started ≡ true → start m p ≡ (p, some probe_started))
      × (p.started ≡ false → can_start m p ≡ true → start m p ≡ (running p, none))
      × (p.started ≡ false
          → can_start m p ≡ false
          → (is_none (start m p).1 ≡ false)
            × ((start m p).0.started ≡ false)
            × ((start m p).0.workers ≡ p.workers))
start_outcome m p = (unfold start in (λ h. ground arith), start-running m p, start-refused m p)

-- `Stop` leaves the started flag set: after a successful `Start` and `Stop`, the probe refuses to
-- start again as if it were running, and a second `Stop` panics, unless the module's `Close`
-- reports an error then.
pub stop_leaves_started :
    (m m' : Module) (p : Probe)
    → p.started ≡ false
    → can_start m p ≡ true
    → (q : Probe) × (stop none (start m p).0 ≡ ok (q, none))
      × (start m' q ≡ (q, some probe_started))
      × (stop none q ≡ panic)
      × ((e : String) → stop (some e) q ≡ ok (q, some (ProbeError.module_close e)))
unfolding stop close_channels start
stop_leaves_started m m' p h k = rw (start-running m p h k) (
  (record (running p) {
    lost_chan = record (make 0) { closed = true };
    perf_update_chan = record (make 1024) { closed = true };
    perf_destroy_chan = record (make 1024) { closed = true };
    err_chan = record (make 0) { closed = true };
  }),
  refl,
  refl,
  refl,
  λ e. refl,
)

abbrev IsLive : {A : Type 0} → Chan A → Type 0
IsLive c = (c.made && not c.closed) ≡ true

-- The probe is started and its channels are open.
abbrev pub IsUp : Probe → Type 0
IsUp p =
    (p.started ≡ true)
    × IsLive p.lost_chan
    × IsLive p.perf_update_chan
    × IsLive p.perf_destroy_chan
    × IsLive p.err_chan

-- The probe that `Stop` leaves.
abbrev pub stopped : Probe → Probe
stopped p = record p {
  lost_chan = record (p.lost_chan) { closed = true };
  perf_update_chan = record (p.perf_update_chan) { closed = true };
  perf_destroy_chan = record (p.perf_destroy_chan) { closed = true };
  err_chan = record (p.err_chan) { closed = true };
}

pub stop-IsUp :
    (p : Probe)
    → IsUp p
    → (stop none p ≡ ok (stopped p, none))
      × ((e : String) → stop (some e) p ≡ ok (p, some (ProbeError.module_close e)))
unfolding stop close_channels
stop-IsUp p (s, lost, update, destroy, errors) =
    (ground (arith, s, lost, update, destroy, errors), λ e. ground (arith, s))
