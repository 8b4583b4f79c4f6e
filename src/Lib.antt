-- ===== src/Lib.antt =====
-- Conntracct: a model of the Go program that reads connection-tracking events from a BPF program in
-- the kernel and hands them to sinks.
--
-- The parts, and how they interact. `pkg/bpf` loads a BPF program, reads the records that it
-- writes into two perf maps, decodes each into an Event, and sends it to every registered consumer
-- that wants its kind. `internal/pipeline` registers two consumers of its own, one for updates and
-- one for destroys, and runs a worker for each, which pushes every event into every registered sink
-- that wants it. `internal/sinks` makes sinks from the configuration: stdout and stderr print, the
-- two Influx types batch points for a client, dummy only counts. `pkg/kallsyms` parses the
-- kernel's symbols. `cmd` finds the configuration, makes the sinks and runs the pipeline with its API;
-- the targets of mage fetch kernels and compile the BPF programs; `pkg/udpecho` makes the traffic
-- of the integration tests.
--
-- Which file models which part:
--   Prelude           shared names; Prelude/Panic: results of code that may panic or wait for ever;
--                     Prelude/Words: unsigned words with their wrap-around; Prelude/Int: int64
--   Chan              Go channels as a buffer with a capacity that may be closed
--   Text              strings as bytes: strings.Split, TrimSuffix, TrimRight, Replace,
--                     strconv.FormatUint; Text/Decimal: strconv.Atoi
--   Kernel            pkg/kernel/kernel.go and helper.go (names and paths, Fetch, Configure);
--                     Kernel/Table: builds.go and directory.go; Kernel/Disk: a disk to test on
--   Kallsyms          pkg/kallsyms/kallsyms.go (Refresh, Get, Find)
--   Bpf/Event         pkg/bpf/event.go (UnmarshalBinary, isIPv4); Bpf/Event/Layout is the C layout of
--                     struct acct_event_t in bpf/acct.c, against which the decoding is held
--   Bpf/Stats         pkg/bpf/consumer_stats.go, pkg/bpf/probe_stats.go
--   Bpf/Consumer      pkg/bpf/consumer.go (NewConsumer, RegisterConsumer, RemoveConsumer, GetConsumer)
--   Bpf/Probe         pkg/bpf/probe.go (Start, Stop, perfWorker, lostWorker, fanoutEvent, sendError)
--   Bpf/Config        pkg/bpf/config.go (configureProbe)
--   Bpf/Helper        pkg/bpf/helper.go (kernelRelease, checkProbeKsyms)
--   Bpf/Selector      pkg/bpf/selector.go (findProbe, findRange)
--   Bpf/Loading       pkg/bpf/selector.go (Select), pkg/bpf/probe.go (NewProbe)
--   Sinks/Types       internal/sinks/types (SinkConfig, SinkStats, SinkType, the decode hook,
--                     DecodeSinkConfigMap; Sinks/Types/Decoding: the order of the map)
--   Sinks/Dummy       internal/sinks/dummy/dummy.go
--   Sinks/Stdout      internal/sinks/stdout (Init, Push, outWorker); Sinks/Stdout/Opening: how Init
--                     ends, Sinks/Stdout/Ledger: what becomes of the events
--   Sinks/Influx      internal/sinks/influxdb and internal/sinks/helpers (Push, sendWorker,
--                     tickWorker, newBatch); Sinks/Influx/Setup: Init
--   Sinks/Sink        internal/sinks/sinks.go (the interface Sink, New); Direct and Steady: what the
--                     sinks promise the running program
--   Pipeline          internal/pipeline (Init, Start, Stop, RegisterSink)
--   System            the perf worker, the two workers of internal/pipeline/acct.go and the goroutines
--                     of the sinks together, each receive and each push a step; Histories is what a
--                     sink goes through and what it promises, Simulation and Projection relate a
--                     run to the ledgers of Bpf/Probe/Ledger, Steps keeps an invariant of the
--                     whole program, Delivery follows a record from the kernel to the sinks
--   GoMap             Go maps, which Boottime, Api and Cmd/Root use
--   Boottime          pkg/boottime/boottime.go (Estimate)
--   Api               internal/apiserver (Init, Run, HandleStats); Pipeline/Snapshot: GetSinks,
--                     ProbeStats and Stats of internal/pipeline; Pipeline/Warnings: warnSysctl
--   Cmd               cmd/config.go (initRegisterSinks); Cmd/Root: cmd/root.go (initConfig, Execute,
--                     rootPreRun) and cfgDefaults of cmd/config.go, with what viper promises in
--                     Cmd/Root/Documented and what follows in Cmd/Root/Search; Cmd/Run:
--                     cmd/run.go (run) with internal/pprof, Cmd/Run/Stages and Cmd/Run/Serving
--                     its outcomes
--   Sysctl            internal/sysctl/sysctl.go (Apply), pkg/bpf/sysctl.go (Sysctls)
--   UdpEcho           pkg/udpecho/client.go and server.go; UdpEcho/UnderWay: what is under way between
--                     the two goroutines, UdpEcho/Keeping: that a step keeps it, UdpEcho/Faults: what
--                     holds under faults, UdpEcho/Ends: how a run ends
--   Mage              Mage/Bpf: magefile-bpf.go (Clean, Build, Kernels, buildProbe), with Fetching,
--                     Complete and Sources on the goroutines of Kernels, and Documented and Fresh on
--                     Build; Mage/App: magefile.go; Mage/Integration: magefile-integration.go
--
-- State and concurrency. A struct is a record, and an operation takes the record and returns the
-- new one. An operation under a mutex, and one operation on a channel, is one step; goroutines
-- are sequences of such steps, and a theorem over a list of steps speaks of every interleaving.
-- A send that blocks with a lock held is a state of its own (`waiting` of the Influx sink).
--
-- Bounds and fuel. Counters and fields are natural numbers with `% 2 ^ w` where Go wraps around.
-- The one function on fuel writes the digits of a uint64: 64 rounds are enough for base 2 and
-- above. Every other function is structurally recursive; a worker runs over the list of what it
-- receives.
--
-- Not modelled: the loading of ELF modules, the BPF syscalls, the reading of files, viper, cobra and the
-- external commands (parameters, with what they answer as arguments); log output; time-outs of the
-- timers (a tick, or a read deadline, is a step that may happen at any time); the HTTP listeners and
-- the opening of sockets; the declarations of the commands and flags; main.go, which calls
-- cmd.Execute; and the C program.
mod Prelude
pub mod Chan
pub mod Text
pub mod Kernel
pub mod Kallsyms
pub mod Bpf
pub mod Sinks
pub mod Pipeline
pub mod GoMap
pub mod Boottime
pub mod Api
pub mod System
pub mod Cmd
pub mod Sysctl
pub mod UdpEcho
pub mod Mage
