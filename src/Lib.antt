-- ===== src/Lib.antt =====
-- A model of the measuring side of cbtf-krell: the C code that runs inside a measured process. It
-- samples or traces the process, buffers what it finds, and sends it to files or to MRNet.
--
-- How the parts interact. libmonitor calls the callbacks of services/src/monitor/Monitor.c when a
-- process or a thread starts or ends, when objects are opened and closed, and round fork and MPI. The
-- callbacks keep a status for each thread and call the service, services/collector/monitor.c (the
-- offline layer) and collector.c, which start, stop, pause and resume one collector and send messages.
-- A sampling collector (core/collectors/pcsamp, usertime, hwc, hwctime and hwcsamp) takes samples when a
-- timer or a hardware counter interrupts the thread, puts them into a buffer (services/src/data has
-- those of pcsamp, hwc and hwcsamp), and hands full buffers back to the service. A tracing collector
-- (core/collectors/io, mem, mpi and pthreads) records the calls that its wrappers report.
--
-- Which module is about which code:
--   Monitor    services/src/monitor/Monitor.c. A callback maps a state (the thread's record and the
--              static variables) to a state and the calls made. Monitor.Step is the whole machine.
--   Service    services/collector/collector.c and monitor.c, in the three builds (files, MRNet, MRNet
--              with MPI). Service.Machine takes the monitor layer's calls and the collector's and
--              an OpenMP tool's requests; what it does to the outside is a list of actions. The
--              functions on the table of linked objects are in Service.Objects, with what becomes
--              of an object in Recorded and Delivered; Service.Dsos has their calls in the machine.
--              Followed and InOrder go through the operations for Agree and Messages, and Quiet
--              through the recording of objects.
--   Tls        services/src/common/TLS.c: getValue, CBTF_GetTLS, CBTF_SetTLS, initialize.
--   Probe, Buckets   the search of a hash table that Tls and PcData share.
--   PcData     services/src/data/UpdatePCData.c and UpdateHWCPCData.c.
--   Header     services/src/data/InitializeDataHeader.c and InitializeEventHeader.c.
--   Pcsamp     core/collectors/pcsamp/collector.c: one function per operation, and Pcsamp.Run with the
--              runs and the independent count of who is charged for a tick.
--   Hwc        core/collectors/hwc/collector.c, which shares the record and the buffer of Pcsamp.
--   Hwcsamp    core/collectors/hwcsamp/collector.c, with the calls of services/src/papi/PapiAPI.c that read
--              counters (Papi): the start (Start), the other operations (Collector), and the runs with the
--              independent sums of samples and counts (Run, Whole).
--   Hwctime    core/collectors/hwctime/collector.c, which shares the record and the stacks of Usertime.
--   Usertime   core/collectors/usertime/collector.c: the operations (Types, Collector), the buffer of
--              stacks (Buffer, Counts, Place), the runs (Run, Conserve).
--   Trace      core/collectors/io, mem, mpi and pthreads, each collector.c, built for traces: what they
--              share (Types, Search, Buffer), the operations of each (Io, Mem, Mpi, Pthreads), the laws
--              that a run rests on (Interface, Laws), runs (Run, Serve, Whole), io's path names (Paths,
--              Full), and mem/wrappers.c with the programs that call the allocator (Wrappers).
--   Timer      services/src/timer/TimerHandler.c: a call of a thread (Handler), and all threads of a
--              process (Threads).
--   Parameters services/src/offline/EncodeParameters.c and DecodeParameters.c.
--   Bst        core/collectors/omptp/bst.c.
--   Prelude    shared names and lemmas on lists, tests and endings.
--
-- Machine integers. Counts of the buffers are bytes (modulo 2^8), lengths modulo 2^16, event counters
-- modulo 2^64, the numbers of threads modulo 2^32. Times, ranks and identifiers are only copied and
-- compared. The arrays are lists of the declared sizes; a read past the end gives 0, and the
-- invariants keep every access in range. Only the comparison of stacks in Usertime may read behind an
-- array: what stands there is an argument.
--
-- Loops. The search of a hash table is given as many steps as the table has buckets. That is enough:
-- a table with a free bucket has one that ends the search, and one round passes every bucket.
--
-- Not modelled. Debug output; the build with USE_EXPLICIT_TLS, in which the thread's record is
-- allocated; what libmonitor, MRNet, PAPI, XDR and the system do, which appear as arguments (what a
-- call returned) or as actions (what was asked of them). The OpenMP collectors, the wrappers of the
-- tracing collectors but those of mem, the transport and the C++ components of the framework are not modelled.
pub mod Prelude
pub mod Bst
pub mod Buckets
pub mod Header
pub mod Hwc
pub mod Hwcsamp
pub mod Hwctime
pub mod Monitor
pub mod Parameters
pub mod PcData
pub mod Pcsamp
pub mod Probe
pub mod Service
pub mod Timer
pub mod Tls
pub mod Trace
pub mod Usertime
