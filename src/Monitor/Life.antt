-- ===== src/Monitor/Life.antt =====
-- services/src/monitor/Monitor.c: the callbacks at the start and the end of a process and of a
-- thread. The thread-local record is `the_tls` (the build without USE_EXPLICIT_TLS), so it is never
-- a null pointer.
use cbtf_krell.Prelude.{◌+◌, Bool, true, false, not, ◌&&◌, ◌||◌, List, [], ◌∷◌, ltb, if◌then◌else◌}
use cbtf_krell.Monitor.Types.{
  Tls, State, Call, Env, Effect, MonitorType, is_finished, is_not_started, init_process,
  fini_process, init_thread, fini_thread,
}
use cbtf_krell.Monitor.Types

abbrev pub pcontrol_set : Env → Bool
pcontrol_set e = e.openss_enable_mpi_pcontrol || e.cbtf_enable_mpi_pcontrol

abbrev pub start_set : Env → Bool
start_set e = e.openss_start_enabled || e.cbtf_start_enabled

-- The two branches of `if (how == MONITOR_EXIT_EXEC)` are the same, so `how` is left out.
-- `raise(SIGSEGV)` ends the process: nothing after it is done.
unfoldable pub monitor_fini_process : State → Effect
monitor_fini_process s =
    if is_finished s.tls.sampling_status
    then (s, [])
    else if is_not_started s.tls.sampling_status
    then (s, [])
    else if ltb 0 s.globals.fini_process_count
    then (s, Call.raise_segv ∷ [])
    else (
      record {
        tls = record s.tls {
          sampling_status = Types.Status.finished;
          process_is_terminating = true;
        };
        globals = record s.globals { fini_process_count = s.globals.fini_process_count + 1 };
      },
      Call.stop_sampling true ∷ Call.notify_event fini_process ∷ [],
    )

-- The part of `monitor_init_process` and of `monitor_init_thread` from the reading of the
-- environment on: the collector is started, and paused at once if the program has MPI_Pcontrol in
-- charge and does not start enabled.
unfoldable pub begin_sampling : Env → Types.Event → MonitorType → Tls → Tls × List Call
begin_sampling env ev kind t =
    let running = record t {
      monitor_type = kind;
      mpi_pcontrol = pcontrol_set env;
      start_enabled = start_set env;
      collector_started = true;
      sampling_status = Types.Status.started;
    } in
    if pcontrol_set env && not (start_set env)
    then (
      record running { sampling_status = Types.Status.paused },
      Call.start_sampling
          ∷ Call.notify_event ev
          ∷ Call.sampling_control ev Types.Status.paused
          ∷ [],
    )
    else (running, Call.start_sampling ∷ Call.notify_event ev ∷ [])

abbrev pub reset_process_tls : Tls → Tls
reset_process_tls t = record t {
  dllist = [];
  dllist_curr = 0;
  collector_started = false;
  in_mpi_pre_init = false;
}

-- `in_mpi_pre_init` has just been cleared, so the guard reads the process-wide flag alone.
unfoldable pub monitor_init_process : Env → State → Effect
unfolding begin_sampling
monitor_init_process env s =
    let t = reset_process_tls s.tls in
    if s.globals.in_mpi_startup || t.in_mpi_pre_init
    then (
      record s { tls = record t { sampling_status = Types.Status.not_started } },
      Call.sampling_control init_process Types.Status.not_started ∷ [],
    )
    else (let (t', calls) = begin_sampling env init_process MonitorType.proc t in
        (record s { tls = t' }, calls))

unfoldable pub monitor_fini_library : State → Effect
monitor_fini_library s = if ltb 0 s.globals.fini_library_count then (s, Call.raise_segv ∷ []) else (
  record s { globals = record s.globals { fini_library_count = s.globals.fini_library_count + 1 } },
  [],
)

unfoldable pub monitor_fini_thread : State → Effect
monitor_fini_thread s = if not s.tls.collector_started then (s, []) else (
  record s {
    tls = record s.tls { sampling_status = Types.Status.finished; thread_is_terminating = true };
  },
  Call.stop_sampling true ∷ Call.notify_event fini_thread ∷ [],
)

unfoldable pub monitor_init_thread : Env → State → Effect
unfolding begin_sampling
monitor_init_thread env s =
    let t = reset_process_tls s.tls in
    let (t', calls) = begin_sampling env init_thread MonitorType.thread t in
    (record s { tls = t' }, calls)
