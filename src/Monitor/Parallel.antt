-- ===== src/Monitor/Parallel.antt =====
-- services/src/monitor/Monitor.c: the callbacks round fork and the MPI calls.
use cbtf_krell.Prelude.{ℕ, Bool, true, false, not, ◌&&◌, ◌||◌, List, [], ◌∷◌, ◌==◌, if◌then◌else◌}
use cbtf_krell.Monitor.Types.{
  Tls, State, Call, Effect, MonitorType, Status, is_finished, is_started, is_paused, is_not_started,
  pre_fork, post_fork, mpi_pre_init, mpi_init, mpi_fini, mpi_post_fini, mpi_post_comm_rank,
  mpi_pcontrol,
}
use cbtf_krell.Monitor.Objects.{set_status, change_to, is_sampling}

unfoldable pub monitor_pre_fork : State → Effect
monitor_pre_fork s =
    if s.globals.in_mpi_startup || s.tls.in_mpi_pre_init
    then (s, [])
    else if is_paused s.tls.sampling_status || is_started s.tls.sampling_status
    then change_to pre_fork Status.paused s
    else (s, [])

unfoldable pub monitor_post_fork : State → Effect
monitor_post_fork s =
    if s.globals.in_mpi_startup || s.tls.in_mpi_pre_init
    then (s, [])
    else if is_paused s.tls.sampling_status || is_finished s.tls.sampling_status
    then change_to post_fork Status.resumed
        (record s { tls = record s.tls { monitor_type = MonitorType.proc } })
    else (s, [])

unfoldable pub monitor_mpi_pre_init : State → Effect
monitor_mpi_pre_init s =
    let s' : State = record {
      tls = record s.tls { in_mpi_pre_init = true };
      globals = record s.globals { in_mpi_startup = true; init_mpi_comm_rank = false };
    } in
    if is_started s.tls.sampling_status
    then (
      set_status s' Status.paused,
      Call.notify_event mpi_pre_init ∷ Call.sampling_control mpi_pre_init Status.paused ∷ [],
    )
    else (s', Call.notify_event mpi_pre_init ∷ [])

-- `resume_sampling` of `monitor_init_mpi`.
abbrev pub resume_after_init : Tls → Bool
resume_after_init t =
    if is_paused t.sampling_status
    then (if t.mpi_pcontrol && t.start_enabled
        then true
        else if t.mpi_pcontrol && not t.start_enabled
        then false
        else true)
    else false

unfoldable pub monitor_init_mpi : State → Effect
monitor_init_mpi s =
    let s' : State = record {
      tls = record s.tls { in_mpi_pre_init = false };
      globals = record s.globals { in_mpi_startup = false };
    } in
    if resume_after_init s.tls
    then (
      set_status s' Status.resumed,
      Call.notify_event mpi_init ∷ Call.sampling_control mpi_init Status.resumed ∷ [],
    )
    else (s', Call.notify_event mpi_init ∷ [])

unfoldable pub monitor_fini_mpi : State → Effect
monitor_fini_mpi s = (s, Call.notify_event mpi_fini ∷ [])

unfoldable pub monitor_mpi_post_fini : State → Effect
monitor_mpi_post_fini s = (s, Call.notify_event mpi_post_fini ∷ [])

-- All three branches set `resume_sampling`; only the one with MPI_Pcontrol in charge and sampling
-- not enabled at start leaves the status alone.
unfoldable pub monitor_mpi_post_comm_rank : State → Effect
monitor_mpi_post_comm_rank s =
    if s.globals.init_mpi_comm_rank
    then (s, [])
    else (let s' : State = record s { globals = record s.globals { init_mpi_comm_rank = true } } in
        let calls : List Call = Call.sampling_control mpi_post_comm_rank Status.resumed ∷ [] in
        if s.tls.mpi_pcontrol && s.tls.start_enabled
        then (set_status s' Status.resumed, calls)
        else if s.tls.mpi_pcontrol && not s.tls.start_enabled
        then (s', calls)
        else (set_status s' Status.resumed, calls))

abbrev pcontrol_off : State → Effect
pcontrol_off s =
    if is_sampling s.tls.sampling_status && not s.tls.in_mpi_pre_init
    then change_to mpi_pcontrol Status.paused s
    else (s, [])

abbrev pcontrol_on : State → Effect
pcontrol_on s =
    if is_not_started s.tls.sampling_status
    then (
      record s {
        tls = record s.tls { monitor_type = MonitorType.proc; sampling_status = Status.started };
      },
      Call.notify_event mpi_pcontrol ∷ Call.start_sampling ∷ [],
    )
    else if is_paused s.tls.sampling_status && not s.tls.in_mpi_pre_init
    then change_to mpi_pcontrol Status.resumed s
    else (s, [])

-- MPI_Pcontrol(level), where a negative level is given as any number above 1: both are refused.
unfoldable pub monitor_mpi_pcontrol : ℕ → State → Effect
monitor_mpi_pcontrol level s =
    if s.tls.mpi_pcontrol
    then (if level == 0 then pcontrol_off s else if level == 1 then pcontrol_on s else (s, []))
    else (s, [])
