-- ===== src/Service/Offline.antt =====
-- services/collector/monitor.c: what the service does for a call of the monitor layer.
use cbtf_krell.Prelude.{Bool, true, false, not, ◌&&◌, ◌||◌, [], none, some, if◌then◌else◌}
use cbtf_krell.Monitor.Types.{
  Status, Event, is_paused, is_resumed, mpi_pre_init, mpi_init, mpi_post_comm_rank, mpi_fini,
  mpi_post_fini, init_process, init_thread, mpi_pcontrol, post_fork, default_event,
}
use cbtf_krell.Service.Types.{Build, uses_mrnet, Setup, State, Env, Effect}
use cbtf_krell.Service.Control.{
  ◌then_do◌, service_sampling_control, connect_to_mrnet, send_attached_to_threads_message,
}
use cbtf_krell.Service.Sampling.{
  set_connected_to_mrnet, service_start_sampling, service_stop_sampling,
}

abbrev pub with_mpi_init_done : Bool → State → State
with_mpi_init_done b s = record s { process = record s.process { mpi_init_done = b } }

-- cbtf_connected_to_mrnet, which is true in the service without MRNet.
abbrev pub is_connected : Setup → State → Bool
is_connected u s = if uses_mrnet u.build then s.process.monitor_connected_to_mrnet else true

abbrev pub is_mpi : Build → Bool
is_mpi Build.mrnet_mpi = true
is_mpi _ = false

-- The connection that two events make in the MPI service. `connect_to_mrnet` returns true there.
unfoldable pub connect_mpi : Setup → Env → State → Effect
unfolding connect_to_mrnet send_attached_to_threads_message
connect_mpi u env s =
    if is_mpi u.build
    then (connect_to_mrnet u env s
        then_do (λ t. send_attached_to_threads_message u env (set_connected_to_mrnet true t)))
    else (s, [])

-- The pattern of most events: both of its conditions ask for a pause, so only a pause is passed on.
unfoldable pub pause_only : Status → State → Effect
unfolding service_sampling_control
pause_only v s =
    if is_paused v && s.offline.started
    then service_sampling_control Status.paused s
    else if is_paused v && s.offline.started
    then service_sampling_control Status.resumed s
    else (s, [])

unfoldable pub pause_or_resume : Status → State → Effect
unfolding service_sampling_control
pause_or_resume v s =
    if is_paused v && s.offline.started
    then service_sampling_control Status.paused s
    else if is_resumed v && s.offline.started
    then service_sampling_control Status.resumed s
    else (s, [])

-- The case of CBTF_Monitor_MPI_init_event.
abbrev pub at_mpi_init : Status → State → Effect
unfolding service_sampling_control
at_mpi_init v s =
    if is_paused v && s.offline.started
    then service_sampling_control Status.paused s
    else if is_resumed v && s.offline.started
    then service_sampling_control Status.resumed (with_mpi_init_done true s)
    else (s, [])

abbrev pub if_started : Status → State → Effect
unfolding service_sampling_control
if_started v s = if s.offline.started then service_sampling_control v s else (s, [])

abbrev pub has_rank : Env → Bool
has_rank env = elim env.rank [ none ↦ false | some _ ↦ true ]

-- The case of CBTF_Monitor_MPI_post_comm_rank_event.
abbrev pub at_comm_rank : Setup → Env → State → Effect
unfolding connect_mpi service_sampling_control
at_comm_rank u env s =
    if not (is_connected u s) && (has_rank env || s.process.mpi_init_done)
    then (if_started Status.paused s then_do connect_mpi u env then_do if_started Status.resumed)
    else (s, [])

-- cbtf_offline_sampling_status
unfoldable pub offline_sampling_status : Setup → Env → Event → Status → State → Effect
unfolding connect_mpi pause_only pause_or_resume service_sampling_control
offline_sampling_status u env mpi_pre_init v s = pause_or_resume v s
offline_sampling_status u env mpi_init v s = at_mpi_init v s
offline_sampling_status u env mpi_post_comm_rank v s = at_comm_rank u env s
offline_sampling_status u env mpi_fini v s = pause_only v s
offline_sampling_status u env mpi_post_fini v s = pause_only v s
offline_sampling_status u env init_thread v s = pause_only v s
offline_sampling_status u env mpi_pcontrol v s = pause_only v s
offline_sampling_status u env post_fork v s = pause_only v s
offline_sampling_status u env default_event v s = pause_only v s
offline_sampling_status u env _ v s = (s, [])

-- cbtf_offline_start_sampling
unfoldable pub offline_start_sampling : Setup → Env → State → Effect
unfolding service_start_sampling
offline_start_sampling u env s =
    service_start_sampling u env (record (with_mpi_init_done false s) {
      offline = record { sent_data = false; finished = false; started = false };
    })
    then_do (λ t. (record t { offline = record t.offline { started = true } }, []))

-- cbtf_offline_stop_sampling
unfoldable pub offline_stop_sampling : Setup → Env → Bool → State → Effect
unfolding service_stop_sampling
offline_stop_sampling u env finished s =
    if not s.offline.started
    then (s, [])
    else (service_stop_sampling u env s
        then_do (λ t. (record t { offline = record t.offline { finished = finished } }, [])))

-- cbtf_offline_notify_event
unfoldable pub offline_notify_event : Setup → Env → Event → State → Effect
unfolding connect_mpi send_attached_to_threads_message
offline_notify_event u env init_process s =
    (if is_mpi u.build then set_connected_to_mrnet false s else s, [])
offline_notify_event u env init_thread s =
    if uses_mrnet u.build && is_connected u s
    then send_attached_to_threads_message u env s
    else (s, [])
offline_notify_event u env mpi_pcontrol s =
    if not (is_connected u s) then connect_mpi u env s else (s, [])
offline_notify_event u env mpi_init s = (with_mpi_init_done true s, [])
offline_notify_event u env _ s = (s, [])
