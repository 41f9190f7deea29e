-- ===== src/Service/Followed/Events.antt =====
-- services/collector/monitor.c: the statuses and the events that the monitor layer passes on.
use cbtf_krell.Prelude.{Bool, true, not, ◌&&◌, ◌||◌, [], ◌≡◌, refl, arith, if◌then◌else◌}
use cbtf_krell.Monitor.Types.{
  Status, Event, is_paused, is_resumed, mpi_pre_init, mpi_init, mpi_post_comm_rank, mpi_fini,
  mpi_post_fini, init_thread, mpi_pcontrol, post_fork, default_event,
}
use cbtf_krell.Service.Types.{Setup, State, Env, Effect}
use cbtf_krell.Service.Control.{
  ◌then_do◌, service_sampling_control, connect_to_mrnet, send_attached_to_threads_message,
}
use cbtf_krell.Service.Sampling.{set_connected_to_mrnet}
use cbtf_krell.Service.Offline.{
  offline_sampling_status, offline_notify_event, connect_mpi, pause_only, pause_or_resume,
  at_mpi_init, if_started, has_rank, at_comm_rank, is_mpi, is_connected, with_mpi_init_done,
}
use cbtf_krell.Service.Followed.{Follows, Follows-then_do, Follows-if, Follows-nothing}

pub send_attached-Follows :
    (u : Setup) (env : Env) → Follows (send_attached_to_threads_message u env)
unfolding send_attached_to_threads_message
send_attached-Follows u env d s a = ground arith

pub notify-Follows : (u : Setup) (env : Env) (e : Event) → Follows (offline_notify_event u env e)
unfolding offline_notify_event
notify-Follows u env e d s a = ground arith

-- A pause or a resumption.
abbrev pub switches : Status → Bool
switches v = is_paused v || is_resumed v

pub control-Follows : (v : Status) → switches v ≡ true → Follows (service_sampling_control v)
unfolding service_sampling_control
control-Follows v h d s a = ground arith

pub connect_to_mrnet-Follows : (u : Setup) (env : Env) → Follows (connect_to_mrnet u env)
unfolding connect_to_mrnet
connect_to_mrnet-Follows u env d s a = ground arith

pub connect_mpi-Follows : (u : Setup) (env : Env) → Follows (connect_mpi u env)
unfolding connect_mpi
connect_mpi-Follows u env =
    let tell : State → Effect =
      λ t. send_attached_to_threads_message u env (set_connected_to_mrnet true t) in
    Follows-if (λ _. is_mpi u.build) (λ s. connect_to_mrnet u env s then_do tell) (λ s. (s, []))
      (Follows-then_do (connect_to_mrnet u env) tell (connect_to_mrnet-Follows u env) (
        Follows-then_do (λ t. (set_connected_to_mrnet true t, []))
          (send_attached_to_threads_message u env) (λ d s a. a) (send_attached-Follows u env)))
      Follows-nothing

-- A status that is passed on under one of two conditions.
pub choice-Follows :
    (b c : State → Bool) (v w : Status)
    → switches v ≡ true
    → switches w ≡ true
    → Follows (λ s.
      if b s
      then service_sampling_control v s
      else if c s
      then service_sampling_control w s
      else (s, []))
choice-Follows b c v w h k =
    Follows-if b (service_sampling_control v)
      (λ s. if c s then service_sampling_control w s else (s, [])) (control-Follows v h)
      (Follows-if c (service_sampling_control w) (λ s. (s, [])) (control-Follows w k)
        Follows-nothing)

pub pause_only-Follows : (v : Status) → Follows (pause_only v)
unfolding pause_only
pause_only-Follows v =
    choice-Follows (λ s. is_paused v && s.offline.started) (λ s. is_paused v && s.offline.started)
      Status.paused Status.resumed refl refl

pub pause_or_resume-Follows : (v : Status) → Follows (pause_or_resume v)
unfolding pause_or_resume
pause_or_resume-Follows v =
    choice-Follows (λ s. is_paused v && s.offline.started) (λ s. is_resumed v && s.offline.started)
      Status.paused Status.resumed refl refl

pub at_mpi_init-Follows : (v : Status) → Follows (at_mpi_init v)
unfolding service_sampling_control
at_mpi_init-Follows v =
    let resume : State → Effect =
      λ s. service_sampling_control Status.resumed (with_mpi_init_done true s) in
    Follows-if (λ s. is_paused v && s.offline.started) (service_sampling_control Status.paused)
      (λ s. if is_resumed v && s.offline.started then resume s else (s, []))
      (control-Follows Status.paused refl)
      (Follows-if (λ s. is_resumed v && s.offline.started) resume (λ s. (s, []))
        (Follows-then_do (λ s. (with_mpi_init_done true s, []))
          (service_sampling_control Status.resumed) (λ d s a. a)
          (control-Follows Status.resumed refl))
        Follows-nothing)

pub if_started-Follows : (v : Status) → switches v ≡ true → Follows (if_started v)
unfolding service_sampling_control
if_started-Follows v h =
    Follows-if (λ s. s.offline.started) (service_sampling_control v) (λ s. (s, []))
      (control-Follows v h) Follows-nothing

pub at_comm_rank-Follows : (u : Setup) (env : Env) → Follows (at_comm_rank u env)
unfolding connect_mpi service_sampling_control
at_comm_rank-Follows u env =
    Follows-if (λ s. not (is_connected u s) && (has_rank env || s.process.mpi_init_done))
      (λ s. if_started Status.paused s then_do connect_mpi u env then_do if_started Status.resumed)
      (λ s. (s, []))
      (Follows-then_do (λ s. if_started Status.paused s then_do connect_mpi u env)
        (if_started Status.resumed)
        (Follows-then_do (if_started Status.paused) (connect_mpi u env)
          (if_started-Follows Status.paused refl) (connect_mpi-Follows u env))
        (if_started-Follows Status.resumed refl))
      Follows-nothing

pub status-Follows :
    (u : Setup) (env : Env) (e : Event) (v : Status) → Follows (offline_sampling_status u env e v)
unfolding offline_sampling_status
status-Follows u env mpi_pre_init v = pause_or_resume-Follows v
status-Follows u env mpi_init v = at_mpi_init-Follows v
status-Follows u env mpi_post_comm_rank v = at_comm_rank-Follows u env
status-Follows u env mpi_fini v = pause_only-Follows v
status-Follows u env mpi_post_fini v = pause_only-Follows v
status-Follows u env init_thread v = pause_only-Follows v
status-Follows u env mpi_pcontrol v = pause_only-Follows v
status-Follows u env post_fork v = pause_only-Follows v
status-Follows u env default_event v = pause_only-Follows v
status-Follows u env _ v = Follows-nothing
