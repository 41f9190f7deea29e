-- ===== src/Service/InOrder/Events.antt =====
-- services/collector/monitor.c: the statuses and the events that the monitor layer passes on.
use cbtf_krell.Prelude.{Bool, true, not, ◌&&◌, ◌||◌, [], refl, arith, if◌then◌else◌}
use cbtf_krell.Monitor.Types.{
  Status, Event, is_paused, is_resumed, mpi_pre_init, mpi_init, mpi_post_comm_rank, mpi_fini,
  mpi_post_fini, init_thread, mpi_pcontrol, post_fork, default_event,
}
use cbtf_krell.Service.Types.{Setup, State, Env, Effect}
use cbtf_krell.Service.Control.{
  ◌then_do◌, service_sampling_control, connect_to_mrnet, send_attached_to_threads_message,
}
use cbtf_krell.Service.Sampling.{set_connected_to_mrnet}
use cbtf_krell.Service.Offline.{
  offline_sampling_status, offline_notify_event, connect_mpi, pause_only, pause_or_resume,
  at_mpi_init, if_started, has_rank, at_comm_rank, is_mpi, is_connected, with_mpi_init_done,
}
use cbtf_krell.Service.InOrder.{Orders, Orders-then_do, Orders-if, Orders-nothing}

pub notify-Orders : (u : Setup) (env : Env) (e : Event) → Orders (offline_notify_event u env e)
unfolding offline_notify_event
notify-Orders u env e k s a = ground (arith, a.linked, a.told)

pub send_attached-Orders : (u : Setup) (env : Env) → Orders (send_attached_to_threads_message u env)
unfolding send_attached_to_threads_message
send_attached-Orders u env k s a = ground (arith, a.linked, a.told)

pub control-Orders : (v : Status) → Orders (service_sampling_control v)
unfolding service_sampling_control
control-Orders v k s a = ground (arith, a.linked, a.told)

pub connect_to_mrnet-Orders : (u : Setup) (env : Env) → Orders (connect_to_mrnet u env)
unfolding connect_to_mrnet
connect_to_mrnet-Orders u env k s a = ground (arith, a.linked, a.told)

pub connect_mpi-Orders : (u : Setup) (env : Env) → Orders (connect_mpi u env)
unfolding connect_mpi
connect_mpi-Orders u env =
    let tell : State → Effect =
      λ t. send_attached_to_threads_message u env (set_connected_to_mrnet true t) in
    Orders-if (λ _. is_mpi u.build) (λ s. connect_to_mrnet u env s then_do tell) (λ s. (s, []))
      (Orders-then_do (connect_to_mrnet u env) tell (connect_to_mrnet-Orders u env) (
        Orders-then_do (λ t. (set_connected_to_mrnet true t, []))
          (send_attached_to_threads_message u env)
          (λ k s a. record { order = refl; knows = record { linked = a.linked; told = a.told } })
          (send_attached-Orders u env)))
      Orders-nothing

-- A status that is passed on under one of two conditions.
pub choice-Orders :
    (b c : State → Bool) (v w : Status)
    → Orders (λ s.
      if b s
      then service_sampling_control v s
      else if c s
      then service_sampling_control w s
      else (s, []))
choice-Orders b c v w =
    Orders-if b (service_sampling_control v)
      (λ s. if c s then service_sampling_control w s else (s, [])) (control-Orders v)
      (Orders-if c (service_sampling_control w) (λ s. (s, [])) (control-Orders w) Orders-nothing)

pub pause_only-Orders : (v : Status) → Orders (pause_only v)
unfolding pause_only
pause_only-Orders v =
    choice-Orders (λ s. is_paused v && s.offline.started) (λ s. is_paused v && s.offline.started)
      Status.paused Status.resumed

pub pause_or_resume-Orders : (v : Status) → Orders (pause_or_resume v)
unfolding pause_or_resume
pause_or_resume-Orders v =
    choice-Orders (λ s. is_paused v && s.offline.started) (λ s. is_resumed v && s.offline.started)
      Status.paused Status.resumed

pub at_mpi_init-Orders : (v : Status) → Orders (at_mpi_init v)
unfolding service_sampling_control
at_mpi_init-Orders v =
    let resume : State → Effect =
      λ s. service_sampling_control Status.resumed (with_mpi_init_done true s) in
    Orders-if (λ s. is_paused v && s.offline.started) (service_sampling_control Status.paused)
      (λ s. if is_resumed v && s.offline.started then resume s else (s, []))
      (control-Orders Status.paused)
      (Orders-if (λ s. is_resumed v && s.offline.started) resume (λ s. (s, []))
        (Orders-then_do (λ s. (with_mpi_init_done true s, []))
          (service_sampling_control Status.resumed)
          (λ k s a. record { order = refl; knows = record { linked = a.linked; told = a.told } })
          (control-Orders Status.resumed))
        Orders-nothing)

pub if_started-Orders : (v : Status) → Orders (if_started v)
unfolding service_sampling_control
if_started-Orders v =
    Orders-if (λ s. s.offline.started) (service_sampling_control v) (λ s. (s, []))
      (control-Orders v) Orders-nothing

pub at_comm_rank-Orders : (u : Setup) (env : Env) → Orders (at_comm_rank u env)
unfolding connect_mpi service_sampling_control
at_comm_rank-Orders u env =
    Orders-if (λ s. not (is_connected u s) && (has_rank env || s.process.mpi_init_done))
      (λ s. if_started Status.paused s then_do connect_mpi u env then_do if_started Status.resumed)
      (λ s. (s, []))
      (Orders-then_do (λ s. if_started Status.paused s then_do connect_mpi u env)
        (if_started Status.resumed)
        (Orders-then_do (if_started Status.paused) (connect_mpi u env)
          (if_started-Orders Status.paused) (connect_mpi-Orders u env))
        (if_started-Orders Status.resumed))
      Orders-nothing

pub status-Orders :
    (u : Setup) (env : Env) (e : Event) (v : Status) → Orders (offline_sampling_status u env e v)
unfolding offline_sampling_status
status-Orders u env mpi_pre_init v = pause_or_resume-Orders v
status-Orders u env mpi_init v = at_mpi_init-Orders v
status-Orders u env mpi_post_comm_rank v = at_comm_rank-Orders u env
status-Orders u env mpi_fini v = pause_only-Orders v
status-Orders u env mpi_post_fini v = pause_only-Orders v
status-Orders u env init_thread v = pause_only-Orders v
status-Orders u env mpi_pcontrol v = pause_only-Orders v
status-Orders u env post_fork v = pause_only-Orders v
status-Orders u env default_event v = pause_only-Orders v
status-Orders u env _ v = Orders-nothing
