-- ===== src/Service/Followed/Sampling.antt =====
-- services/collector/collector.c: sending, and the start and the stop of a thread's collection.
use cbtf_krell.Prelude.{Bool, not, ◌&&◌, [], ◌∷◌, arith, if◌then◌else◌}
use cbtf_krell.Monitor.Types.{Status}
use cbtf_krell.Service.Types.{Setup, State, Env, Effect, collector_stop, uses_mrnet}
use cbtf_krell.Service.Control.{
  ◌then_do◌, with_status, send_thread_state_changed_message, collector_send,
}
use cbtf_krell.Service.Dsos.{record_objects}
use cbtf_krell.Service.Quiet.{record_objects-Quiet}
use cbtf_krell.Service.Sampling.{
  leave_mrnet, count_down, finish_mrnet, offline_finish, stop_collector, service_stop_sampling,
}
use cbtf_krell.Service.Offline.{offline_start_sampling, offline_stop_sampling}
use cbtf_krell.Service.Followed.{
  Follows, Follows-then_do, Follows-Quiet, Follows-if, Follows-nothing,
}

pub collector_send-Follows : (u : Setup) (env : Env) → Follows (collector_send u env)
unfolding collector_send
collector_send-Follows u env d s a = ground arith

pub start-Follows : (u : Setup) (env : Env) → Follows (offline_start_sampling u env)
unfolding offline_start_sampling
start-Follows u env d s a = ground arith

pub state_changed-Follows : (u : Setup) → Follows (send_thread_state_changed_message u)
unfolding send_thread_state_changed_message
state_changed-Follows u d s a = ground arith

pub leave_mrnet-Follows : (u : Setup) (env : Env) → Follows (leave_mrnet u env)
unfolding leave_mrnet
leave_mrnet-Follows u env =
    Follows-if (λ s. s.thread.sent_attached_to_threads)
      (λ s. record_objects u env s then_do send_thread_state_changed_message u) (λ s. (s, []))
      (Follows-then_do (record_objects u env) (send_thread_state_changed_message u)
        (Follows-Quiet (record_objects u env) (record_objects-Quiet u env))
        (state_changed-Follows u))
      Follows-nothing

pub count_down-Follows : Follows count_down
unfolding count_down
count_down-Follows d s a = ground arith

pub finish_mrnet-Follows : (u : Setup) (env : Env) → Follows (finish_mrnet u env)
unfolding finish_mrnet
finish_mrnet-Follows u env =
    Follows-then_do (leave_mrnet u env) count_down (leave_mrnet-Follows u env) count_down-Follows

pub offline_finish-Follows : (u : Setup) (env : Env) → Follows (offline_finish u env)
unfolding offline_finish
offline_finish-Follows u env =
    Follows-if (λ s. not s.offline.started) (λ s. (s, [])) (record_objects u env) Follows-nothing
      (Follows-Quiet (record_objects u env) (record_objects-Quiet u env))

pub stop_collector-Follows : (u : Setup) (env : Env) → Follows (stop_collector u env)
unfolding collector_send
stop_collector-Follows u env =
    Follows-then_do (λ s. (s, collector_stop ∷ []))
      (λ t. if env.unsent then collector_send u env t else (t, [])) (λ d s a. a)
      (Follows-if (λ _. env.unsent) (collector_send u env) (λ t. (t, []))
        (collector_send-Follows u env) Follows-nothing)

pub service_stop-Follows : (u : Setup) (env : Env) → Follows (service_stop_sampling u env)
unfolding service_stop_sampling
service_stop-Follows u env =
    let finished : State → Effect = λ t. (with_status Status.finished t, []) in
    let finish : State → Effect =
      λ t. if uses_mrnet u.build then finish_mrnet u env t else offline_finish u env t in
    Follows-if (λ s. s.thread.has_ompt && not s.thread.ompt_thread_finished) (λ s. (s, []))
      (λ s. stop_collector u env s then_do finished then_do finish) Follows-nothing
      (Follows-then_do (λ s. stop_collector u env s then_do finished) finish
        (Follows-then_do (stop_collector u env) finished (stop_collector-Follows u env)
          (λ d s a e. absurd (ground arith)))
        (Follows-if (λ _. uses_mrnet u.build) (finish_mrnet u env) (offline_finish u env)
          (finish_mrnet-Follows u env) (offline_finish-Follows u env)))

pub stop-Follows : (u : Setup) (env : Env) (b : Bool) → Follows (offline_stop_sampling u env b)
unfolding offline_stop_sampling
stop-Follows u env b =
    let done : State → Effect =
      λ t. (record t { offline = record t.offline { finished = b } }, []) in
    Follows-if (λ s. not s.offline.started) (λ s. (s, []))
      (λ s. service_stop_sampling u env s then_do done) Follows-nothing
      (Follows-then_do (service_stop_sampling u env) done (service_stop-Follows u env) (λ d s a. a))
