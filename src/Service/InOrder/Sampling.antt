-- ===== src/Service/InOrder/Sampling.antt =====
-- services/collector/collector.c: sending, and the start and the stop of a thread's collection.
use cbtf_krell.Prelude.{
  Bool, true, not, ◌&&◌, [], ◌∷◌, ◌≡◌, refl, ◌∙◌, arith, Bool-cases, inl, inr, if◌then◌else◌,
}
use cbtf_krell.Monitor.Types.{Status}
use cbtf_krell.Service.Types.{Setup, State, Env, Effect, collector_stop, uses_mrnet}
use cbtf_krell.Service.Control.{
  ◌then_do◌, with_status, send_thread_state_changed_message, collector_send,
}
use cbtf_krell.Service.Dsos.{record_objects}
use cbtf_krell.Service.Quiet.{record_objects-Quiet}
use cbtf_krell.Service.Sampling.{
  leave_mrnet, count_down, finish_mrnet, offline_finish, stop_collector, service_stop_sampling,
}
use cbtf_krell.Service.Offline.{offline_start_sampling, offline_stop_sampling}
use cbtf_krell.Service.InOrder.{
  Seen, Knows, Ordered, Orders, Ordered-then_do, Orders-then_do, Orders-if, Orders-nothing,
  Orders-Quiet,
}

pub collector_send-Orders : (u : Setup) (env : Env) → Orders (collector_send u env)
unfolding collector_send
collector_send-Orders u env k s a = ground (arith, a.linked, a.told)

pub start-Orders : (u : Setup) (env : Env) → Orders (offline_start_sampling u env)
unfolding offline_start_sampling
start-Orders u env k s a = ground (arith, a.linked, a.told)

pub state_changed-Ordered :
    (u : Setup) (k : Seen) (s : State)
    → Knows k s
    → s.thread.sent_attached_to_threads ≡ true
    → Ordered k (send_thread_state_changed_message u s)
unfolding send_thread_state_changed_message
state_changed-Ordered u k s a e = ground (arith, a.linked, a.told)

-- Recording the objects and the message of the changed state, of a thread that is attached.
pub leave_mrnet-Orders : (u : Setup) (env : Env) → Orders (leave_mrnet u env)
unfolding leave_mrnet
leave_mrnet-Orders u env k s a = elim (Bool-cases s.thread.sent_attached_to_threads) [
  | inr unattached ↦ simp unattached (record { order = refl; knows = a })
  | inl attached ↦
      let one = Orders-Quiet (record_objects u env) (record_objects-Quiet u env) k s a in
      let still = (record_objects-Quiet u env s).told ∙ attached in
      simp attached (
        Ordered-then_do k (record_objects u env s) (send_thread_state_changed_message u) one
          (state_changed-Ordered u _ _ one.knows still))
]

pub count_down-Orders : Orders count_down
unfolding count_down
count_down-Orders k s a = ground (arith, a.linked, a.told)

pub finish_mrnet-Orders : (u : Setup) (env : Env) → Orders (finish_mrnet u env)
unfolding finish_mrnet
finish_mrnet-Orders u env =
    Orders-then_do (leave_mrnet u env) count_down (leave_mrnet-Orders u env) count_down-Orders

pub offline_finish-Orders : (u : Setup) (env : Env) → Orders (offline_finish u env)
unfolding offline_finish
offline_finish-Orders u env =
    Orders-if (λ s. not s.offline.started) (λ s. (s, [])) (record_objects u env) Orders-nothing
      (Orders-Quiet (record_objects u env) (record_objects-Quiet u env))

pub stop_collector-Orders : (u : Setup) (env : Env) → Orders (stop_collector u env)
unfolding collector_send
stop_collector-Orders u env =
    Orders-then_do (λ s. (s, collector_stop ∷ []))
      (λ t. if env.unsent then collector_send u env t else (t, []))
      (λ k s a. record { order = refl; knows = a })
      (Orders-if (λ _. env.unsent) (collector_send u env) (λ t. (t, []))
        (collector_send-Orders u env) Orders-nothing)

pub service_stop-Orders : (u : Setup) (env : Env) → Orders (service_stop_sampling u env)
unfolding service_stop_sampling
service_stop-Orders u env =
    let finished : State → Effect = λ t. (with_status Status.finished t, []) in
    let finish : State → Effect =
      λ t. if uses_mrnet u.build then finish_mrnet u env t else offline_finish u env t in
    Orders-if (λ s. s.thread.has_ompt && not s.thread.ompt_thread_finished) (λ s. (s, []))
      (λ s. stop_collector u env s then_do finished then_do finish) Orders-nothing
      (Orders-then_do (λ s. stop_collector u env s then_do finished) finish
        (Orders-then_do (stop_collector u env) finished (stop_collector-Orders u env)
          (λ k s a. record { order = refl; knows = record { linked = a.linked; told = a.told } }))
        (Orders-if (λ _. uses_mrnet u.build) (finish_mrnet u env) (offline_finish u env)
          (finish_mrnet-Orders u env) (offline_finish-Orders u env)))

pub stop-Orders : (u : Setup) (env : Env) (b : Bool) → Orders (offline_stop_sampling u env b)
unfolding offline_stop_sampling
stop-Orders u env b =
    let done : State → Effect =
      λ t. (record t { offline = record t.offline { finished = b } }, []) in
    Orders-if (λ s. not s.offline.started) (λ s. (s, []))
      (λ s. service_stop_sampling u env s then_do done) Orders-nothing
      (Orders-then_do (service_stop_sampling u env) done (service_stop-Orders u env)
        (λ k s a. record { order = refl; knows = record { linked = a.linked; told = a.told } }))
