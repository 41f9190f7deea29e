-- ===== src/Service/Control.antt =====
-- services/collector/collector.c: pausing and resuming, the connection to MRNet, and the messages.
-- The thread-local record is `the_tls`, so it is never a null pointer.
use cbtf_krell.Prelude.{ℕ, Bool, true, false, not, ◌&&◌, [], ◌∷◌, ◌++◌, if◌then◌else◌}
use cbtf_krell.Monitor.Types.{Status, is_paused, is_resumed}
use cbtf_krell.Service.Types.{
  uses_mrnet, Setup, ThreadName, State, Env, Effect, collector_pause, collector_resume,
  mrnet_connect, send_attached, send_state_changed, send_perf_data, write_data,
}

-- One operation after another.
infixl 5 ◌then_do◌
abbrev pub ◌then_do◌ : Effect → (State → Effect) → Effect
r then_do f = let (s', more) = f r.0 in (s', r.1 ++ more)

abbrev pub with_status : Status → State → State
with_status v s = record s { thread = record s.thread { sampling_status = v } }

-- cbtf_offline_service_sampling_control
unfoldable pub service_sampling_control : Status → State → Effect
service_sampling_control v s =
    if is_resumed v && not (is_resumed s.thread.sampling_status)
    then (with_status v s, collector_resume ∷ [])
    else if is_paused v && not (is_paused s.thread.sampling_status)
    then (with_status v s, collector_pause ∷ [])
    else (with_status v s, [])

-- `init_process_thread`, which only the MRNet services have.
unfoldable pub init_process_thread : Setup → Env → State → State
init_process_thread u env s =
    if not (uses_mrnet u.build)
    then s
    else (let name : ThreadName = record s.thread.tname {
      rank = env.rank;
      omp_tid = env.thread_num;
    } in
        record s {
          thread = record s.thread {
            header = record s.thread.header { rank = env.rank; omp_tid = env.thread_num };
            tname = name;
            tgrp = name ∷ [];
            attached = name ∷ [];
          };
        })

abbrev pub mark_attached : State → State
mark_attached s = record s { thread = record s.thread { sent_attached_to_threads = true } }

-- `send_attached_to_threads_message`
unfoldable pub send_attached_to_threads_message : Setup → Env → State → Effect
unfolding init_process_thread service_sampling_control
send_attached_to_threads_message u env s =
    if uses_mrnet u.build && (s.process.connected_to_mrnet && not s.thread.sent_attached_to_threads)
    then (service_sampling_control Status.paused (init_process_thread u env s)
        then_do (λ t. (mark_attached t, send_attached t.thread.attached ∷ []))
        then_do service_sampling_control Status.resumed)
    else (s, [])

-- `connect_to_mrnet`, which returns true in every service. In the service without MRNet it does
-- nothing.
unfoldable pub connect_to_mrnet : Setup → Env → State → Effect
connect_to_mrnet u env s =
    if not (uses_mrnet u.build)
    then (s, [])
    else if s.process.connected_to_mrnet
    then (s, [])
    else (
      record s {
        thread = record s.thread {
          header = record s.thread.header {
            rank = env.rank;
            omp_tid = env.thread_num;
            time_begin = env.now;
          };
        };
        process = record s.process { connected_to_mrnet = true };
      },
      mrnet_connect env.rank ∷ [],
    )

-- `send_thread_state_changed_message`
unfoldable pub send_thread_state_changed_message : Setup → State → Effect
send_thread_state_changed_message u s =
    if uses_mrnet u.build && s.process.connected_to_mrnet
    then (s, send_state_changed s.thread.tgrp ∷ [])
    else (s, [])

-- cbtf_offline_sent_data
abbrev pub offline_sent_data : Bool → State → State
offline_sent_data b s = record s { offline = record s.offline { sent_data = b } }

-- The part of cbtf_collector_send that sends.
abbrev pub send_data : Setup → Env → State → Effect
unfolding send_attached_to_threads_message
send_data u env s =
    if not (uses_mrnet u.build)
    then (s, write_data ∷ [])
    else if s.process.connected_to_mrnet
    then ((if not s.thread.sent_attached_to_threads
          then (send_attached_to_threads_message u env s then_do (λ t. (mark_attached t, [])))
          else (s, []))
        then_do (λ t. (t, send_perf_data ∷ [])))
    else (s, [])

-- cbtf_collector_send
unfoldable pub collector_send : Setup → Env → State → Effect
unfolding send_attached_to_threads_message
collector_send u env s = send_data u env s then_do (λ t. (offline_sent_data true t, []))

-- cbtf_collector_set_openmp_threadid
unfoldable pub set_openmp_threadid : Setup → ℕ → State → State
set_openmp_threadid u tid s = record s {
  thread = record s.thread {
    header = record s.thread.header { omp_tid = tid };
    tname = if uses_mrnet u.build then record s.thread.tname { omp_tid = tid } else s.thread.tname;
    has_ompt = true;
    ompt_thread_finished = false;
  };
}

unfoldable pub set_ompt_flag : Bool → State → State
set_ompt_flag flag s = record s { thread = record s.thread { has_ompt = flag } }

unfoldable pub set_ompt_thread_finished : Bool → State → State
set_ompt_thread_finished flag s = record s {
  thread = record s.thread { ompt_thread_finished = flag };
}
