-- ===== src/Service/Sampling.antt =====
-- services/collector/collector.c: the start and the stop of a thread's collection.
use cbtf_krell.Prelude.{
  ◌+◌, ◌-◌, ◌%◌, ◌^◌, Bool, true, false, not, ◌&&◌, [], ◌∷◌, if◌then◌else◌, ◌==◌,
}
use cbtf_krell.Header.{DataHeader, initialize_data_header}
use cbtf_krell.Monitor.Types.{Status}
use cbtf_krell.Service.Types.{
  Build, uses_mrnet, Setup, ThreadName, Thread, State, Env, Effect, collector_start, collector_stop,
  wait_for_shutdown, set_send_to_file,
}
use cbtf_krell.Service.Dsos.{record_objects}
use cbtf_krell.Service.Control.{
  ◌then_do◌, with_status, mark_attached, connect_to_mrnet, send_attached_to_threads_message,
  send_thread_state_changed_message, collector_send,
}

abbrev pub new_header : Env → DataHeader
unfolding initialize_data_header
new_header env = record (initialize_data_header 0 1 env.identity) { id = env.name }

abbrev pub new_name : Env → ThreadName
unfolding initialize_data_header
new_name env = record {
  host = (new_header env).host;
  pid = (new_header env).pid;
  posix_tid = (new_header env).posix_tid;
  rank = (new_header env).rank;
  omp_tid = env.thread_num;
}

-- The first part of cbtf_timer_service_start_sampling: the record of the thread, and, with MRNet, the
-- count of threads and the thread's name.
unfoldable pub start_thread : Setup → Env → State → State
unfolding initialize_data_header
start_thread u env s =
    let t : Thread = record s.thread {
      sampling_status = Status.not_started;
      time_started = env.now;
      header = new_header env;
    } in
    if not (uses_mrnet u.build) then record s { thread = t } else record s {
      thread = record t {
        tname = new_name env;
        tgrp = new_name env ∷ [];
        sent_attached_to_threads = false;
      };
      process = record s.process { num_threads = (s.process.num_threads + 1) % 2 ^ 32 };
    }

abbrev pub with_connection : Bool → State → State
with_connection b s = record s { process = record s.process { connected_to_mrnet = b } }

-- cbtf_set_connected_to_mrnet
abbrev pub set_connected_to_mrnet : Bool → State → State
set_connected_to_mrnet b s = record s {
  process = record s.process { monitor_connected_to_mrnet = b };
}

abbrev pub is_sequential : Build → Bool
is_sequential Build.mrnet = true
is_sequential _ = false

-- A program without MPI connects when its first thread starts.
unfoldable pub connect_first : Setup → Env → State → Effect
unfolding connect_to_mrnet
connect_first u env s =
    if s.process.num_threads == 1
    then (connect_to_mrnet u env (with_connection false s)
        then_do (λ t. (with_connection true t, [])))
    else (s, [])

-- It tells of each thread at once, if it is connected.
unfoldable pub announce : Setup → Env → State → Effect
unfolding send_attached_to_threads_message
announce u env s =
    if not s.process.connected_to_mrnet
    then (s, [])
    else if s.thread.sent_attached_to_threads
    then (set_connected_to_mrnet true s, [])
    else (send_attached_to_threads_message u env (set_connected_to_mrnet true s)
        then_do (λ t. (mark_attached t, [])))

unfoldable pub connect_sequential : Setup → Env → State → Effect
unfolding connect_first announce
connect_sequential u env s =
    if is_sequential u.build then (connect_first u env s then_do announce u env) else (s, [])

abbrev pub fill_header : Env → State → State
unfolding initialize_data_header
fill_header env s = record s {
  thread = record s.thread {
    header = record s.thread.header {
      posix_tid = (new_header env).posix_tid;
      rank = (new_header env).rank;
      omp_tid = env.thread_num;
    };
  };
}

-- cbtf_timer_service_start_sampling
unfoldable pub service_start_sampling : Setup → Env → State → Effect
unfolding start_thread connect_sequential initialize_data_header
service_start_sampling u env s =
    connect_sequential u env (start_thread u env s)
    then_do (λ t. (
      fill_header env t,
      if not (uses_mrnet u.build) && not u.is_overview then set_send_to_file ∷ [] else [],
    ))
    then_do (λ t. (with_status Status.started t, collector_start t.thread.header ∷ []))

-- cbtf_offline_finish
unfoldable pub offline_finish : Setup → Env → State → Effect
offline_finish u env s = if not s.offline.started then (s, []) else record_objects u env s

-- What the services with MRNet do at the end of a thread that is attached.
unfoldable pub leave_mrnet : Setup → Env → State → Effect
leave_mrnet u env s =
    if s.thread.sent_attached_to_threads
    then (record_objects u env s then_do send_thread_state_changed_message u)
    else (s, [])

-- One thread less. The count is an `int`, which is kept as its 32 bits.
unfoldable pub count_down : State → Effect
count_down s =
    let n = (s.process.num_threads + 2 ^ 32 - 1) % 2 ^ 32 in
    (
      record s { process = record s.process { num_threads = n } },
      if n == 0 then wait_for_shutdown ∷ [] else [],
    )

-- The last part of cbtf_timer_service_stop_sampling in the services with MRNet.
unfoldable pub finish_mrnet : Setup → Env → State → Effect
finish_mrnet u env s = leave_mrnet u env s then_do count_down

-- cbtf_collector_stop, which sends what the collector still holds.
abbrev pub stop_collector : Setup → Env → State → Effect
unfolding collector_send
stop_collector u env s =
    (s, collector_stop ∷ []) then_do (λ t. if env.unsent then collector_send u env t else (t, []))

-- cbtf_timer_service_stop_sampling
unfoldable pub service_stop_sampling : Setup → Env → State → Effect
unfolding collector_send offline_finish finish_mrnet
service_stop_sampling u env s =
    if s.thread.has_ompt && not s.thread.ompt_thread_finished
    then (s, [])
    else (stop_collector u env s
        then_do (λ t. (with_status Status.finished t, []))
        then_do (λ t. if uses_mrnet u.build then finish_mrnet u env t else offline_finish u env t))
