-- ===== src/Pcsamp/Collector.antt =====
-- core/collectors/pcsamp/collector.c. A function that works on the thread's record returns the new
-- record and what it did to the outside, in order. What CBTF_GetTime, monitor_mpi_comm_rank and
-- monitor_get_thread_num return is given as arguments.
use cbtf_krell.Prelude.{
  zeroed, ℕ, ◌-◌, ◌/◌, ◌^◌, Bool, true, false, List, [], ◌∷◌, Option, none, some, ltb, ◌==◌,
  if◌then◌else◌, take,
}
use cbtf_krell.Header.{DataHeader}
use cbtf_krell.PcData.{PcData, update_pc_data}

-- TLS. The pointers of the blob to the arrays of the buffer are fixed, and left out.
pub record Tls : Type 0 where
  pub header : DataHeader
  pub pc_len : ℕ
  pub count_len : ℕ
  pub interval : ℕ
  pub buffer : PcData
  pub thread_idle : Bool
  pub thread_wait_barrier : Bool
  pub thread_barrier : Bool
  pub defer_sampling : Bool

-- CBTF_pcsamp_data as it is sent: the arrays up to their lengths.
pub record Blob : Type 0 where
  pub header : DataHeader
  pub pcs : List ℕ
  pub counts : List ℕ
  pub interval : ℕ

pub data Action : Type 0 where
  send : Blob → Action
  start_timer : ℕ → Action
  stop_timer block_signal unblock_signal : Action

-- The addresses of the three functions that stand for a thread's OpenMP states.
pub record Blame : Type 0 where
  pub idle : ℕ
  pub wait_barrier : ℕ
  pub barrier : ℕ

abbrev pub max_address : ℕ
max_address = 2 ^ 64 - 1

-- `initialize_data`. The arrays `pc` and `count` keep what they hold.
unfoldable pub initialize_data : ℕ → Tls → Tls
initialize_data now t = record t {
  header = record t.header {
    time_begin = now;
    time_end = 0;
    addr_begin = max_address;
    addr_end = 0;
  };
  pc_len = 0;
  count_len = 0;
  buffer = record t.buffer {
    addr_begin = max_address;
    addr_end = 0;
    len = 0;
    hash_table = zeroed t.buffer.hash_table;
  };
}

-- The header and the lengths are filled in for a send.
abbrev pub filled_in : ℕ → Option ℕ → Tls → Tls
filled_in now rank t = record t {
  header = record t.header {
    time_end = now;
    addr_begin = t.buffer.addr_begin;
    addr_end = t.buffer.addr_end;
    rank = rank;
  };
  pc_len = t.buffer.len;
  count_len = t.buffer.len;
}

abbrev pub blob_of : Tls → Blob
blob_of t = record {
  header = t.header;
  pcs = take t.pc_len t.buffer.pc;
  counts = take t.count_len t.buffer.count;
  interval = t.interval;
}

-- `send_samples`: the blob is sent, and the buffer begins anew. `now` and `later` are the two times
-- read.
unfoldable pub send_samples : ℕ → ℕ → Option ℕ → Tls → Tls × List Action
unfolding initialize_data
send_samples now later rank t =
    let t' = filled_in now rank t in (initialize_data later t', send (blob_of t') ∷ [])

-- The address that a sample is charged to.
unfoldable pub charged_to : Blame → Tls → ℕ → ℕ
charged_to f t pc =
    if t.thread_idle
    then f.idle
    else if t.thread_wait_barrier
    then f.wait_barrier
    else if t.thread_barrier
    then f.barrier
    else pc

-- `serviceTimerHandler` at the address `pc` of the interrupted thread; `none` if the search in the
-- buffer does not end.
unfoldable pub service_timer_handler :
    ℕ → ℕ → Blame → ℕ → ℕ → Option ℕ → ℕ → Tls → Option (Tls × List Action)
unfolding charged_to
service_timer_handler cap hsize f now later rank pc t =
    if t.defer_sampling
    then some (t, [])
    else elim (update_pc_data cap hsize (charged_to f t pc) t.buffer) [
      | none ↦ none
      | some (buffer, full) ↦ some (
          if full
          then send_samples now later rank (record t { buffer = buffer })
          else (record t { buffer = buffer }, []))
    ]

-- The thread's record once the collector runs at an interval. `name` is the text that names this
-- collector.
abbrev pub started : DataHeader → ℕ → ℕ → ℕ → ℕ → ℕ → Tls → Tls
unfolding initialize_data
started header interval name thread_num now later t =
    let t' : Tls = initialize_data now (record t { header = header; defer_sampling = false }) in
    record t' {
      interval = interval;
      header = record t'.header { omp_tid = thread_num; id = name; time_begin = later };
      thread_idle = false;
      thread_wait_barrier = false;
      thread_barrier = false;
    }

-- The sampling rate: CBTF_PCSAMP_RATE read by atoi, if it is set.
abbrev pub rate_of : Option ℕ → ℕ
rate_of none = 100
rate_of (some n) = n

-- `cbtf_collector_start`; at a rate of 0 the division faults, which is `none`.
unfoldable pub collector_start :
    DataHeader → Option ℕ → ℕ → ℕ → ℕ → ℕ → Tls → Option (Tls × List Action)
unfolding initialize_data
collector_start header rate name thread_num now later t =
    let interval = 1000000000 / rate_of rate in
    if rate_of rate == 0
    then none
    else some (started header interval name thread_num now later t, start_timer interval ∷ [])

unfoldable pub collector_pause : Tls → Tls × List Action
collector_pause t = (record t { defer_sampling = true }, block_signal ∷ [])

unfoldable pub collector_resume : Tls → Tls × List Action
collector_resume t = (record t { defer_sampling = false }, unblock_signal ∷ [])

-- `cbtf_collector_stop`: the timer is removed, and what is left in the buffer is sent.
unfoldable pub collector_stop : ℕ → ℕ → ℕ → Option ℕ → Tls → Tls × List Action
unfolding send_samples
collector_stop ended now later rank t =
    let t' : Tls = record t { header = record t.header { time_end = ended } } in
    if ltb 0 t.buffer.len
    then (let (t'', sent) = send_samples now later rank t' in (t'', stop_timer ∷ sent))
    else (t', stop_timer ∷ [])

-- OMPT_THREAD_IDLE, OMPT_THREAD_BARRIER and OMPT_THREAD_WAIT_BARRIER.
unfoldable pub ompt_thread_idle : Bool → Tls → Tls
ompt_thread_idle flag t = record t { thread_idle = flag }

unfoldable pub ompt_thread_barrier : Bool → Tls → Tls
ompt_thread_barrier flag t = record t { thread_barrier = flag }

unfoldable pub ompt_thread_wait_barrier : Bool → Tls → Tls
ompt_thread_wait_barrier flag t = record t { thread_wait_barrier = flag }
