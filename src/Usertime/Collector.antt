-- ===== src/Usertime/Collector.antt =====
-- core/collectors/usertime/collector.c, built with HAVE_OMPT and CBTF_HANDLE_UNWIND_SEGV. The thread's
-- record is `the_tls`; a function returns the new record and what it did to the outside, in order.
use cbtf_krell.Prelude.{
  zeroed, ℕ, suc, zero, ◌+◌, ◌-◌, ◌/◌, ◌^◌, Bool, true, false, not, ◌&&◌, List, [], ◌∷◌, Option,
  none, some, ltb, ◌==◌, if◌then◌else◌, length, get_or, set, take,
}
use cbtf_krell.Header.{DataHeader}
use cbtf_krell.Usertime.Types.{
  Action, Blob, Layout, Tls, Unwound, block_signal, faulted, install_segv_handler, send,
  start_timer, stop_timer, unblock_signal, walked,
}

abbrev pub max_address : ℕ
max_address = 2 ^ 64 - 1

-- CBTF_Usertime_SEGVhandler: whether it jumps, and the record.
unfoldable pub segv_handler : Tls → Bool × Tls
segv_handler t =
    if t.is_unwinding
    then (true, record t { unwind_segvcount = t.unwind_segvcount + 1 })
    else (false, t)

-- `initialize_data`
unfoldable pub initialize_data : ℕ → Tls → Tls
initialize_data now t = record t {
  header = record t.header {
    time_begin = now;
    time_end = 0;
    addr_begin = max_address;
    addr_end = 0;
  };
  stacktraces_len = 0;
  count_len = 0;
  stacktraces = zeroed t.stacktraces;
  count = zeroed t.count;
}

abbrev pub blob_of : Tls → Blob
blob_of t = record {
  header = t.header;
  stacks = take t.stacktraces_len t.stacktraces;
  counts = take t.count_len t.count;
  interval = t.interval;
}

-- `send_samples`; `now` and `later` are the two times read.
unfoldable pub send_samples : ℕ → ℕ → Option ℕ → Tls → Tls × List Action
unfolding initialize_data
send_samples now later rank t =
    let t' : Tls = record t { header = record t.header { time_end = now; rank = rank } } in
    (initialize_data later t', send (blob_of t') ∷ [])

-- `buffer.stacktraces[k]`, which may lie behind the array.
abbrev pub word : (ℕ → ℕ) → List ℕ → ℕ → ℕ
word past [] k = past k
word past (x ∷ xs) zero = x
word past (x ∷ xs) (suc k) = word past xs k

-- The loop over `j`: the words from `i` on are the frames.
abbrev pub reads : (ℕ → ℕ) → List ℕ → ℕ → List ℕ → Bool
reads past xs i [] = true
reads past xs i (f ∷ fs) = (word past xs i == f) && reads past xs (i + 1) fs

-- A count that marks a top of stack and can still grow.
abbrev pub is_open : ℕ → Bool
is_open n = not (n == 0) && not (n == 255)

-- The loop over `i` from `i` on, for `n` more rounds: the last match is the one that is kept.
unfoldable pub search : (ℕ → ℕ) → List ℕ → List ℕ → List ℕ → ℕ → ℕ → Option ℕ → Option ℕ
search past xs cs fs zero i found = found
search past xs cs fs (suc n) i found =
    search past xs cs fs n (i + 1)
      (if is_open (get_or cs i 0) && reads past xs i fs then some i else found)

-- One round of the loop that adds the frames.
abbrev pub add_frame : Bool → ℕ → Tls → Tls
add_frame top f t = record t {
  stacktraces = set t.stacktraces t.stacktraces_len f;
  count = set t.count t.count_len (if top then 1 else 0);
  header = record t.header {
    addr_begin = if ltb f t.header.addr_begin then f else t.header.addr_begin;
    addr_end = if ltb t.header.addr_end f then f else t.header.addr_end;
  };
  stacktraces_len = t.stacktraces_len + 1;
  count_len = t.count_len + 1;
}

unfoldable pub add_frames : Bool → List ℕ → Tls → Tls
add_frames top [] t = t
add_frames top (f ∷ fs) t = add_frames false fs (add_frame top f t)

abbrev pub count_up : ℕ → Tls → Tls
count_up i t = record t { count = set t.count i (get_or t.count i 0 + 1) }

-- The stack is new, or its count is at the limit.
unfoldable pub add_stack : ℕ → ℕ → ℕ → Option ℕ → List ℕ → Tls → Tls × List Action
unfolding send_samples add_frames
add_stack cap now later rank fs t =
    if ltb cap (t.stacktraces_len + length fs)
    then (let (t', acts) = send_samples now later rank t in (add_frames true fs t', acts))
    else (add_frames true fs t, [])

-- The frames with the innermost one replaced in the three OpenMP states. After a fault there are none.
unfoldable pub frames_of : Layout → Tls → Unwound → List ℕ
frames_of y t faulted = []
frames_of y t (walked []) = []
frames_of y t (walked (f ∷ fs)) =
    (if t.thread_idle
      then y.idle
      else if t.thread_wait_barrier
      then y.wait_barrier
      else if t.thread_barrier
      then y.barrier
      else f)
    ∷ fs

-- The record once the unwinding is over; a fault on the way is handled while `is_unwinding` is set.
unfoldable pub unwound : Unwound → Tls → Tls
unfolding segv_handler
unwound w t =
    let t' : Tls = record t { sample_count = t.sample_count + 1; is_unwinding = true } in
    elim w [
      | walked _ ↦ record t' { is_unwinding = false }
      | faulted ↦ record (segv_handler t').1 { is_unwinding = false }
    ]

-- `serviceTimerHandler` from the end of the search on, whose result is given.
unfoldable pub record_at : ℕ → ℕ → ℕ → Option ℕ → List ℕ → Option ℕ → Tls → Tls × List Action
unfolding add_stack
record_at cap now later rank fs none t = add_stack cap now later rank fs t
record_at cap now later rank fs (some i) t =
    if ltb (get_or t.count i 0) 255 then (count_up i t, []) else add_stack cap now later rank fs t

unfoldable pub record_stack : ℕ → Layout → ℕ → ℕ → Option ℕ → List ℕ → Tls → Tls × List Action
unfolding search record_at
record_stack cap y now later rank fs t =
    record_at cap now later rank fs (search y.past t.stacktraces t.count fs t.count_len 0 none) t

-- `serviceTimerHandler`
unfoldable pub service_timer_handler :
    ℕ → Layout → ℕ → ℕ → Option ℕ → Unwound → Tls → Tls × List Action
unfolding frames_of record_stack unwound
service_timer_handler cap y now later rank w t =
    if t.defer_sampling
    then (t, [])
    else record_stack cap y now later rank (frames_of y t w) (unwound w t)

-- The sampling rate: CBTF_USERTIME_RATE read by atoi, if it is set.
abbrev pub rate_of : Option ℕ → ℕ
rate_of none = 35
rate_of (some n) = n

-- The thread's record once the collector runs at an interval. `name` is the text that names this
-- collector.
abbrev pub started : DataHeader → ℕ → ℕ → ℕ → ℕ → ℕ → Tls → Tls
unfolding initialize_data
started header interval name thread_num now later t =
    let t' : Tls = initialize_data now (record t { header = header; defer_sampling = false }) in
    record t' {
      interval = interval;
      header = record t'.header { omp_tid = thread_num; id = name; time_begin = later };
      thread_idle = false;
      thread_wait_barrier = false;
      thread_barrier = false;
      is_unwinding = false;
      unwind_segvcount = 0;
      sample_count = 0;
    }

-- `cbtf_collector_start`; at a rate of 0 the division faults, which is `none`.
unfoldable pub collector_start :
    DataHeader → Option ℕ → ℕ → ℕ → ℕ → ℕ → Tls → Option (Tls × List Action)
unfolding initialize_data
collector_start header rate name thread_num now later t =
    let interval = 1000000000 / rate_of rate in
    if rate_of rate == 0
    then none
    else some (
      started header interval name thread_num now later t,
      install_segv_handler ∷ start_timer interval ∷ [],
    )

unfoldable pub collector_pause : Tls → Tls × List Action
collector_pause t = (record t { defer_sampling = true }, block_signal ∷ [])

unfoldable pub collector_resume : Tls → Tls × List Action
collector_resume t = (record t { defer_sampling = false }, unblock_signal ∷ [])

-- `cbtf_collector_stop`
unfoldable pub collector_stop : ℕ → ℕ → ℕ → Option ℕ → Tls → Tls × List Action
unfolding send_samples
collector_stop ended now later rank t =
    let t' : Tls = record t { header = record t.header { time_end = ended } } in
    if ltb 0 t.stacktraces_len
    then (let (t'', acts) = send_samples now later rank t' in (t'', stop_timer ∷ acts))
    else (t', stop_timer ∷ [])

unfoldable pub ompt_thread_idle : Bool → Tls → Tls
ompt_thread_idle flag t = record t { thread_idle = flag }

unfoldable pub ompt_thread_barrier : Bool → Tls → Tls
ompt_thread_barrier flag t = record t { thread_barrier = flag }

unfoldable pub ompt_thread_wait_barrier : Bool → Tls → Tls
ompt_thread_wait_barrier flag t = record t { thread_wait_barrier = flag }
