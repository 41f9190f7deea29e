-- ===== src/Trace/Pthreads.antt =====
-- core/collectors/pthreads/collector.c. It saves `do_trace` and puts it back, as that of mem does. Its
-- `send_samples` clears `do_trace` too, which is clear wherever it is called.
use cbtf_krell.Prelude.{ℕ, Bool, true, false, ◌||◌, List, [], ltb, if◌then◌else◌}
use cbtf_krell.Header.{DataHeader}
use cbtf_krell.Trace.Types.{
  Event, zero_event, Tls, Blob, Setup, Env, increment, decrement, with_function, names, skip,
}
use cbtf_krell.Trace.Buffer.{initialize_data, send_samples, store}

-- `pthreads_start_event`, whose answer is 1 where the thread has its record.
unfoldable pub pthreads_start_event : Tls → Tls × Event
pthreads_start_event t =
    let saved = t.do_trace in
    let t' : Tls = record t { do_trace = false; nesting_depth = increment t.nesting_depth } in
    (record t' { do_trace = saved }, zero_event)

-- `pthreads_record_event`; a nested call returns before `do_trace` is put back.
unfoldable pub pthreads_record_event : Setup → Env → Event → ℕ → List ℕ → Tls → Tls × List Blob
unfolding store
pthreads_record_event u env e function frames t =
    let saved = t.do_trace in
    let t' : Tls = record t { do_trace = false; nesting_depth = decrement t.nesting_depth } in
    if ltb 0 t'.nesting_depth
    then (t', [])
    else (let (t'', sent) =
          store u env e (with_function function frames)
            (record t' { nesting_depth = decrement (increment t'.nesting_depth) }) in
        (record t'' { do_trace = saved }, sent))

-- `cbtf_collector_start`; it waits for nothing.
unfoldable pub pthreads_collector_start : DataHeader → List ℕ → ℕ → ℕ → Tls → Tls
unfolding initialize_data
pthreads_collector_start header functions now later t =
    let t' : Tls =
      initialize_data now
        (record t { defer_sampling = false; traced = functions; header = header }) in
    record t' {
      nesting_depth = 0;
      header = record t'.header { time_begin = later };
      do_trace = true;
    }

unfoldable pub pthreads_collector_pause : Tls → Tls
pthreads_collector_pause t = record t { defer_sampling = true; do_trace = false }

unfoldable pub pthreads_collector_resume : Tls → Tls
pthreads_collector_resume t = record t { defer_sampling = false; do_trace = true }

-- `cbtf_collector_stop`
unfoldable pub pthreads_collector_stop : Setup → Env → ℕ → Tls → Tls × List Blob
unfolding send_samples
pthreads_collector_stop u env time t =
    let t' : Tls = record t { header = record t.header { time_end = time }; do_trace = false } in
    if ltb 0 t.events_len || ltb 0 t.stacktraces_len
    then send_samples u env.rank env.ended env.begun t'
    else (t', [])

-- `pthreads_do_trace` for the function `f`, with CBTF_SERVICE_USE_OFFLINE. While it compares the names,
-- `do_trace` is off.
unfoldable pub pthreads_do_trace : ℕ → Tls → Tls × Bool
pthreads_do_trace f t =
    if t.do_trace then (if names f t.traced then (t, true) else skip t) else skip t
