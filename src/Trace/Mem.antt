-- ===== src/Trace/Mem.antt =====
-- core/collectors/mem/collector.c. It saves `do_trace` and puts it back, where the collectors of io and
-- mpi set it; `event_count`, which only debug output reads, is left out.
use cbtf_krell.Prelude.{ℕ, Bool, true, false, not, ◌&&◌, List, [], ◌∷◌, ◌==◌, ltb, if◌then◌else◌}
use cbtf_krell.Header.{DataHeader}
use cbtf_krell.Trace.Types.{
  Event, zero_event, Tls, Blob, Setup, Env, increment, decrement, with_function, names, skip,
}
use cbtf_krell.Trace.Buffer.{initialize_data, send_samples, store}

unfoldable pub mem_start_event : Tls → Tls × Event
mem_start_event t =
    let saved = t.do_trace in
    let t' : Tls = record t { do_trace = false; nesting_depth = increment t.nesting_depth } in
    (record t' { do_trace = saved }, zero_event)

-- `mem_record_event`; a nested call returns before `do_trace` is put back.
unfoldable pub mem_record_event : Setup → Env → Event → ℕ → List ℕ → Tls → Tls × List Blob
unfolding store
mem_record_event u env e function frames t =
    let saved = t.do_trace in
    let t' : Tls = record t { do_trace = false; nesting_depth = decrement t.nesting_depth } in
    if ltb 0 t'.nesting_depth
    then (t', [])
    else (let (t'', sent) =
          store u env e (with_function function frames)
            (record t' { nesting_depth = decrement (increment t'.nesting_depth) }) in
        (record t'' { do_trace = saved }, sent))

-- `cbtf_collector_start`; `ready` is as for io.
unfoldable pub mem_collector_start : DataHeader → List ℕ → Bool → ℕ → ℕ → Tls → Tls
unfolding initialize_data
mem_collector_start header functions ready now later t =
    let t' : Tls =
      initialize_data now (record t {
        defer_sampling = true;
        do_trace = false;
        traced = functions;
        header = header;
      }) in
    record t' {
      nesting_depth = 0;
      header = record t'.header { time_begin = later };
      defer_sampling = not ready;
      do_trace = ready;
    }

unfoldable pub mem_collector_pause : Tls → Tls
mem_collector_pause t = record t { defer_sampling = true; do_trace = false }

unfoldable pub mem_collector_resume : Tls → Tls
mem_collector_resume t = record t { defer_sampling = false; do_trace = true }

-- `cbtf_collector_stop`, which sends where there are both events and stack traces.
unfoldable pub mem_collector_stop : Setup → Env → ℕ → Tls → Tls × List Blob
unfolding send_samples
mem_collector_stop u env time t =
    let t' : Tls = record t { header = record t.header { time_end = time }; do_trace = false } in
    if ltb 0 t.events_len && ltb 0 t.stacktraces_len
    then send_samples u env.rank env.ended env.begun t'
    else (t', [])

-- Whether a function's name is the first of the names.
abbrev pub is_first : ℕ → List ℕ → Bool
is_first f [] = false
is_first f (g ∷ gs) = g == f

-- What a call of malloc or free by the collector itself, while `do_trace` is off, does to the record:
-- the wrapper asks `mem_do_trace` again.
abbrev own_call : Tls → Tls
own_call t = (skip t).0

-- `mem_do_trace` for the function `f`, with CBTF_SERVICE_USE_OFFLINE. While it copies the names, by
-- strdup, and compares them, `do_trace` is off; the copy, which is taken to be made, is freed only
-- where the first name is that of the function (dlsym then finds free). What this does to the heap
-- stands in Wrappers.
unfoldable pub mem_do_trace : ℕ → Tls → Tls × Bool
mem_do_trace f t =
    if t.do_trace
    then (let t' = own_call t in
        if names f t.traced
        then (if is_first f t.traced then own_call t' else t', true)
        else skip t')
    else skip t
