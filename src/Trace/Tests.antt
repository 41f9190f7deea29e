-- ===== src/Trace/Tests.antt =====
-- Runs of the tracing collectors.
use cbtf_krell.Prelude.{
  ℕ, ◌+◌, ◌-◌, true, false, List, [], ◌∷◌, ◌++◌, none, some, ◌≡◌, refl, replicate, arith,
}
use cbtf_krell.Header.{zero_header}
use cbtf_krell.Trace.Types.{zero_event, Tls, Setup, Env, depth_range}
use cbtf_krell.Trace.Search.{find_stack}
use cbtf_krell.Trace.Table.{IsTable, find}
use cbtf_krell.Trace.Found.{find_stack-find}
use cbtf_krell.Trace.Held.{held, sent_calls, AreGood}
use cbtf_krell.Trace.Store.{Fits}
use cbtf_krell.Trace.Run.{Request, enter, leave, ask, serve, serve_all, whole, Nests, outermost}
use cbtf_krell.Trace.Interface.{IsReady}
use cbtf_krell.Trace.Whole.{io, mem, operations, whole_trace_sends_all}
use cbtf_krell.Trace.Nested.{
  nested_call, goes_on, nested_call_ends_tracing, untraced_inside, run_of,
  untraced_call_ends_tracing,
}
use cbtf_krell.Trace.Io.{
  io_start_event, io_record_event, io_do_trace, io_collector_start, io_collector_stop,
}
use cbtf_krell.Trace.Paths.{PathTls, iot_record_event}
use cbtf_krell.Trace.Full.{IsLost, full_paths_end_tracing}

abbrev sizes : Setup
sizes = record { stack_size = 12; event_size = 2; unique_id = 7; skips_zero = false }

-- Every call is made from the same place, and its own frame is the second.
abbrev unwind : ℕ → List ℕ
unwind c = 100 ∷ (200 + c) ∷ 300 ∷ []

abbrev times : Env
times = record { rank = some 0; ended = 10; begun = 11; ended' = 12; begun' = 13 }

abbrev empty : Tls
empty = record {
  header = zero_header;
  stacktraces = replicate 12 0;
  stacktraces_len = 0;
  events = replicate 2 zero_event;
  events_len = 0;
  traced = 5 ∷ [];
  nesting_depth = 0;
  do_trace = true;
  defer_sampling = false;
}

abbrev fits : (c : ℕ) → Fits sizes (unwind c)
fits c = record {
  frames = (omega arith, (omega arith, (omega arith, tt)));
  two = omega arith;
  room = omega arith;
}

-- A call, a call with a call inside, and another one.
abbrev some_calls : List Request
some_calls =
    ask 5
    ∷ enter
    ∷ leave times 1 50
    ∷ enter
    ∷ enter
    ∷ leave times 2 50
    ∷ leave times 3 51
    ∷ enter
    ∷ leave times 4 50
    ∷ []

some_calls-Nests : Nests sizes unwind 0 some_calls
some_calls-Nests = (
  omega arith,
  (omega arith, fits 1, (omega arith, fits 2, (omega arith, fits 3, (omega arith, fits 4, tt)))),
)

-- The calls 1, 3 and 4 are sent.
calls_sent :
    sent_calls
      (whole (operations (io true)) sizes unwind zero_header (5 ∷ []) 1 2 some_calls times 20 empty)
    ≡ 1 ∷ 3 ∷ 4 ∷ []
unfolding whole serve_all serve io_start_event io_record_event io_do_trace io_collector_start
    io_collector_stop
calls_sent = refl

whole_trace_sends_all_example :
    let sent =
      whole
        (operations (io true))
        sizes
        unwind
        zero_header
        (5 ∷ [])
        1
        2
        some_calls
        times
        20
        empty in
    (sent_calls sent ≡ outermost 0 some_calls) × AreGood unwind sent
whole_trace_sends_all_example =
    whole_trace_sends_all (io true) unwind sizes zero_header (5 ∷ []) 1 2 some_calls times 20 empty
      (omega arith) refl refl (omega arith) (omega arith) (omega arith) some_calls-Nests

abbrev two_stacks : List ℕ
two_stacks = 50 ∷ 201 ∷ 300 ∷ 0 ∷ 51 ∷ 202 ∷ 300 ∷ 0 ∷ 0 ∷ 0 ∷ []

two_stacks-IsTable : IsTable two_stacks 0 8 ((50 ∷ 201 ∷ 300 ∷ []) ∷ (51 ∷ 202 ∷ 300 ∷ []) ∷ [])
two_stacks-IsTable = record { stands = omega arith; ends = omega arith; stacks = omega arith }

-- The stack trace of a call of another function finds the second one.
find_stack-find_example :
    find_stack two_stacks 8 (99 ∷ 202 ∷ 300 ∷ [])
    ≡ find (99 ∷ 202 ∷ 300 ∷ []) ((50 ∷ 201 ∷ 300 ∷ []) ∷ (51 ∷ 202 ∷ 300 ∷ []) ∷ [])
find_stack-find_example =
    find_stack-find two_stacks 8 (99 ∷ 202 ∷ 300 ∷ [])
      ((50 ∷ 201 ∷ 300 ∷ []) ∷ (51 ∷ 202 ∷ 300 ∷ []) ∷ []) two_stacks-IsTable (omega arith)
      (omega arith)

other_function : find_stack two_stacks 8 (99 ∷ 202 ∷ 300 ∷ []) ≡ some 4
unfolding find_stack
other_function = refl

nested_call_ends_tracing_example :
    (serve_all
      (operations (mem true))
      sizes
      unwind
      (nested_call times times 1 50 2 51)
      empty).0.do_trace
    ≡ goes_on (mem true)
nested_call_ends_tracing_example =
    nested_call_ends_tracing (mem true) sizes unwind times times 1 50 2 51 empty refl

empty-IsReady : IsReady unwind sizes empty
empty-IsReady = record {
  valid = record {
    stack_size = refl;
    event_size = refl;
    stacks = [];
    table = record { stands = tt; ends = omega arith; stacks = tt };
    stack_room = omega arith;
    events_le = omega arith;
    placed = tt;
  };
  room = omega arith;
}

untraced_call_ends_tracing_example :
    let r = run_of (io true) sizes unwind (untraced_inside times 2 51 6) empty in
    (sent_calls r.1 ++ held r.0 ≡ held empty ++ (2 ∷ []))
    × (run_of (io true) sizes unwind (untraced_inside times 2 51 6 ++ (leave times 1 50 ∷ [])) empty
        ≡ (record r.0 { do_trace = false; nesting_depth = depth_range - 1 }, r.1))
untraced_call_ends_tracing_example =
    untraced_call_ends_tracing (io true) sizes unwind times times 1 50 2 51 6 empty (omega arith)
      empty-IsReady (omega arith) (fits 2) refl refl refl

-- A buffer with room for six characters, with the path "ab" in it.
abbrev one_path : PathTls
one_path = record {
  trace = record empty { nesting_depth = 1 };
  pathnames = 0 ∷ 97 ∷ 98 ∷ 0 ∷ 0 ∷ 0 ∷ [];
  pathnames_len = 4;
}

no_path : find_stack one_path.pathnames 4 (99 ∷ 100 ∷ []) ≡ none
unfolding find_stack
no_path = refl

full_paths_end_tracing_example :
    let r =
      iot_record_event 6 sizes times times zero_event 50 (unwind 1) (99 ∷ 100 ∷ []) one_path in
    IsLost one_path r × ((f : ℕ) → (io_do_trace f r.0.trace).1 ≡ false)
full_paths_end_tracing_example =
    full_paths_end_tracing 6 sizes times times zero_event 50 (unwind 1) (99 ∷ 100 ∷ []) one_path
      no_path (omega arith)
