-- ===== src/Hwctime/Tests.antt =====
-- The hwctime collector with a buffer of four frames.
use cbtf_krell.Prelude.{ℕ, false, List, [], ◌∷◌, ◌++◌, none, some, ◌≡◌, refl, replicate, arith}
use cbtf_krell.Header.{zero_header}
use cbtf_krell.Usertime.Types.{Layout, walked}
use cbtf_krell.Usertime.Run.{Event, tick, ticks_taken}
use cbtf_krell.Hwc.Collector.{Surroundings}
use cbtf_krell.Hwctime.Collector.{State, collector_start, collector_stop}
use cbtf_krell.Hwctime.Run.{run, sent}
use cbtf_krell.Hwctime.Whole.{whole_run_sends_overflow_stacks}

abbrev layout : Layout
layout = record { idle = 1000; wait_barrier = 1001; barrier = 1002; past = λ k. 0 }

abbrev fresh_state : State
fresh_state = record {
  tls = record {
    header = zero_header;
    stacktraces_len = 0;
    count_len = 0;
    interval = 0;
    stacktraces = replicate 4 0;
    count = replicate 4 0;
    thread_idle = false;
    thread_wait_barrier = false;
    thread_barrier = false;
    defer_sampling = false;
    is_unwinding = false;
    unwind_segvcount = 0;
    sample_count = 0;
  };
  event_set = some 0;
  papi_init_done = false;
}

abbrev env_set : Surroundings
env_set = record {
  threshold = some 1000;
  thread_num = 0;
  now = 3;
  last = 4;
  event_code = 59;
  created = some 7;
}

abbrev first_stack : List ℕ
first_stack = 11 ∷ 12 ∷ 13 ∷ []

-- A stack twice, one that does not fit beside it, and one while sampling is paused.
abbrev overflows : List Event
overflows =
    tick 5 6 none (walked first_stack)
    ∷ tick 7 8 none (walked first_stack)
    ∷ tick 9 10 none (walked (21 ∷ 22 ∷ []))
    ∷ Event.pause
    ∷ tick 11 12 none (walked first_stack)
    ∷ []

taken : ticks_taken false overflows ≡ 3
taken = refl

whole_run_sends_overflow_stacks_example :
    let a = collector_start zero_header 1 env_set fresh_state in
    let r = run 4 layout overflows a.0 in
    sent (a.1 ++ (r.1 ++ (collector_stop 20 21 22 none r.0).1)) ≡ ticks_taken false overflows
whole_run_sends_overflow_stacks_example =
    whole_run_sends_overflow_stacks {cap = 4} layout overflows fresh_state zero_header 1 env_set 20
      21 22 none refl refl refl (omega arith, (omega arith, (omega arith, (tt, (omega arith, tt)))))
