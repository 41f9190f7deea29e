-- ===== src/Hwc/Tests.antt =====
-- The hwc collector with a buffer of two entries and three buckets.
use cbtf_krell.Prelude.{ℕ, false, List, [], ◌∷◌, ◌++◌, none, some, ◌≡◌, refl, replicate, arith}
use cbtf_krell.Header.{zero_header}
use cbtf_krell.Pcsamp.Collector.{Blame}
use cbtf_krell.Pcsamp.Send.{Sized}
use cbtf_krell.Pcsamp.Whole.{fresh}
use cbtf_krell.Hwc.Collector.{State, Action, Surroundings, collector_start, collector_stop}
use cbtf_krell.Hwc.Run.{Event, overflow, record_addr, run, sent, charges}
use cbtf_krell.Hwc.Whole.{whole_run_sends_overflows}

abbrev fresh_state : State
fresh_state = record {
  tls = record {
    header = zero_header;
    pc_len = 0;
    count_len = 0;
    interval = 0;
    buffer = record {
      addr_begin = 0;
      addr_end = 0;
      len = 0;
      pc = replicate 2 0;
      count = replicate 2 0;
      hash_table = replicate 3 0;
    };
    thread_idle = false;
    thread_wait_barrier = false;
    thread_barrier = false;
    defer_sampling = false;
  };
  event_set = some 0;
  papi_init_done = false;
}

fresh_state-Sized : Sized 2 3 fresh_state.tls.buffer
fresh_state-Sized = record {
  pc_size = refl;
  count_size = refl;
  table_size = refl;
  spare = omega arith;
  small = omega arith;
}

abbrev functions : Blame
functions = record { idle = 1000; wait_barrier = 1001; barrier = 1002 }

abbrev env_set : Surroundings
env_set = record {
  threshold = none;
  thread_num = 0;
  now = 3;
  last = 4;
  event_code = 59;
  created = some 7;
}

-- Two addresses fill the buffer; a pause hides an overflow, and a recorded address ends it.
abbrev events : List Event
events =
    overflow 5 6 none 64
    ∷ overflow 7 8 none 80
    ∷ Event.pause
    ∷ overflow 9 10 none 64
    ∷ record_addr 11 12 none 96
    ∷ overflow 13 14 none 64
    ∷ []

charged_twice : charges functions 64 fresh events ≡ 2
charged_twice = refl

whole_run_sends_overflows_example :
    let a = collector_start zero_header 1 env_set fresh_state in
    (r : State × List Action) × (run 2 3 functions events a.0 ≡ some r)
    × ((q : ℕ)
        → sent q (a.1 ++ (r.1 ++ (collector_stop 20 21 22 none r.0).1))
          ≡ charges functions q fresh events)
whole_run_sends_overflows_example =
    whole_run_sends_overflows functions events fresh_state zero_header 1 env_set 20 21 22 none
      (omega arith) fresh_state-Sized refl
