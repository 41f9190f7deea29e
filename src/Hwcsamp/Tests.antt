-- ===== src/Hwcsamp/Tests.antt =====
-- The hwcsamp collector with a buffer of two entries and three buckets.
use cbtf_krell.Prelude.{
  ℕ, ◌%◌, ◌^◌, ◌<◌, true, false, List, [], ◌∷◌, ◌++◌, none, some, ◌≡◌, ◌≢◌, refl, replicate, arith,
}
use cbtf_krell.Header.{zero_header}
use cbtf_krell.Pcsamp.Collector.{Blame}
use cbtf_krell.Hwcsamp.Collector.{State, Action, collector_stop}
use cbtf_krell.Hwcsamp.Start.{Surroundings, collector_start, words_after}
use cbtf_krell.Hwcsamp.Run.{Event, tick, run, sent, sent_events, charges, event_charges}
use cbtf_krell.Hwcsamp.Send.{SizedState}
use cbtf_krell.Hwcsamp.Whole.{untouched, whole_run_sends_counts}

abbrev fresh_state : State
fresh_state = record {
  tls = record {
    header = zero_header;
    pc_len = 0;
    count_len = 0;
    events_len = 0;
    interval = 0;
    clock_mhz = 0;
    buffer = record {
      samples = record {
        addr_begin = 0;
        addr_end = 0;
        len = 0;
        pc = replicate 2 0;
        count = replicate 2 0;
        hash_table = replicate 3 0;
      };
      hwccounts = replicate 2 (replicate 6 0);
    };
    thread_idle = false;
    thread_wait_barrier = false;
    thread_barrier = false;
    defer_sampling = false;
    event_set = some 0;
  };
  papi_init_done = false;
  evalues = replicate 6 0;
}

fresh_state-SizedState : SizedState 2 3 fresh_state
fresh_state-SizedState = record {
  arrays = record {
    pc_size = refl;
    count_size = refl;
    table_size = refl;
    spare = omega arith;
    small = omega arith;
  };
  rows_size = refl;
  values_size = refl;
}

abbrev functions : Blame
functions = record { idle = 1000; wait_barrier = 1001; barrier = 1002 }

-- A,B as the events, and a rate of 50.
abbrev env_ab : Surroundings
env_ab = record {
  events = some (65 ∷ 44 ∷ 66 ∷ []);
  rate = some 50;
  multiplex = false;
  thread_num = 0;
  now = 3;
  later = 4;
  last = 5;
  mhz = 2400;
  created = some 7;
  assigned = true;
}

-- Three addresses where two fit, a pause that leaves the count 30, and a tick after it.
abbrev ticks : List Event
ticks =
    tick 5 6 none 64 (10 ∷ 20 ∷ [])
    ∷ tick 7 8 none 80 (11 ∷ 21 ∷ [])
    ∷ tick 9 10 none 96 (12 ∷ 22 ∷ [])
    ∷ Event.pause (record { stopped = false; values = 30 ∷ 40 ∷ [] })
    ∷ tick 11 12 none 64 (13 ∷ 23 ∷ [])
    ∷ Event.resume
    ∷ tick 13 14 none 64 (14 ∷ 24 ∷ [])
    ∷ []

two_words : words_after [] (65 ∷ 44 ∷ 44 ∷ 66 ∷ []) ≡ (65 ∷ []) ∷ (66 ∷ []) ∷ []
unfolding words_after
two_words = refl

charged_twice : charges functions 0 64 untouched ticks ≡ 2
charged_twice = refl

counted_for : event_charges functions 0 64 untouched ticks ≡ 54
counted_for = refl

rate_set : env_ab.rate ≢ some 0
rate_set = ground arith

whole_run_sends_counts_example :
    (a : State × List Action) × (r : State × List Action) × (collector_start zero_header 1 env_ab
        fresh_state
      ≡ some a)
    × (run 2 3 functions ticks a.0 ≡ some r)
    × ((k q : ℕ)
        → k < 6
        → let acts =
            a.1
            ++ (r.1
                ++ (collector_stop 20 21 22 none
                    (record { stopped = false; values = [] })
                    r.0).1) in
          (sent q acts ≡ charges functions k q untouched ticks)
          × (sent_events k q acts % 2 ^ 64 ≡ event_charges functions k q untouched ticks % 2 ^ 64))
whole_run_sends_counts_example =
    whole_run_sends_counts functions ticks fresh_state zero_header 1 env_ab 20 21 22 none
      (record { stopped = false; values = [] }) (omega arith) fresh_state-SizedState rate_set refl
      refl
