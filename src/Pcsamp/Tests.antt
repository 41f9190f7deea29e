-- ===== src/Pcsamp/Tests.antt =====
-- The pcsamp collector with a buffer of two entries and three buckets.
use cbtf_krell.Prelude.{
  Option, ℕ, true, false, List, [], ◌∷◌, ◌++◌, none, some, ◌≡◌, ◌≢◌, refl, replicate, arith,
}
use cbtf_krell.Header.{zero_header}
use cbtf_krell.Pcsamp.Collector.{Tls, Action, Blame, collector_start, collector_stop}
use cbtf_krell.Pcsamp.Run.{Event, tick, run, sent, charges}
use cbtf_krell.Pcsamp.Send.{Sized}
use cbtf_krell.Pcsamp.Whole.{fresh, whole_run_sends_all}

abbrev fresh_tls : Tls
fresh_tls = record {
  header = zero_header;
  pc_len = 0;
  count_len = 0;
  interval = 0;
  buffer = record {
    addr_begin = 0;
    addr_end = 0;
    len = 0;
    pc = replicate 2 0;
    count = replicate 2 0;
    hash_table = replicate 3 0;
  };
  thread_idle = false;
  thread_wait_barrier = false;
  thread_barrier = false;
  defer_sampling = false;
}

abbrev functions : Blame
functions = record { idle = 1000; wait_barrier = 1001; barrier = 1002 }

-- Three addresses where two fit, a pause, and a tick while the thread is idle.
abbrev ticks : List Event
ticks =
    tick 5 6 none 64
    ∷ tick 7 8 none 80
    ∷ tick 9 10 none 96
    ∷ Event.pause
    ∷ tick 11 12 none 64
    ∷ Event.resume
    ∷ Event.idle true
    ∷ tick 13 14 none 64
    ∷ []

fresh_tls-Sized : Sized 2 3 fresh_tls.buffer
fresh_tls-Sized = record {
  pc_size = refl;
  count_size = refl;
  table_size = refl;
  spare = omega arith;
  small = omega arith;
}

abbrev rate_50 : Option ℕ
rate_50 = some 50

rate_set : rate_50 ≢ some 0
rate_set = ground arith

charged_once : charges functions 64 fresh ticks ≡ 1
charged_once = refl

charged_idle : charges functions 1000 fresh ticks ≡ 1
charged_idle = refl

whole_run_sends_all_example :
    (s : Tls × List Action) × (r : Tls × List Action) × (collector_start zero_header
        (some 50)
        1
        0
        3
        4
        fresh_tls
      ≡ some s)
    × (run 2 3 functions ticks s.0 ≡ some r)
    × ((q : ℕ)
        → sent q (s.1 ++ (r.1 ++ (collector_stop 20 21 22 none r.0).1))
          ≡ charges functions q fresh ticks)
whole_run_sends_all_example =
    whole_run_sends_all functions ticks fresh_tls zero_header rate_50 1 0 3 4 20 21 22 none
      (omega arith) fresh_tls-Sized rate_set
