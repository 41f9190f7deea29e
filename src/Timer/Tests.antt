-- ===== src/Timer/Tests.antt =====
-- Runs of the timer service with two threads.
use cbtf_krell.Prelude.{true, false, List, [], ◌∷◌, ◌++◌, none, some, ◌≡◌, refl, arith}
use cbtf_krell.Timer.Handler.{Shared, Thread, System, has_handler, set_timer, set_timer_signal}
use cbtf_krell.Timer.Threads.{
  Request, State, new_thread, serve, serve_all, Counted, ours, serve_all-Counted, spare_removal,
}
use cbtf_krell.Timer.Exact.{period, armed_as_asked}
use cbtf_krell.Timer.Restart.{live, restart_keeps_old}

abbrev posix : System
posix = record {
  have_posix_timers = true;
  force_itimer = false;
  realtime_signal = 37;
  itimer_signal = 27;
  created = some 5;
}

abbrev first : Shared
first = record {
  num_threads = 0;
  timer_signal = 0;
  use_posix_timer = true;
  init_timer_signal = false;
}

abbrev two_threads : State
two_threads = record { shared = first; threads = new_thread ∷ new_thread ∷ [] }

-- Both threads enable a timer, and both remove it.
abbrev calls : List Request
calls =
    record { thread = 0; system = posix; interval = 10000000; handler = some 1 }
    ∷ record { thread = 1; system = posix; interval = 10000000; handler = some 1 }
    ∷ record { thread = 0; system = posix; interval = 0; handler = none }
    ∷ record { thread = 1; system = posix; interval = 0; handler = none }
    ∷ []

two_threads-Counted : Counted false two_threads
two_threads-Counted = record { exact = refl; few = omega arith; signal = refl }

serve_all-Counted_example :
    Counted (ours false (serve_all calls two_threads).1) (serve_all calls two_threads).0
unfolding serve set_timer
serve_all-Counted_example =
    serve_all-Counted calls two_threads false
      (
        record { known = omega arith; has_timer = λ e. absurd (ground arith) },
        (
          record { known = omega arith; has_timer = λ e. absurd (ground arith) },
          (
            record { known = omega arith; has_timer = λ e. refl },
            (record { known = omega arith; has_timer = λ e. refl }, tt),
          ),
        ),
      )
      two_threads-Counted

spare_removal_example :
    let r = set_timer posix 0 none first new_thread in
    let r' = set_timer posix 10000000 (some 1) r.0 new_thread in
    (r.0.num_threads ≡ 4294967295) × (ours false (r.2 ++ r'.2) ≡ false) × (has_handler r'.1 ≡ true)
spare_removal_example =
    spare_removal posix 10000000 1 first new_thread new_thread false refl refl refl (omega arith)

armed_as_asked_example : period 0 (set_timer posix 28571428 (some 1) first new_thread).2 ≡ 28571428
unfolding set_timer_signal
armed_as_asked_example = armed_as_asked posix 28571428 1 0 first new_thread (omega arith)

abbrev set_up : Shared
set_up = record {
  num_threads = 1;
  timer_signal = 37;
  use_posix_timer = true;
  init_timer_signal = true;
}

abbrev with_timer_4 : Thread
with_timer_4 = record { timer_handler = some 1; timerid = 4; posix_timer_initialized = true }

restart_keeps_old_example :
    let r = set_timer posix 10000000 (some 1) set_up with_timer_4 in
    let r' = set_timer posix 0 none r.0 r.1 in
    (live (4 ∷ []) r.2 ≡ 5 ∷ 4 ∷ []) × (live (4 ∷ []) (r.2 ++ r'.2) ≡ 4 ∷ [])
restart_keeps_old_example =
    restart_keeps_old posix 10000000 1 4 5 set_up with_timer_4 (omega arith) (omega arith)
      (omega arith) refl refl refl refl refl
