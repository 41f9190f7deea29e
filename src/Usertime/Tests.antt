-- ===== src/Usertime/Tests.antt =====
-- Runs of the user time collector with a buffer of four frames.
use cbtf_krell.Prelude.{
  ℕ, false, List, [], ◌∷◌, ◌++◌, Option, none, some, ◌≡◌, ◌≢◌, ◌≤◌, zero, suc, refl, replicate,
  arith, get_or,
}
use cbtf_krell.Header.{zero_header}
use cbtf_krell.Usertime.Types.{Tls, Action, Layout, walked, faulted}
use cbtf_krell.Usertime.Collector.{
  collector_start, collector_stop, initialize_data, service_timer_handler, frames_of, unwound,
  record_stack, record_at, search,
}
use cbtf_krell.Usertime.Buffer.{held, IsValid}
use cbtf_krell.Usertime.Counts.{sent, initialize_data-IsValid}
use cbtf_krell.Usertime.Run.{Event, tick, run, ticks_taken}
use cbtf_krell.Usertime.Conserve.{whole_run_sends_all_stacks}
use cbtf_krell.Usertime.Place.{Held, tick-Held, faulted_tick_counted}

abbrev layout : Layout
layout = record { idle = 1000; wait_barrier = 1001; barrier = 1002; past = λ k. 0 }

abbrev fresh_tls : Tls
fresh_tls = record {
  header = zero_header;
  stacktraces_len = 0;
  count_len = 0;
  interval = 0;
  stacktraces = replicate 4 0;
  count = replicate 4 0;
  thread_idle = false;
  thread_wait_barrier = false;
  thread_barrier = false;
  defer_sampling = false;
  is_unwinding = false;
  unwind_segvcount = 0;
  sample_count = 0;
}

abbrev first_stack : List ℕ
first_stack = 11 ∷ 12 ∷ 13 ∷ []

-- The first stack twice, a second that does not fit beside it, and one while sampling is paused.
abbrev ticks : List Event
ticks =
    tick 5 6 none (walked first_stack)
    ∷ tick 7 8 none (walked first_stack)
    ∷ tick 9 10 none (walked (21 ∷ 22 ∷ []))
    ∷ Event.pause
    ∷ tick 11 12 none (walked first_stack)
    ∷ Event.resume
    ∷ []

taken : ticks_taken false ticks ≡ 3
taken = refl

fresh-IsValid : IsValid 4 (initialize_data 1 fresh_tls)
fresh-IsValid = initialize_data-IsValid 1 fresh_tls refl refl

abbrev rate_50 : Option ℕ
rate_50 = some 50

rate_set : rate_50 ≢ some 0
rate_set = ground arith

whole_run_sends_all_stacks_example :
    (s : Tls × List Action) × (collector_start zero_header rate_50 1 0 3 4 fresh_tls ≡ some s)
    × (let r = run 4 layout ticks s.0 in
        sent (s.1 ++ (r.1 ++ (collector_stop 20 21 22 none r.0).1)) ≡ ticks_taken false ticks)
whole_run_sends_all_stacks_example =
    whole_run_sends_all_stacks {cap = 4} layout ticks fresh_tls zero_header rate_50 1 0 3 4 20 21 22
      none refl refl rate_set
      (omega arith, (omega arith, (omega arith, (tt, (omega arith, (tt, tt))))))

-- A buffer that holds the first stack once.
abbrev one_held : Tls
one_held = record fresh_tls {
  stacktraces_len = 3;
  count_len = 3;
  stacktraces = 11 ∷ 12 ∷ 13 ∷ 0 ∷ [];
  count = 1 ∷ 0 ∷ 0 ∷ 0 ∷ [];
}

bytes-one_held : (i : ℕ) → get_or one_held.count i 0 ≤ 255
bytes-one_held zero = omega arith
bytes-one_held (suc zero) = omega arith
bytes-one_held (suc (suc zero)) = omega arith
bytes-one_held (suc (suc (suc zero))) = omega arith
bytes-one_held (suc (suc (suc (suc i)))) = omega arith

one_held-IsValid : IsValid 4 one_held
one_held-IsValid = record {
  stacks_size = refl;
  counts_size = refl;
  same_len = refl;
  len_le = omega arith;
  bytes = bytes-one_held;
}

-- A second sample of the stack that is held.
tick-Held_example :
    Held
      (λ k. 0)
      first_stack
      one_held
      (service_timer_handler 4 layout 5 6 none (walked first_stack) one_held)
unfolding frames_of
tick-Held_example =
    tick-Held layout 5 6 none 11 (12 ∷ 13 ∷ []) one_held one_held-IsValid (omega arith) refl

faulted_tick_counted_example : held (service_timer_handler 4 layout 5 6 none faulted one_held).0 ≡ 2
faulted_tick_counted_example =
    faulted_tick_counted layout 5 6 none one_held 0 one_held-IsValid refl (omega arith)
      (ground arith)

-- The first two frames of the stack that is held are counted as that stack.
prefix_counted :
    (service_timer_handler 4 layout 5 6 none (walked (11 ∷ 12 ∷ [])) one_held).0.count
    ≡ 2 ∷ 0 ∷ 0 ∷ 0 ∷ []
unfolding service_timer_handler frames_of unwound record_stack record_at search
prefix_counted = refl
