-- ===== src/Hwcsamp/Start.antt =====
-- core/collectors/hwcsamp/collector.c: `cbtf_collector_start` in the offline build.
use cbtf_krell.Prelude.{
  ℕ, ◌/◌, Bool, true, false, List, [], ◌∷◌, ◌++◌, map, Option, none, some, ◌==◌, if◌then◌else◌,
}
use cbtf_krell.Header.{DataHeader}
use cbtf_krell.Hwcsamp.Papi.{cbtf_create_eventset}
use cbtf_krell.Hwcsamp.Collector.{
  State, Action, init_papi, create_eventset, assign_eventset_component, set_multiplex, add_event,
  start_counters, start_timer, initialize_data,
}

-- A word of `strtok_r` that is not empty goes before the others.
abbrev pub with_word : List ℕ → List (List ℕ) → List (List ℕ)
with_word [] words = words
with_word (c ∷ cs) words = (c ∷ cs) ∷ words

-- The words between commas, with the characters read of the first of them.
unfoldable pub words_after : List ℕ → List ℕ → List (List ℕ)
words_after read [] = with_word read []
words_after read (c ∷ cs) =
    let rest = words_after (if c == 44 then [] else read ++ (c ∷ [])) cs in
    if c == 44 then with_word read rest else rest

-- What the start finds: the variables of the environment (the events, the rate read by atoi,
-- whether to multiplex), the times read, and what PAPI returns.
pub record Surroundings : Type 0 where
  pub events : Option (List ℕ)
  pub rate : Option ℕ
  pub multiplex : Bool
  pub thread_num : ℕ
  pub now : ℕ
  pub later : ℕ
  pub last : ℕ
  pub mhz : ℕ
  pub created : Option ℕ
  pub assigned : Bool

-- The two events without CBTF_HWCSAMP_EVENTS: PAPI_TOT_CYC,PAPI_TOT_INS.
abbrev pub default_events : List ℕ
default_events =
    80 ∷ 65 ∷ 80 ∷ 73 ∷ 95 ∷ 84 ∷ 79 ∷ 84 ∷ 95 ∷ 67 ∷ 89 ∷ 67 ∷ 44 ∷ 80 ∷ 65 ∷ 80 ∷ 73 ∷ 95 ∷ 84
    ∷ 79 ∷ 84 ∷ 95 ∷ 73 ∷ 78 ∷ 83 ∷ []

abbrev pub events_of_param : Option (List ℕ) → List ℕ
events_of_param none = default_events
events_of_param (some events) = events

abbrev pub rate_of : Option ℕ → ℕ
rate_of none = 100
rate_of (some rate) = rate

-- The state up to the creation of the event set. `name` is the text that names this collector.
abbrev pub initialized : DataHeader → ℕ → ℕ → Surroundings → State → State
unfolding initialize_data
initialized header interval name env s =
    let s' : State = initialize_data env.now (record s {
      tls = record s.tls { defer_sampling = false; interval = interval; header = header };
    }) in
    record s' {
      tls = record s'.tls {
        header = record s'.tls.header {
          omp_tid = env.thread_num;
          id = name;
          time_begin = env.later;
        };
        clock_mhz = env.mhz;
        event_set = cbtf_create_eventset env.created s'.tls.event_set;
      };
      papi_init_done = true;
    }

-- The counters and the timer run.
abbrev pub running : Surroundings → State → State
running env s = record s {
  tls = record s.tls {
    thread_idle = false;
    thread_wait_barrier = false;
    thread_barrier = false;
    header = record s.tls.header { time_begin = env.last };
  };
}

abbrev pub setup_calls : Surroundings → State → List Action
setup_calls env s =
    (if s.papi_init_done then [] else init_papi ∷ [])
    ++ (create_eventset ∷ assign_eventset_component env.created ∷ [])

unfoldable pub counting_calls : Surroundings → ℕ → List Action
unfolding words_after
counting_calls env interval =
    (if env.multiplex then set_multiplex env.created ∷ [] else [])
    ++ (map (add_event env.created) (words_after [] (events_of_param env.events))
        ++ (start_counters env.created ∷ start_timer interval ∷ []))

-- `cbtf_collector_start`; at a rate of 0 the division faults, which is `none`. Without a component
-- for its event set, the thread is left without counters and without a timer.
unfoldable pub collector_start :
    DataHeader → ℕ → Surroundings → State → Option (State × List Action)
unfolding initialize_data
collector_start header name env s =
    let interval = 1000000000 / rate_of env.rate in
    let s' = initialized header interval name env s in
    if rate_of env.rate == 0
    then none
    else some (
        if env.assigned
        then (running env s', setup_calls env s ++ counting_calls env interval)
        else (s', setup_calls env s))
