-- ===== src/Tls/Tests.antt =====
-- The maps of services/src/common/TLS.c on concrete keys.
use cbtf_krell.Prelude.{
  ℕ, true, false, ◌≡◌, refl, ◌⊎◌, get_or, Outcome, ok, aborted, running, some, arith,
}
use cbtf_krell.Probe.{probe}
use cbtf_krell.Tls.Map.{
  Map, Process, zero_map, find_bucket, get_value, get_tls, set_tls, initialize, map_of, thread_get,
  thread_set,
}
use cbtf_krell.Tls.Invariant.{zero_map-IsValid}
use cbtf_krell.Tls.Laws.{Claimed, get_value_cases}
use cbtf_krell.Tls.Threads.{AllValid, initialize-AllValid, thread_get-thread_set, first_set_shared}

abbrev threads : Process
threads = initialize true true true true

abbrev or_else {ℓ} : {A : Type ℓ} → A → Outcome A → A
or_else a (ok b) = b
or_else a aborted = a
or_else a running = a

-- The process once thread 1 has stored 5 for the key 7921.
abbrev stored_5 : Process
stored_5 = or_else threads (thread_set threads 1 7921 5)

abbrev read_at : Process → ℕ → ℕ × Process
read_at p t = or_else (0, threads) (thread_get p t 7921)

threads-AllValid : AllValid threads
threads-AllValid = initialize-AllValid true true true true

threads_known : threads.is_multithreaded ≡ true
unfolding initialize
threads_known = refl

get_value_cases_example :
    ((r : Map × ℕ) × (get_value zero_map 7921 ≡ ok r) × Claimed zero_map 7921 r)
    ⊎ ((b : ℕ) × (get_value zero_map 7921 ≡ aborted)
        × (zero_map.size ≡ 30)
        × (find_bucket zero_map 7921 ≡ some b)
        × (get_or zero_map.keys b 0 ≡ 0))
get_value_cases_example = get_value_cases zero_map 7921 zero_map-IsValid (ground arith)

thread_set-threads : thread_set threads 1 7921 5 ≡ ok stored_5
unfolding thread_set set_tls get_value initialize map_of zero_map probe
thread_set-threads = refl

thread_get-threads : thread_get threads 1 7921 ≡ ok (read_at threads 1)
unfolding thread_get get_tls get_value initialize map_of zero_map probe
thread_get-threads = refl

thread_get-stored_5 : thread_get stored_5 1 7921 ≡ ok (read_at stored_5 1)
unfolding thread_set set_tls thread_get get_tls get_value initialize map_of zero_map probe
thread_get-stored_5 = refl

-- Thread 1 reads back what it has stored.
thread_get-thread_set_example : AllValid stored_5 × ((read_at stored_5 1).0 ≡ 5)
thread_get-thread_set_example =
    thread_get-thread_set threads 1 1 7921 5 7921 threads-AllValid threads_known (ground arith)
      (ground arith) thread_set-threads thread_get-threads thread_get-stored_5

abbrev shared : Process
shared = initialize true false true true

abbrev shared_5 : Process
shared_5 = or_else shared (thread_set shared 1 7921 5)

thread_set-shared : thread_set shared 1 7921 5 ≡ ok shared_5
unfolding thread_set set_tls get_value initialize map_of zero_map probe
thread_set-shared = refl

thread_get-shared_5 : thread_get shared_5 2 7921 ≡ ok (read_at shared_5 2)
unfolding thread_set set_tls thread_get get_tls get_value initialize map_of zero_map probe
thread_get-shared_5 = refl

-- Thread 2 reads what thread 1 has stored where one of the four functions is missing.
first_set_shared_example : (read_at shared_5 2).0 ≡ 5
first_set_shared_example =
    first_set_shared true false true true 1 2 7921 5 (ground arith) thread_set-shared
      thread_get-shared_5

-- The map of thread 1 before and after.
abbrev map_5 : Map
map_5 = or_else zero_map (set_tls 7921 5 zero_map)

set_tls-zero_map : set_tls 7921 5 zero_map ≡ ok map_5
unfolding set_tls get_value zero_map probe
set_tls-zero_map = refl
