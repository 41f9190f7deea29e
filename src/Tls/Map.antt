-- ===== src/Tls/Map.antt =====
-- services/src/common/TLS.c: the table of one thread, and the table that a thread is given.
use cbtf_krell.Prelude.{
  ℕ, ◌+◌, ◌%◌, ◌^◌, Bool, ◌&&◌, ◌||◌, List, Option, none, some, ltb, ◌==◌, if◌then◌else◌, get_or,
  set, replicate, Outcome, ok, running, ◌>>=◌, ◌>>◌, check, ◌-◌,
}
use cbtf_krell.Probe.{probe}

-- MapSize
abbrev pub map_size : ℕ
map_size = 32

-- Map. A pointer is a number, and 0 the null pointer.
pub record Map : Type 0 where
  pub size : ℕ
  pub keys : List ℕ
  pub values : List ℕ

-- A map that `memset` has zeroed.
unfoldable pub zero_map : Map
zero_map = record { size = 0; keys = replicate map_size 0; values = replicate map_size 0 }

-- The negation of the condition of the loop in `getValue`.
abbrev pub stops : List ℕ → ℕ → ℕ → Bool
stops keys key b = (get_or keys b 0 == 0) || (get_or keys b 0 == key)

unfoldable pub find_bucket : Map → ℕ → Option ℕ
find_bucket m key = probe (stops m.keys key) map_size map_size (key % map_size)

-- `getValue` at the bucket found: a free bucket takes the key, and the Assert follows.
unfoldable pub claim_bucket : Map → ℕ → ℕ → Outcome (Map × ℕ)
claim_bucket m key b =
    if get_or m.keys b 0 == 0
    then (do
      check (ltb ((m.size + 1) % 2 ^ 32) (map_size - 1))
      ok (record m { keys = set m.keys b key; size = (m.size + 1) % 2 ^ 32 }, b))
    else ok (m, b)

-- `getValue`, whose result points to the value of a bucket. `running` is a search that has passed
-- all buckets.
unfoldable pub get_value : Map → ℕ → Outcome (Map × ℕ)
unfolding find_bucket claim_bucket
get_value m key = elim (find_bucket m key) [ none ↦ running | some b ↦ claim_bucket m key b ]

-- CBTF_GetTLS on a thread's map.
unfoldable pub get_tls : ℕ → Map → Outcome (ℕ × Map)
unfolding get_value
get_tls key m = do check (ltb 0 key); r ← get_value m key; ok (get_or r.0.values r.1 0, r.0)

-- CBTF_SetTLS on a thread's map.
unfoldable pub set_tls : ℕ → ℕ → Map → Outcome Map
unfolding get_value
set_tls key value m = do
  check (ltb 0 key)
  r ← get_value m key
  ok (record r.0 { values = set r.0.values r.1 value })

-- The process: whether the four pthread functions were found, each thread's map, and the map of a
-- process without threads.
pub record Process : Type 0 where
  pub is_multithreaded : Bool
  pub thread_maps : ℕ → Option Map
  pub map_for_process : Map

-- `initialize`: `symbols` says which of the four functions `dlsym` has found. A new key has no value
-- in any thread.
unfoldable pub initialize : Bool → Bool → Bool → Bool → Process
initialize create delete getspecific setspecific = record {
  is_multithreaded = ((create && delete) && getspecific) && setspecific;
  thread_maps = λ t. none;
  map_for_process = zero_map;
}

-- The map that `getValue` works on for a thread: a zeroed one at the thread's first access.
unfoldable pub map_of : Process → ℕ → Map
map_of p thread =
    if p.is_multithreaded
    then elim (p.thread_maps thread) [ none ↦ zero_map | some m ↦ m ]
    else p.map_for_process

abbrev pub store_map : Process → ℕ → Map → Process
store_map p thread m =
    if p.is_multithreaded
    then record p { thread_maps = λ t. if t == thread then some m else p.thread_maps t }
    else record p { map_for_process = m }

unfoldable pub thread_get : Process → ℕ → ℕ → Outcome (ℕ × Process)
thread_get p thread key = do r ← get_tls key (map_of p thread); ok (r.0, store_map p thread r.1)

unfoldable pub thread_set : Process → ℕ → ℕ → ℕ → Outcome Process
thread_set p thread key value = do
  m ← set_tls key value (map_of p thread)
  ok (store_map p thread m)
