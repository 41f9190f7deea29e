-- ===== src/Tls/Threads.antt =====
-- Thread-local storage across the threads of a process.
use cbtf_krell.Prelude.{
  ℕ, Bool, true, false, not, ◌&&◌, ◌||◌, ◌≡◌, ◌≢◌, ◌∙◌, get_or-replicate, ◌==◌, if◌then◌else◌, set,
  arith, ok,
}
use cbtf_krell.Tls.Map.{
  Map, Process, zero_map, initialize, map_of, store_map, thread_get, thread_set, get_tls, set_tls,
}
use cbtf_krell.Tls.Invariant.{IsValid, zero_map-IsValid, find_bucket_total}
use cbtf_krell.Tls.Store.{stored, stored_at, set_tls_lem, get_tls_lem}

-- Every thread's map is valid.
abbrev pub AllValid : Process → Type 0
AllValid p = (t : ℕ) → IsValid (map_of p t)

pub initialize-AllValid : (a b c d : Bool) → AllValid (initialize a b c d)
unfolding initialize map_of
initialize-AllValid true true true true t = zero_map-IsValid
initialize-AllValid true true true false t = zero_map-IsValid
initialize-AllValid true true false d t = zero_map-IsValid
initialize-AllValid true false c d t = zero_map-IsValid
initialize-AllValid false b c d t = zero_map-IsValid

-- In a process with threads, storing one thread's map replaces that map and no other.
map_of-store_map :
    (p : Process) (t u : ℕ) (m : Map)
    → p.is_multithreaded ≡ true
    → map_of (store_map p t m) u ≡ (if u == t then m else map_of p u)
unfolding map_of
map_of-store_map p t u m h = ground arith

if-IsValid : (b : Bool) (m n : Map) → IsValid m → IsValid n → IsValid (if b then m else n)
if-IsValid true m n v w = v
if-IsValid false m n v w = w

thread_set-eq :
    (p : Process) (t key value : ℕ) {p' : Process}
    → thread_set p t key value ≡ ok p'
    → (m : Map) × (set_tls key value (map_of p t) ≡ ok m) × (p' ≡ store_map p t m)
unfolding thread_set
thread_set-eq p t key value e = ground arith

thread_get-eq :
    (p : Process) (t key : ℕ) {r : ℕ × Process}
    → thread_get p t key ≡ ok r
    → (g : ℕ × Map) × (get_tls key (map_of p t) ≡ ok g) × (r ≡ (g.0, store_map p t g.1))
unfolding thread_get
thread_get-eq p t key e = ground arith

-- After a successful CBTF_SetTLS of a value for a key in one thread of a process with threads, where
-- every thread's map is valid, every map is still valid, and a successful CBTF_GetTLS of any key
-- (not 0) in any thread returns that value if it asks in the same thread for the same key, and
-- otherwise what a successful CBTF_GetTLS would have returned before.
pub thread_get-thread_set :
    (p : Process) (t u key value j : ℕ) {p' : Process} {r r' : ℕ × Process}
    → AllValid p
    → p.is_multithreaded ≡ true
    → key ≢ 0
    → j ≢ 0
    → thread_set p t key value ≡ ok p'
    → thread_get p u j ≡ ok r
    → thread_get p' u j ≡ ok r'
    → AllValid p' × (r'.0 ≡ (if u == t && j == key then value else r.0))
thread_get-thread_set p t u key value j {p'} {r} {r'} v mt nk nj e g g' =
    let (m, set, stored_p) = thread_set-eq p t key value e in
    let (old, got, old_p) = thread_get-eq p u j g in
    let (new, got', new_p) = thread_get-eq p' u j g' in
    let after : (w : ℕ) → map_of p' w ≡ (if w == t then m else map_of p w) =
      λ w. rw stored_p (map_of-store_map p t w m mt) in
    let (valid, reads) = set_tls_lem key value (map_of p t) (v t) nk set in
    let all_valid : AllValid p' =
      λ w. rw (after w) (if-IsValid (w == t) m (map_of p w) valid (v w)) in
    let read = (get_tls_lem j (map_of p u) (v u) nj got).0 in
    let read' = (get_tls_lem j (map_of p' u) (all_valid u) nj got').0 in
    (all_valid, ground (arith, read, read', after u, reads j nj))

-- Every map begins empty.
map_of-initialize : (a b c d : Bool) (t : ℕ) → map_of (initialize a b c d) t ≡ zero_map
unfolding initialize map_of
map_of-initialize a b c d t = ground arith

-- The maps once one thread's map has been stored first.
map_of-first_store :
    (a b c d : Bool) (t u : ℕ) (m : Map)
    → map_of (store_map (initialize a b c d) t m) u
      ≡ (if (u == t) || not (((a && b) && c) && d) then m else zero_map)
unfolding initialize map_of
map_of-first_store a b c d t u m = ground arith

stored-zero_map : (key : ℕ) → stored zero_map key ≡ 0
unfolding zero_map
stored-zero_map key =
    let (b, found, inside, stop) = find_bucket_total zero_map key zero_map-IsValid in
    stored_at zero_map key b found ∙ get_or-replicate 32 b

-- In a process just set up: once a CBTF_SetTLS of a value for a key (not 0) in one thread and then a
-- CBTF_GetTLS of that key in some thread succeed, the latter has read the value if it is the same
-- thread or if not all four functions for thread-specific data were found (all threads then share
-- one map), and otherwise the null pointer.
pub first_set_shared :
    (a b c d : Bool) (t u key value : ℕ) {p : Process} {r : ℕ × Process}
    → key ≢ 0
    → thread_set (initialize a b c d) t key value ≡ ok p
    → thread_get p u key ≡ ok r
    → r.0 ≡ (if (u == t) || not (((a && b) && c) && d) then value else 0)
first_set_shared a b c d t u key value {p} {r} n e g =
    let q = initialize a b c d in
    let (m, set, stored_p) = thread_set-eq q t key value e in
    let (got, get, same) = thread_get-eq p u key g in
    let (valid, reads) =
      set_tls_lem key value zero_map zero_map-IsValid n (rw (map_of-initialize a b c d t) at set) in
    let shared = (u == t) || not (((a && b) && c) && d) in
    let after : map_of p u ≡ (if shared then m else zero_map) =
      rw stored_p (map_of-first_store a b c d t u m) in
    let all_valid : IsValid (map_of p u) =
      rw after (if-IsValid shared m zero_map valid zero_map-IsValid) in
    let read = (get_tls_lem key (map_of p u) all_valid n get).0 in
    ground (arith, read, after, same, reads key n, stored-zero_map key)
