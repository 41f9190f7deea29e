-- ===== src/Timer/Threads.antt =====
-- All threads of a process and the signal action that they share.
use cbtf_krell.Prelude.{
  ℕ, zero, suc, ◌+◌, ◌-◌, ◌%◌, ◌^◌, ◌≤◌, ◌<◌, Bool, true, false, ◌&&◌, List, [], ◌∷◌, ◌++◌, Option,
  none, some, ◌≡◌, refl, ltb, ◌==◌, if◌then◌else◌, length, get_or, set, length-set, arith,
}
use cbtf_krell.Timer.Handler.{
  Shared, Thread, System, Action, install_handler, restore_handler, has_handler, set_timer,
}

-- A call of CBTF_Timer: the thread that calls, what the system answers, the interval and the handler.
pub record Request : Type 0 where
  pub thread : ℕ
  pub system : System
  pub interval : ℕ
  pub handler : Option ℕ

pub record State : Type 0 where
  pub shared : Shared
  pub threads : List Thread

abbrev pub new_thread : Thread
new_thread = record { timer_handler = none; timerid = 0; posix_timer_initialized = false }

unfoldable pub serve : Request → State → State × List Action
unfolding set_timer
serve r s =
    let (shared, t, acts) =
      set_timer r.system r.interval r.handler s.shared (get_or s.threads r.thread new_thread) in
    (record { shared = shared; threads = set s.threads r.thread t }, acts)

unfoldable pub serve_all : List Request → State → State × List Action
unfolding serve
serve_all [] s = (s, [])
serve_all (r ∷ rs) s =
    let (s', acts) = serve r s in let (s'', more) = serve_all rs s' in (s'', acts ++ more)

-- How many threads have a handler.
abbrev pub using : List Thread → ℕ
using [] = 0
using (t ∷ ts) = (if has_handler t then 1 else 0) + using ts

-- Whether the signal has our handler after the actions.
abbrev pub ours : Bool → List Action → Bool
ours b [] = b
ours b (install_handler _ ∷ acts) = ours true acts
ours b (restore_handler _ ∷ acts) = ours false acts
ours b (_ ∷ acts) = ours b acts

ours-append : (b : Bool) (xs ys : List Action) → ours b (xs ++ ys) ≡ ours (ours b xs) ys
ours-append b [] ys = refl
ours-append b (install_handler _ ∷ xs) ys = ours-append true xs ys
ours-append b (restore_handler _ ∷ xs) ys = ours-append false xs ys
ours-append b (_ ∷ xs) ys = ours-append b xs ys

-- The call is by a thread of the process, and one that removes a timer has one.
pub record IsProper (r : Request) (s : State) : Type 0 where
  pub known : r.thread < length s.threads
  pub has_timer :
      (ltb 0 r.interval && has_handler (record new_thread { timer_handler = r.handler })) ≡ false
      → has_handler (get_or s.threads r.thread new_thread) ≡ true

abbrev pub AllProper : List Request → State → Type 0
AllProper [] s = Unit
AllProper (r ∷ rs) s = IsProper r s × AllProper rs (serve r s).0

-- The count is the number of threads with a handler, and the signal is ours while there are any.
pub record Counted (b : Bool) (s : State) : Type 0 where
  pub exact : s.shared.num_threads ≡ using s.threads
  pub few : length s.threads < 4294967296
  pub signal : b ≡ ltb 0 (using s.threads)

using-set :
    (ts : List Thread) (i : ℕ) (t d : Thread)
    → i < length ts
    → using (set ts i t) + (if has_handler (get_or ts i d) then 1 else 0)
      ≡ using ts + (if has_handler t then 1 else 0)
using-set [] i t d h = absurd (omega arith)
using-set (u ∷ ts) zero t d h = omega arith
using-set (u ∷ ts) (suc i) t d h = omega (arith, using-set ts i t d (omega arith))

using-le : (ts : List Thread) → using ts ≤ length ts
using-le [] = omega arith
using-le (t ∷ ts) = ground (arith, using-le ts)

using-pos :
    (ts : List Thread) (i : ℕ) (d : Thread)
    → i < length ts
    → has_handler (get_or ts i d) ≡ true
    → 0 < using ts
using-pos [] i d h e = absurd (omega arith)
using-pos (u ∷ ts) zero d h e = ground arith
using-pos (u ∷ ts) (suc i) d h e = omega (arith, using-pos ts i d (omega arith) e)

-- One call, in terms of the caller's handler before and after.
set_timer_lem :
    (y : System) (interval : ℕ) (handler : Option ℕ) (s : Shared) (t : Thread) (b : Bool)
    → s.num_threads < 4294967296
    → (let r = set_timer y interval handler s t in
        let on = ltb 0 interval && has_handler (record new_thread { timer_handler = handler }) in
        (has_handler r.1 ≡ on)
        × (r.0.num_threads ≡ (
            if on
            then (if has_handler t then s.num_threads else (s.num_threads + 1) % 2 ^ 32)
            else (s.num_threads + (2 ^ 32 - 1)) % 2 ^ 32))
        × (ours b r.2 ≡ (
            if on
            then (if s.num_threads == 0 then true else b)
            else (if r.0.num_threads == 0 then false else b))))
unfolding set_timer
set_timer_lem y interval none s t b h = ground arith
set_timer_lem y interval (some f) s t b h = ground arith

-- The count after a call, from the numbers before it.
count_lem :
    (was on : Bool) (n u u' n' : ℕ)
    → n ≡ u
    → u < 4294967296
    → u' < 4294967296
    → u' + (if was then 1 else 0) ≡ u + (if on then 1 else 0)
    → (on ≡ false → was ≡ true)
    → n' ≡ (if on then (if was then n else (n + 1) % 2 ^ 32) else (n + (2 ^ 32 - 1)) % 2 ^ 32)
    → n' ≡ u'
count_lem true true n u u' n' e f g h k l = omega arith
count_lem false true n u u' n' e f g h k l = omega arith
count_lem true false n u u' n' e f g h k l = omega arith
count_lem false false n u u' n' e f g h k l = absurd (ground (arith, k refl))

signal_lem :
    (was on b b' : Bool) (n u u' n' : ℕ)
    → n ≡ u
    → n' ≡ u'
    → b ≡ ltb 0 u
    → (was ≡ true → 0 < u)
    → u' + (if was then 1 else 0) ≡ u + (if on then 1 else 0)
    → (on ≡ false → was ≡ true)
    → b' ≡ (if on then (if n == 0 then true else b) else (if n' == 0 then false else b))
    → b' ≡ ltb 0 u'
signal_lem true true b b' n u u' n' e f g w h k l = ground (arith, w refl)
signal_lem false true b b' n u u' n' e f g w h k l = ground arith
signal_lem true false b b' n u u' n' e f g w h k l = ground (arith, w refl)
signal_lem false false b b' n u u' n' e f g w h k l = absurd (ground (arith, k refl))

serve-Counted :
    (r : Request) (s : State) (b : Bool)
    → IsProper r s
    → Counted b s
    → Counted (ours b (serve r s).1) (serve r s).0
unfolding serve
serve-Counted r s b p c =
    let t = get_or s.threads r.thread new_thread in
    let after = set_timer r.system r.interval r.handler s.shared t in
    let on = ltb 0 r.interval && has_handler (record new_thread { timer_handler = r.handler }) in
    let bound = using-le s.threads in
    let bound' = using-le (set s.threads r.thread after.1) in
    let size = length-set s.threads r.thread after.1 in
    let (flag, count, sig) =
      set_timer_lem r.system r.interval r.handler s.shared t b (omega (arith, c.exact, c.few)) in
    let total = rw flag at (using-set s.threads r.thread after.1 new_thread p.known) in
    let exact =
      count_lem (has_handler t) on s.shared.num_threads (using s.threads)
        (using (set s.threads r.thread after.1)) after.0.num_threads c.exact (omega (arith, c.few))
        (omega (arith, c.few)) total p.has_timer count in
    record {
      exact = exact;
      few = omega (arith, size, c.few);
      signal =
          signal_lem (has_handler t) on b (ours b after.2) s.shared.num_threads (using s.threads)
            (using (set s.threads r.thread after.1)) after.0.num_threads c.exact exact c.signal
            (using-pos s.threads r.thread new_thread p.known) total p.has_timer sig;
    }

-- Over any sequence of calls of CBTF_Timer by the threads of a process (fewer than 2^32), in which a
-- thread removes a timer only when it has one, whatever timers the system makes or fails to make: if
-- the count is the number of threads with a handler and the signal's action is ours exactly if there
-- is one, then so it is at the end.
pub serve_all-Counted :
    (rs : List Request) (s : State) (b : Bool)
    → AllProper rs s
    → Counted b s
    → Counted (ours b (serve_all rs s).1) (serve_all rs s).0
unfolding serve_all
serve_all-Counted [] s b p c = c
serve_all-Counted (r ∷ rs) s b p c =
    rw (ours-append b (serve r s).1 (serve_all rs (serve r s).0).1)
      (serve_all-Counted rs (serve r s).0 (ours b (serve r s).1) p.1 (serve-Counted r s b p.0 c))

-- A thread without a timer that removes one, where no thread has a timer: the count is then 2^32 - 1,
-- and a thread that enables a timer afterwards gets no signal handler installed, though it is the
-- only one with a timer.
pub spare_removal :
    (y : System) (interval handler : ℕ) (s : Shared) (t u : Thread) (b : Bool)
    → s.num_threads ≡ 0
    → has_handler t ≡ false
    → has_handler u ≡ false
    → 0 < interval
    → let r = set_timer y 0 none s t in
      let r' = set_timer y interval (some handler) r.0 u in
      (r.0.num_threads ≡ 4294967295) × (ours b (r.2 ++ r'.2) ≡ b) × (has_handler r'.1 ≡ true)
unfolding set_timer
spare_removal y interval handler s t u b z h k pos =
    let r = set_timer y 0 none s t in
    let r' = set_timer y interval (some handler) r.0 u in rw (ours-append b r.2 r'.2) (ground arith)
