-- ===== src/Timer/Exact.antt =====
-- The period of the timer that CBTF_Timer arms.
use cbtf_krell.Prelude.{ℕ, ◌+◌, ◌*◌, ◌/◌, ◌<◌, List, [], ◌∷◌, some, ◌≡◌, if◌then◌else◌, arith}
use cbtf_krell.Timer.Handler.{
  Shared, Thread, System, Action, set_time, set_itimer, set_timer, set_timer_signal, seconds,
  nanoseconds, microseconds,
}

-- The period, in nanoseconds, that the last setting of a timer leaves.
abbrev pub period : ℕ → List Action → ℕ
period n [] = n
period n (set_time _ sec nsec ∷ acts) = period (sec * 1000000000 + nsec) acts
period n (set_itimer sec usec ∷ acts) = period (sec * 1000000000 + usec * 1000) acts
period n (_ ∷ acts) = period n acts

interval_exact : (i : ℕ) → seconds i * 1000000000 + nanoseconds i ≡ i
interval_exact i = omega arith

interval_rounded : (i : ℕ) → seconds i * 1000000000 + microseconds i * 1000 ≡ i / 1000 * 1000
interval_rounded i = omega arith

period-set_timer :
    (y : System) (interval handler n : ℕ) (s : Shared) (t : Thread)
    → 0 < interval
    → period n (set_timer y interval (some handler) s t).2 ≡ (
        if (set_timer_signal y s).use_posix_timer
        then seconds interval * 1000000000 + nanoseconds interval
        else seconds interval * 1000000000 + microseconds interval * 1000)
unfolding set_timer
period-set_timer y interval handler n s t h = ground arith

-- Enabling a timer of an interval above 0, whatever the system answers: with POSIX timers the timer
-- that is armed last has exactly that period; with the interval timer, which counts microseconds, its
-- period is the interval rounded down to a whole microsecond.
pub armed_as_asked :
    (y : System) (interval handler n : ℕ) (s : Shared) (t : Thread)
    → 0 < interval
    → period n (set_timer y interval (some handler) s t).2
      ≡ (if (set_timer_signal y s).use_posix_timer then interval else interval / 1000 * 1000)
armed_as_asked y interval handler n s t h = ground (
  arith,
  period-set_timer y interval handler n s t h,
  interval_exact interval,
  interval_rounded interval,
)
