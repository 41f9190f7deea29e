-- ===== src/Timer/Handler.antt =====
-- services/src/timer/TimerHandler.c. A function works on the variables of the process and on the
-- record of the calling thread, and returns both with what it did to the system, in order.
use cbtf_krell.Prelude.{
  ℕ, ◌+◌, ◌-◌, ◌*◌, ◌/◌, ◌%◌, ◌^◌, Bool, true, false, not, ◌&&◌, List, [], ◌∷◌, ◌++◌, Option, none,
  some, ltb, ◌==◌, if◌then◌else◌,
}

-- The static variables; `original_sigprof_action` is only handed back to the system.
pub record Shared : Type 0 where
  pub num_threads : ℕ
  pub timer_signal : ℕ
  pub use_posix_timer : Bool
  pub init_timer_signal : Bool

-- TLS. A handler is a number, and a timer's identifier 0 is the null one.
pub record Thread : Type 0 where
  pub timer_handler : Option ℕ
  pub timerid : ℕ
  pub posix_timer_initialized : Bool

-- HAVE_POSIX_TIMERS; whether CBTF_FORCE_ITIMER_SIGNAL is set; the numbers of the two signals; and the
-- timer that `timer_create` makes, if it succeeds.
pub record System : Type 0 where
  pub have_posix_timers : Bool
  pub force_itimer : Bool
  pub realtime_signal : ℕ
  pub itimer_signal : ℕ
  pub created : Option ℕ

pub data Action : Type 0 where
  install_handler restore_handler : ℕ → Action
  create_timer : ℕ → Action
  set_time : ℕ → ℕ → ℕ → Action
  delete_timer : ℕ → Action
  set_itimer : ℕ → ℕ → Action
  block unblock : ℕ → Action
  call_handler : ℕ → Action

abbrev pub Effect : Type 0
Effect = Shared × Thread × List Action

-- `signalHandler`
unfoldable pub signal_handler : Thread → List Action
signal_handler t = elim t.timer_handler [ none ↦ [] | some h ↦ call_handler h ∷ [] ]

-- CBTF_SetTimerSignal
unfoldable pub set_timer_signal : System → Shared → Shared
set_timer_signal y s =
    if s.init_timer_signal
    then s
    else if y.have_posix_timers && not y.force_itimer
    then record s {
      timer_signal = y.realtime_signal;
      use_posix_timer = true;
      init_timer_signal = true;
    }
    else record s {
      timer_signal = y.itimer_signal;
      use_posix_timer = false;
      init_timer_signal = true;
    }

abbrev pub seconds : ℕ → ℕ
seconds interval = interval / 1000000000

abbrev pub nanoseconds : ℕ → ℕ
nanoseconds interval = (1000 * (interval % 1000000000)) / 1000

abbrev pub microseconds : ℕ → ℕ
microseconds interval = (interval % 1000000000) / 1000

-- The thread's own POSIX timer, made if it has none.
abbrev pub own_timer : System → Shared → Thread → Thread × List Action
own_timer y s t =
    if s.use_posix_timer && not t.posix_timer_initialized
    then elim y.created [
      | none ↦ (t, [])
      | some n ↦ (record t { timerid = n; posix_timer_initialized = true }, create_timer n ∷ [])
    ]
    else (t, [])

abbrev pub has_handler : Thread → Bool
has_handler t = elim t.timer_handler [ none ↦ false | some _ ↦ true ]

abbrev pub start_time : ℕ → Shared → Thread → List Action
start_time interval s t =
    if s.use_posix_timer
    then set_time t.timerid (seconds interval) (nanoseconds interval) ∷ []
    else set_itimer (seconds interval) (microseconds interval) ∷ []

-- The old interval timer is switched off before anything else.
abbrev pub switch_off : Shared → List Action
switch_off s = if s.use_posix_timer then [] else set_itimer 0 0 ∷ []

-- `__CBTF_Timer` with an interval above 0 and a handler.
unfoldable pub enable : System → ℕ → ℕ → Shared → Thread → Effect
enable y interval handler s t =
    let install : List Action =
      if s.num_threads == 0 then install_handler s.timer_signal ∷ [] else [] in
    let (t', made) = own_timer y s t in
    let n = if has_handler t then s.num_threads else (s.num_threads + 1) % 2 ^ 32 in
    (
      record s { num_threads = n },
      record t' { timer_handler = some handler },
      switch_off s ++ (install ++ (made ++ start_time interval s t')),
    )

-- A thread's POSIX timer is stopped and deleted.
abbrev pub drop_timer : Shared → Thread → Thread × List Action
drop_timer s t =
    if s.use_posix_timer
    then (
      record t {
        timerid = if t.posix_timer_initialized && ltb 0 t.timerid then 0 else t.timerid;
        posix_timer_initialized = false;
      },
      (if ltb 0 t.timerid then set_time t.timerid 0 0 ∷ [] else [])
          ++ (if t.posix_timer_initialized && ltb 0 t.timerid
              then delete_timer t.timerid ∷ []
              else []),
    )
    else (t, [])

-- `__CBTF_Timer` with an interval of 0 or no handler. The count is an `unsigned`.
unfoldable pub disable : Shared → Thread → Effect
disable s t =
    let (t', dropped) = drop_timer s t in
    let n = (s.num_threads + (2 ^ 32 - 1)) % 2 ^ 32 in
    (
      record s { num_threads = n },
      record t' { timer_handler = none },
      switch_off s ++ (dropped ++ (if n == 0 then restore_handler s.timer_signal ∷ [] else [])),
    )

-- CBTF_Timer; a thread that enables a timer forgets the one that it may have.
unfoldable pub set_timer : System → ℕ → Option ℕ → Shared → Thread → Effect
unfolding set_timer_signal enable disable
set_timer y interval none s t = disable (set_timer_signal y s) t
set_timer y interval (some handler) s t =
    if ltb 0 interval
    then enable y interval handler (set_timer_signal y s)
        (if y.have_posix_timers then record t { posix_timer_initialized = false } else t)
    else disable (set_timer_signal y s) t

-- CBTF_BlockTimerSignal and CBTF_UnBlockTimerSignal. The process's and the thread's signal mask are set
-- by different calls, to the same effect on the calling thread.
unfoldable pub block_timer_signal : System → Shared → Shared × List Action
unfolding set_timer_signal
block_timer_signal y s = let s' = set_timer_signal y s in (s', block s'.timer_signal ∷ [])

unfoldable pub unblock_timer_signal : System → Shared → Shared × List Action
unfolding set_timer_signal
unblock_timer_signal y s = let s' = set_timer_signal y s in (s', unblock s'.timer_signal ∷ [])
