-- ===== src/Hwcsamp/Run.antt =====
-- A run of the hwcsamp collector in one thread, and what a run should send: independent sums of the
-- samples and of the hardware counts that each address is charged with.
use cbtf_krell.Prelude.{
  ℕ, ◌+◌, Bool, true, false, List, [], ◌∷◌, ◌++◌, Option, some, ◌==◌, if◌then◌else◌, length, get_or,
}
use cbtf_krell.PcData.Tally.{tally}
use cbtf_krell.PcData.Events.{event_sum}
use cbtf_krell.Pcsamp.Collector.{Blame}
use cbtf_krell.Pcsamp.Run.{Mode, culprit, ◌>>=◌}
use cbtf_krell.Hwcsamp.Papi.{Reading}
use cbtf_krell.Hwcsamp.Collector.{
  State, Action, hwcsamp_timer_handler, collector_pause, collector_resume, ompt_thread_idle,
  ompt_thread_barrier, ompt_thread_wait_barrier,
}

-- What can happen between the start and the stop of the collector. A tick carries the two times and
-- the rank that a send would read, the address of the interrupted thread, and what PAPI_accum adds.
pub data Event : Type 0 where
  tick : ℕ → ℕ → Option ℕ → ℕ → List ℕ → Event
  pause : Reading → Event
  resume : Event
  idle barrier wait_barrier : Bool → Event

unfoldable pub step : ℕ → ℕ → Blame → Event → State → Option (State × List Action)
unfolding hwcsamp_timer_handler collector_pause collector_resume ompt_thread_idle
    ompt_thread_barrier ompt_thread_wait_barrier
step cap hsize f (tick now later rank pc counted) s =
    hwcsamp_timer_handler cap hsize f now later rank pc counted s
step cap hsize f (pause reading) s = some (collector_pause reading s)
step cap hsize f resume s = some (collector_resume s)
step cap hsize f (idle b) s = some (ompt_thread_idle b s, [])
step cap hsize f (barrier b) s = some (ompt_thread_barrier b s, [])
step cap hsize f (wait_barrier b) s = some (ompt_thread_wait_barrier b s, [])

unfoldable pub run : ℕ → ℕ → Blame → List Event → State → Option (State × List Action)
run cap hsize f [] s = some (s, [])
run cap hsize f (e ∷ es) s = do
  r ← step cap hsize f e s
  r' ← run cap hsize f es r.0
  some (r'.0, r.1 ++ r'.1)

-- The samples that the blobs among the actions hold for an address.
abbrev pub sent : ℕ → List Action → ℕ
sent q [] = 0
sent q (Action.send b ∷ acts) = tally q (length b.pcs) b.pcs b.counts + sent q acts
sent q (_ ∷ acts) = sent q acts

-- The counts of counter `k` that the blobs among the actions hold for an address.
abbrev pub sent_events : ℕ → ℕ → List Action → ℕ
sent_events k q [] = 0
sent_events k q (Action.send b ∷ acts) =
    event_sum k q (length b.pcs) b.pcs b.events + sent_events k q acts
sent_events k q (_ ∷ acts) = sent_events k q acts

-- The specification: who is charged is decided by four flags, and with what by the value that
-- PAPI_stop has left since the last tick.
pub record Watch : Type 0 where
  pub mode : Mode
  pub left : ℕ

abbrev pub watch_after : ℕ → Event → Watch → Watch
watch_after k (tick _ _ _ _ _) w = if w.mode.deferred then w else record w { left = 0 }
watch_after k (pause r) w = record {
  mode = record w.mode { deferred = true };
  left = if r.stopped then w.left else get_or r.values k w.left;
}
watch_after k resume w = record w { mode = record w.mode { deferred = false } }
watch_after k (idle b) w = record w { mode = record w.mode { is_idle = b } }
watch_after k (barrier b) w = record w { mode = record w.mode { at_barrier = b } }
watch_after k (wait_barrier b) w = record w { mode = record w.mode { at_wait_barrier = b } }

-- Whether an event is a sample of an address.
abbrev pub hits : Blame → ℕ → Watch → Event → Bool
hits f q w (tick _ _ _ pc _) = if w.mode.deferred then false else culprit f w.mode pc == q
hits f q w _ = false

-- What counter `k` has counted when an event comes.
abbrev pub counted_by : ℕ → Watch → Event → ℕ
counted_by k w (tick _ _ _ _ counted) = w.left + get_or counted k 0
counted_by k w _ = 0

-- How often an address is sampled over a sequence of events, and what counter `k` counted for it.
abbrev pub charges : Blame → ℕ → ℕ → Watch → List Event → ℕ
charges f k q w [] = 0
charges f k q w (e ∷ es) = (if hits f q w e then 1 else 0) + charges f k q (watch_after k e w) es

abbrev pub event_charges : Blame → ℕ → ℕ → Watch → List Event → ℕ
event_charges f k q w [] = 0
event_charges f k q w (e ∷ es) =
    (if hits f q w e then counted_by k w e else 0) + event_charges f k q (watch_after k e w) es

abbrev pub watch_of : ℕ → State → Watch
watch_of k s = record {
  mode = record {
    deferred = s.tls.defer_sampling;
    is_idle = s.tls.thread_idle;
    at_wait_barrier = s.tls.thread_wait_barrier;
    at_barrier = s.tls.thread_barrier;
  };
  left = get_or s.evalues k 0;
}
