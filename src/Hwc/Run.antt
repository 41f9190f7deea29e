-- ===== src/Hwc/Run.antt =====
-- A run of the hwc collector in one thread, and an independent count of the samples that each address
-- is charged with.
use cbtf_krell.Prelude.{
  ℕ, ◌+◌, Bool, true, false, List, [], ◌∷◌, ◌++◌, Option, some, ◌==◌, if◌then◌else◌, length,
}
use cbtf_krell.PcData.Tally.{tally}
use cbtf_krell.Pcsamp.Collector.{Blame}
use cbtf_krell.Pcsamp.Run.{Mode, culprit, ◌>>=◌}
use cbtf_krell.Hwc.Collector.{
  State, Action, hwc_papi_handler, collector_record_addr, collector_pause, collector_resume,
  ompt_thread_idle, ompt_thread_barrier, ompt_thread_wait_barrier, hwc_collector_events_start,
  hwc_collector_events_stop,
}

-- An overflow carries the two times and the rank that a send would read, and the address of the
-- interrupted thread; `record_addr` carries its argument.
pub data Event : Type 0 where
  overflow record_addr : ℕ → ℕ → Option ℕ → ℕ → Event
  pause resume events_start events_stop : Event
  idle barrier wait_barrier : Bool → Event

unfoldable pub step : ℕ → ℕ → Blame → Event → State → Option (State × List Action)
unfolding hwc_papi_handler collector_record_addr collector_pause collector_resume ompt_thread_idle
    ompt_thread_barrier ompt_thread_wait_barrier hwc_collector_events_start
    hwc_collector_events_stop
step cap hsize f (overflow now later rank pc) s = hwc_papi_handler cap hsize f now later rank pc s
step cap hsize f (record_addr now later rank addr) s =
    collector_record_addr cap hsize now later rank addr s
step cap hsize f pause s = some (collector_pause s, [])
step cap hsize f resume s = some (collector_resume s, [])
step cap hsize f events_start s = some (s, hwc_collector_events_start s)
step cap hsize f events_stop s = some (s, hwc_collector_events_stop s)
step cap hsize f (idle b) s = some (ompt_thread_idle b s, [])
step cap hsize f (barrier b) s = some (ompt_thread_barrier b s, [])
step cap hsize f (wait_barrier b) s = some (ompt_thread_wait_barrier b s, [])

unfoldable pub run : ℕ → ℕ → Blame → List Event → State → Option (State × List Action)
run cap hsize f [] s = some (s, [])
run cap hsize f (e ∷ es) s = do
  r ← step cap hsize f e s
  r' ← run cap hsize f es r.0
  some (r'.0, r.1 ++ r'.1)

-- The counts that the blobs among the actions hold for an address.
abbrev pub sent : ℕ → List Action → ℕ
sent q [] = 0
sent q (Action.send b ∷ acts) = tally q (length b.pcs) b.pcs b.counts + sent q acts
sent q (_ ∷ acts) = sent q acts

-- The specification. An address that is recorded is charged whatever the flags, and ends a pause.
abbrev pub mode_after : Event → Mode → Mode
mode_after (record_addr _ _ _ _) m = record m { deferred = false }
mode_after pause m = record m { deferred = true }
mode_after resume m = record m { deferred = false }
mode_after (idle b) m = record m { is_idle = b }
mode_after (barrier b) m = record m { at_barrier = b }
mode_after (wait_barrier b) m = record m { at_wait_barrier = b }
mode_after _ m = m

abbrev pub charge : Blame → ℕ → Mode → Event → ℕ
charge f q m (overflow _ _ _ pc) = if m.deferred then 0 else if culprit f m pc == q then 1 else 0
charge f q m (record_addr _ _ _ addr) = if addr == q then 1 else 0
charge f q m _ = 0

-- How often an address is charged over a sequence of events.
abbrev pub charges : Blame → ℕ → Mode → List Event → ℕ
charges f q m [] = 0
charges f q m (e ∷ es) = charge f q m e + charges f q (mode_after e m) es
