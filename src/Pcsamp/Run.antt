-- ===== src/Pcsamp/Run.antt =====
-- A run of the pcsamp collector in one thread, and what a run should send: an independent count of
-- the samples that each address is charged with.
use cbtf_krell.Prelude.{
  ℕ, ◌+◌, Bool, true, false, List, [], ◌∷◌, ◌++◌, Option, none, some, ◌==◌, if◌then◌else◌, length,
}
use cbtf_krell.PcData.Tally.{tally}
use cbtf_krell.Pcsamp.Collector.{
  Tls, Action, send, Blame, service_timer_handler, collector_pause, collector_resume,
  ompt_thread_idle, ompt_thread_barrier, ompt_thread_wait_barrier,
}

-- What can happen between the start and the stop of the collector. A tick carries the two times and
-- the rank that a send would read, and the address of the interrupted thread.
pub data Event : Type 0 where
  tick : ℕ → ℕ → Option ℕ → ℕ → Event
  pause resume : Event
  idle barrier wait_barrier : Bool → Event

unfoldable pub step : ℕ → ℕ → Blame → Event → Tls → Option (Tls × List Action)
unfolding service_timer_handler collector_pause collector_resume ompt_thread_idle
    ompt_thread_barrier ompt_thread_wait_barrier
step cap hsize f (tick now later rank pc) t = service_timer_handler cap hsize f now later rank pc t
step cap hsize f pause t = some (collector_pause t)
step cap hsize f resume t = some (collector_resume t)
step cap hsize f (idle b) t = some (ompt_thread_idle b t, [])
step cap hsize f (barrier b) t = some (ompt_thread_barrier b t, [])
step cap hsize f (wait_barrier b) t = some (ompt_thread_wait_barrier b t, [])

infixl 5 ◌>>=◌
abbrev pub ◌>>=◌ {ℓ κ} : {A : Type ℓ} {B : Type κ} → Option A → (A → Option B) → Option B
none >>= k = none
some a >>= k = k a

unfoldable pub run : ℕ → ℕ → Blame → List Event → Tls → Option (Tls × List Action)
run cap hsize f [] t = some (t, [])
run cap hsize f (e ∷ es) t = do
  r ← step cap hsize f e t
  r' ← run cap hsize f es r.0
  some (r'.0, r.1 ++ r'.1)

-- The counts that the blobs among the actions hold for an address.
abbrev pub sent : ℕ → List Action → ℕ
sent q [] = 0
sent q (send b ∷ acts) = tally q (length b.pcs) b.pcs b.counts + sent q acts
sent q (Action.start_timer _ ∷ acts) = sent q acts
sent q (Action.stop_timer ∷ acts) = sent q acts
sent q (Action.block_signal ∷ acts) = sent q acts
sent q (Action.unblock_signal ∷ acts) = sent q acts

-- The specification: who is charged is decided by four flags.
pub record Mode : Type 0 where
  pub deferred : Bool
  pub is_idle : Bool
  pub at_wait_barrier : Bool
  pub at_barrier : Bool

abbrev pub mode_after : Event → Mode → Mode
mode_after (tick _ _ _ _) m = m
mode_after pause m = record m { deferred = true }
mode_after resume m = record m { deferred = false }
mode_after (idle b) m = record m { is_idle = b }
mode_after (barrier b) m = record m { at_barrier = b }
mode_after (wait_barrier b) m = record m { at_wait_barrier = b }

abbrev pub culprit : Blame → Mode → ℕ → ℕ
culprit f m pc =
    if m.is_idle
    then f.idle
    else if m.at_wait_barrier
    then f.wait_barrier
    else if m.at_barrier
    then f.barrier
    else pc

abbrev pub charge : Blame → ℕ → Mode → Event → ℕ
charge f q m (tick _ _ _ pc) = if m.deferred then 0 else if culprit f m pc == q then 1 else 0
charge f q m _ = 0

-- How often an address is charged over a sequence of events.
abbrev pub charges : Blame → ℕ → Mode → List Event → ℕ
charges f q m [] = 0
charges f q m (e ∷ es) = charge f q m e + charges f q (mode_after e m) es

abbrev pub mode_of : Tls → Mode
mode_of t = record {
  deferred = t.defer_sampling;
  is_idle = t.thread_idle;
  at_wait_barrier = t.thread_wait_barrier;
  at_barrier = t.thread_barrier;
}
