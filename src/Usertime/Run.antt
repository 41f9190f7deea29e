-- ===== src/Usertime/Run.antt =====
-- Runs of the user time collector in one thread: no sample is lost and none is made up.
use cbtf_krell.Prelude.{
  ℕ, ◌+◌, ◌≤◌, Bool, true, false, List, [], ◌∷◌, ◌++◌, Option, ◌≡◌, refl, subst, sym, if◌then◌else◌,
  length, arith, Bool-cases, inl, inr,
}
use cbtf_krell.Usertime.Types.{Tls, Action, Layout, Unwound, walked, faulted}
use cbtf_krell.Usertime.Collector.{
  frames_of, unwound, record_stack, service_timer_handler, collector_pause, collector_resume,
  ompt_thread_idle, ompt_thread_barrier, ompt_thread_wait_barrier,
}
use cbtf_krell.Usertime.Buffer.{held, IsValid}
use cbtf_krell.Usertime.Counts.{sent, record_stack-Gains}

pub data Event : Type 0 where
  tick : ℕ → ℕ → Option ℕ → Unwound → Event
  pause resume : Event
  idle barrier wait_barrier : Bool → Event

unfoldable pub step : ℕ → Layout → Event → Tls → Tls × List Action
unfolding service_timer_handler collector_pause collector_resume ompt_thread_idle
    ompt_thread_barrier ompt_thread_wait_barrier
step cap y (tick now later rank w) t = service_timer_handler cap y now later rank w t
step cap y pause t = collector_pause t
step cap y resume t = collector_resume t
step cap y (idle b) t = (ompt_thread_idle b t, [])
step cap y (barrier b) t = (ompt_thread_barrier b t, [])
step cap y (wait_barrier b) t = (ompt_thread_wait_barrier b t, [])

unfoldable pub run : ℕ → Layout → List Event → Tls → Tls × List Action
unfolding step
run cap y [] t = (t, [])
run cap y (e ∷ es) t =
    let (t', acts) = step cap y e t in let (t'', more) = run cap y es t' in (t'', acts ++ more)

-- The specification: a tick counts unless sampling is deferred.
abbrev pub deferred_after : Event → Bool → Bool
deferred_after pause d = true
deferred_after resume d = false
deferred_after _ d = d

abbrev pub counts_one : Bool → Event → ℕ
counts_one d (tick _ _ _ _) = if d then 0 else 1
counts_one d _ = 0

abbrev pub ticks_taken : Bool → List Event → ℕ
ticks_taken d [] = 0
ticks_taken d (e ∷ es) = counts_one d e + ticks_taken (deferred_after e d) es

-- Every unwinding succeeds with at least one frame and no more frames than the buffer has room for.
abbrev pub IsWalked : ℕ → Event → Type 0
IsWalked cap (tick _ _ _ (walked (f ∷ fs))) = length (f ∷ fs) ≤ cap
IsWalked cap (tick _ _ _ _) = ⊥
IsWalked cap _ = Unit

abbrev pub AllWalked : ℕ → List Event → Type 0
AllWalked cap [] = Unit
AllWalked cap (e ∷ es) = IsWalked cap e × AllWalked cap es

-- What an event leaves.
pub record Counted (cap : ℕ) (e : Event) (t : Tls) (r : Tls × List Action) : Type 0 where
  pub valid : IsValid cap r.0
  pub balance : held r.0 + sent r.1 ≡ held t + counts_one t.defer_sampling e
  pub flag : r.0.defer_sampling ≡ deferred_after e t.defer_sampling

IsValid-unwound :
    {cap : ℕ} (fs : List ℕ) (t : Tls) → IsValid cap t → IsValid cap (unwound (walked fs) t)
unfolding unwound
IsValid-unwound fs t v = record {
  stacks_size = v.stacks_size;
  counts_size = v.counts_size;
  same_len = v.same_len;
  len_le = v.len_le;
  bytes = v.bytes;
}

step-on :
    (size : ℕ) (y : Layout) (now later : ℕ) (rank : Option ℕ) (w : Unwound) (t : Tls)
    → t.defer_sampling ≡ false
    → step size y (tick now later rank w) t
      ≡ record_stack size y now later rank (frames_of y t w) (unwound w t)
unfolding step
step-on size y now later rank w t on = simp on refl

step-off :
    (size : ℕ) (y : Layout) (now later : ℕ) (rank : Option ℕ) (w : Unwound) (t : Tls)
    → t.defer_sampling ≡ true
    → step size y (tick now later rank w) t ≡ (t, [])
unfolding step
step-off size y now later rank w t off = simp off refl

tick_on :
    {cap : ℕ} (y : Layout) (now later : ℕ) (rank : Option ℕ) (f : ℕ) (fs : List ℕ) (t : Tls)
    → IsValid cap t
    → length (f ∷ fs) ≤ cap
    → t.defer_sampling ≡ false
    → Counted cap (tick now later rank (walked (f ∷ fs))) t (
        record_stack cap y now later rank
          (frames_of y t (walked (f ∷ fs)))
          (unwound (walked (f ∷ fs)) t))
unfolding frames_of unwound
tick_on y now later rank f fs t v h on =
    let g =
      record_stack-Gains y now later rank _ fs (unwound (walked (f ∷ fs)) t)
        (IsValid-unwound (f ∷ fs) t v) h in
    record { valid = g.valid; balance = ground (arith, g.balance, on); flag = g.flag }

pub step-Counted :
    {cap : ℕ} (y : Layout) (e : Event) (t : Tls)
    → IsValid cap t
    → IsWalked cap e
    → Counted cap e t (step cap y e t)
unfolding step
step-Counted {cap} y (tick now later rank (walked (f ∷ fs))) t v w =
    let e = tick now later rank (walked (f ∷ fs)) in
    elim (Bool-cases t.defer_sampling) [
      | inr on ↦
          subst (Counted cap e t) (sym (step-on cap y now later rank (walked (f ∷ fs)) t on))
            (tick_on y now later rank f fs t v w on)
      | inl off ↦
          subst (Counted cap e t) (sym (step-off cap y now later rank (walked (f ∷ fs)) t off))
            (record { valid = v; balance = ground (arith, off); flag = refl })
    ]
step-Counted y (tick now later rank (walked [])) t v w = absurd w
step-Counted y (tick now later rank faulted) t v w = absurd w
step-Counted y e t v w = record {
  valid = record {
    stacks_size = v.stacks_size;
    counts_size = v.counts_size;
    same_len = v.same_len;
    len_le = v.len_le;
    bytes = v.bytes;
  };
  balance = omega arith;
  flag = refl;
}
