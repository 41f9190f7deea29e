-- ===== src/Hwctime/Run.antt =====
-- Runs of the hwctime collector in one thread, and that they go along with runs of the usertime
-- collector: the same buffer, and the same samples sent.
use cbtf_krell.Prelude.{ℕ, ◌+◌, true, List, [], ◌∷◌, ◌++◌, ◌≡◌, refl, ◌∙◌, subst, length, arith}
use cbtf_krell.Usertime.Types.{Tls, Layout, Action as Asked}
use cbtf_krell.Usertime.Buffer.{total}
use cbtf_krell.Usertime.Counts as Stacks
use cbtf_krell.Usertime.Run as Timed
use cbtf_krell.Usertime.Run.{Event, tick}
use cbtf_krell.Usertime.Collector as Old
use cbtf_krell.Hwctime.Collector.{
  State, Action, sends, hwctime_papi_handler, collector_pause, collector_resume, ompt_thread_idle,
  ompt_thread_barrier, ompt_thread_wait_barrier,
}

unfoldable pub step : ℕ → Layout → Event → State → State × List Action
unfolding hwctime_papi_handler collector_pause collector_resume ompt_thread_idle ompt_thread_barrier
    ompt_thread_wait_barrier
step cap y (tick now later rank w) s = hwctime_papi_handler cap y now later rank w s
step cap y Event.pause s = (collector_pause s, [])
step cap y Event.resume s = (collector_resume s, [])
step cap y (Event.idle b) s = (ompt_thread_idle b s, [])
step cap y (Event.barrier b) s = (ompt_thread_barrier b s, [])
step cap y (Event.wait_barrier b) s = (ompt_thread_wait_barrier b s, [])

unfoldable pub run : ℕ → Layout → List Event → State → State × List Action
unfolding step
run cap y [] s = (s, [])
run cap y (e ∷ es) s =
    let (s', acts) = step cap y e s in let (s'', more) = run cap y es s' in (s'', acts ++ more)

-- The samples that the blobs among the actions hold.
abbrev pub sent : List Action → ℕ
sent [] = 0
sent (Action.send b ∷ acts) = total (length b.counts) b.counts + sent acts
sent (_ ∷ acts) = sent acts

pub sent-append : (xs ys : List Action) → sent (xs ++ ys) ≡ sent xs + sent ys
sent-append [] ys = omega arith
sent-append (Action.send b ∷ xs) ys = omega (arith, sent-append xs ys)
sent-append (_ ∷ xs) ys = sent-append xs ys

pub sent-sends : (acts : List Asked) → sent (sends acts) ≡ Stacks.sent acts
sent-sends [] = refl
sent-sends (Asked.send b ∷ acts) = omega (arith, sent-sends acts)
sent-sends (_ ∷ acts) = sent-sends acts

-- A state goes along with a record of usertime's.
pub record Along (s : State) (r : State × List Action) (q : Tls × List Asked) : Type 0 where
  pub same : r.0.tls ≡ q.0
  pub same_sent : sent r.1 ≡ Stacks.sent q.1
  pub event_set : r.0.event_set ≡ s.event_set
  pub init_done : r.0.papi_init_done ≡ s.papi_init_done

module _ (cap : ℕ) (y : Layout) where
  step-Along :
      (e : Event) (s : State)
      → s.papi_init_done ≡ true
      → Along s (step cap y e s) (Timed.step cap y e s.tls)
  unfolding step Timed.step
  step-Along (tick now later rank w) s done =
      let q = Old.service_timer_handler cap y now later rank w s.tls in
      record { same = refl; same_sent = sent-sends q.1; event_set = refl; init_done = refl }
  step-Along Event.pause s done =
      rw done (record { same = refl; same_sent = refl; event_set = refl; init_done = refl })
  step-Along Event.resume s done =
      rw done (record { same = refl; same_sent = refl; event_set = refl; init_done = refl })
  step-Along e s done = record { same = refl; same_sent = refl; event_set = refl; init_done = refl }

  pub run-Along :
      (es : List Event) (s : State)
      → s.papi_init_done ≡ true
      → Along s (run cap y es s) (Timed.run cap y es s.tls)
  unfolding run Timed.run
  run-Along [] s done = record { same = refl; same_sent = refl; event_set = refl; init_done = refl }
  run-Along (e ∷ es) s done =
      let r = step cap y e s in
      let q = Timed.step cap y e s.tls in
      let a = step-Along e s done in
      let b : Along r.0 (run cap y es r.0) (Timed.run cap y es q.0) =
        subst (λ t. Along r.0 (run cap y es r.0) (Timed.run cap y es t)) a.same
          (run-Along es r.0 (a.init_done ∙ done)) in
      record {
        same = b.same;
        same_sent = omega (
          arith,
          sent-append r.1 (run cap y es r.0).1,
          Stacks.sent-append q.1 (Timed.run cap y es q.0).1,
          a.same_sent,
          b.same_sent,
        );
        event_set = b.event_set ∙ a.event_set;
        init_done = b.init_done ∙ a.init_done;
      }
