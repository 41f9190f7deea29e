-- ===== src/Hwcsamp/Conserve.antt =====
-- No sample and no hardware count is lost, and none is made up: what the hwcsamp collector sends and
-- still holds is what was charged.
use cbtf_krell.Prelude.{
  ℕ, ◌+◌, ◌%◌, ◌^◌, ◌<◌, true, false, List, [], ◌∷◌, ◌++◌, some, ◌≡◌, refl, arith, ap, ◌∙◌,
  Bool-cases, inl, inr,
}
use cbtf_krell.PcData.Tally.{samples_of}
use cbtf_krell.PcData.Events.{events_of}
use cbtf_krell.Pcsamp.Collector.{Blame}
use cbtf_krell.Pcsamp.Run.{◌>>=◌}
use cbtf_krell.Hwcsamp.Papi.{cbtf_stop, Reading}
use cbtf_krell.Hwcsamp.Values.{length-cbtf_stop, get_or-cbtf_stop}
use cbtf_krell.Hwcsamp.Collector.{
  State, Action, collector_pause, collector_resume, ompt_thread_idle, ompt_thread_barrier,
  ompt_thread_wait_barrier, hwcsamp_timer_handler,
}
use cbtf_krell.Hwcsamp.Run.{
  Event, tick, step, run, sent, sent_events, Watch, watch_after, charges, event_charges, watch_of,
}
use cbtf_krell.Hwcsamp.Send.{sent-append, sent_events-append}
use cbtf_krell.Hwcsamp.Tick.{Ready, Carried, tick_taken}

-- What an event that sets a flag leaves.
abbrev flagged : Event → State → State
flagged (Event.idle b) s = ompt_thread_idle b s
flagged (Event.barrier b) s = ompt_thread_barrier b s
flagged (Event.wait_barrier b) s = ompt_thread_wait_barrier b s
flagged e s = s

module _ {cap hsize set : ℕ} (some_room : 0 < cap) (f : Blame) (s : State)
    (y : Ready cap hsize set s) where
  -- A pause, which stops the counters of the event set.
  pause-Carried :
      (reading : Reading)
      → (r : State × List Action) × Carried cap hsize set f (Event.pause reading) s r
  unfolding step collector_pause
  pause-Carried reading =
      let evalues = cbtf_stop s.tls.event_set reading s.evalues in
      (
        (
          record s { evalues = evalues; tls = record s.tls { defer_sampling = true } },
          Action.block_signal ∷ Action.stop_counters s.tls.event_set ∷ [],
        ),
        record {
          done = rw y.init_done refl;
          ready = record {
            valid = y.valid;
            rows = y.rows;
            room = y.room;
            values_size =
                length-cbtf_stop s.tls.event_set y.event_set reading s.evalues ∙ y.values_size;
            event_set = y.event_set;
            init_done = y.init_done;
          };
          watch = λ k h.
              ap (λ n. record { mode = record (watch_of k s).mode { deferred = true }; left = n })
                (get_or-cbtf_stop s.tls.event_set y.event_set reading s.evalues k
                  (omega (arith, y.values_size)));
          balance = λ k q. omega arith;
          event_balance = λ k q h. omega arith;
        },
      )

  -- An event that changes a flag only.
  resume-Carried : (r : State × List Action) × Carried cap hsize set f Event.resume s r
  unfolding step collector_resume
  resume-Carried = (
    (
      record s { tls = record s.tls { defer_sampling = false } },
      Action.unblock_signal ∷ Action.start_counters s.tls.event_set ∷ [],
    ),
    record {
      done = rw y.init_done refl;
      ready = record {
        valid = y.valid;
        rows = y.rows;
        room = y.room;
        values_size = y.values_size;
        event_set = y.event_set;
        init_done = y.init_done;
      };
      watch = λ k h. refl;
      balance = λ k q. omega arith;
      event_balance = λ k q h. omega arith;
    },
  )

  step-Carried : (e : Event) → (r : State × List Action) × Carried cap hsize set f e s r
  unfolding step hwcsamp_timer_handler ompt_thread_idle ompt_thread_barrier ompt_thread_wait_barrier
  step-Carried (tick now later rank pc counted) = elim (Bool-cases s.tls.defer_sampling) [
    | inr on ↦ tick_taken some_room f s y now later pc rank counted on
    | inl off ↦ (
      (s, []),
      record {
        done = rw off refl;
        ready = y;
        watch = λ k h. rw off refl;
        balance = λ k q. ground (arith, off);
        event_balance = λ k q h. ground (arith, off);
      },
    )
  ]
  step-Carried (Event.pause reading) = pause-Carried reading
  step-Carried Event.resume = resume-Carried
  step-Carried e = (
    (flagged e s, []),
    record {
      done = refl;
      ready = record {
        valid = y.valid;
        rows = y.rows;
        room = y.room;
        values_size = y.values_size;
        event_set = y.event_set;
        init_done = y.init_done;
      };
      watch = λ k h. refl;
      balance = λ k q. omega arith;
      event_balance = λ k q h. omega arith;
    },
  )

-- What a sequence of events does from a state.
pub record Balanced (cap hsize set : ℕ) (f : Blame) (es : List Event) (s : State)
    (r : State × List Action) : Type 0 where
  pub done : run cap hsize f es s ≡ some r
  pub ready : Ready cap hsize set r.0
  pub balance :
      (k q : ℕ)
      → k < 6
      → samples_of r.0.tls.buffer.samples q + sent q r.1
        ≡ samples_of s.tls.buffer.samples q + charges f k q (watch_of k s) es
  pub event_balance :
      (k q : ℕ)
      → k < 6
      → (events_of r.0.tls.buffer k q + sent_events k q r.1) % 2 ^ 64
        ≡ (events_of s.tls.buffer k q + event_charges f k q (watch_of k s) es) % 2 ^ 64

pub charges-watch :
    (f : Blame) (k q : ℕ) (es : List Event) (v w : Watch)
    → v ≡ w
    → charges f k q v es ≡ charges f k q w es
charges-watch f k q es v w e = ap (λ x. charges f k q x es) e

pub event_charges-watch :
    (f : Blame) (k q : ℕ) (es : List Event) (v w : Watch)
    → v ≡ w
    → event_charges f k q v es ≡ event_charges f k q w es
event_charges-watch f k q es v w e = ap (λ x. event_charges f k q x es) e

-- Every sequence of events is carried out to its end, and what is held and sent has grown by what
-- was charged.
pub run_conserves_events :
    {cap hsize set : ℕ} (f : Blame) (es : List Event) (s : State)
    → 0 < cap
    → Ready cap hsize set s
    → (r : State × List Action) × Balanced cap hsize set f es s r
unfolding run
run_conserves_events f [] s h y = (
  (s, []),
  record {
    done = refl;
    ready = y;
    balance = λ k q l. omega arith;
    event_balance = λ k q l. omega arith;
  },
)
run_conserves_events f (e ∷ es) s h y =
    let (r, c) = step-Carried h f s y e in
    let (r', b) = run_conserves_events f es r.0 h c.ready in
    (
      (r'.0, r.1 ++ r'.1),
      record {
        done = rw (c.done, ◌>>=◌) (rw (b.done, ◌>>=◌));
        ready = b.ready;
        balance = λ k q l. omega (
          arith,
          sent-append q r.1 r'.1,
          c.balance k q,
          b.balance k q l,
          charges-watch f k q es (watch_of k r.0) (watch_after k e (watch_of k s)) (c.watch k l),
        );
        event_balance = λ k q l. omega (
          arith,
          sent_events-append k q r.1 r'.1,
          c.event_balance k q l,
          b.event_balance k q l,
          event_charges-watch f k q es (watch_of k r.0) (watch_after k e (watch_of k s))
              (c.watch k l),
        );
      },
    )
