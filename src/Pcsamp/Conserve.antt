-- ===== src/Pcsamp/Conserve.antt =====
-- No sample is lost and none is made up: what the pcsamp collector sends and still holds is what was
-- charged.
use cbtf_krell.Prelude.{
  ℕ, ◌+◌, ◌<◌, false, List, [], ◌∷◌, ◌++◌, Option, some, ◌≡◌, refl, arith, ap, Bool-cases, inl, inr,
}
use cbtf_krell.PcData.Update.{update_pc_data_total}
use cbtf_krell.PcData.Tally.{samples_of, samples_of-update_pc_data}
use cbtf_krell.Pcsamp.Collector.{
  Tls, Action, Blame, send_samples, charged_to, collector_pause, collector_resume, ompt_thread_idle,
  ompt_thread_barrier, ompt_thread_wait_barrier,
}
use cbtf_krell.Pcsamp.Run.{
  Event, tick, step, run, sent, Mode, mode_after, culprit, charge, charges, mode_of, ◌>>=◌,
}
use cbtf_krell.Pcsamp.Send.{Ready, send_samples_lem, sent-append}

-- One event: it is carried out, the thread is ready for the next, its flags are those of the
-- specification, and what is sent and held grows by what is charged.
pub record Carried (cap hsize : ℕ) (f : Blame) (e : Event) (t : Tls) (r : Tls × List Action)
    : Type 0 where
  pub done : step cap hsize f e t ≡ some r
  pub ready : Ready cap hsize r.0
  pub mode : mode_of r.0 ≡ mode_after e (mode_of t)
  pub balance :
      (q : ℕ)
      → samples_of r.0.buffer q + sent q r.1 ≡ samples_of t.buffer q + charge f q (mode_of t) e

-- What an event other than a tick leaves.
abbrev step_quiet : Event → Tls → Tls × List Action
step_quiet (tick _ _ _ _) t = (t, [])
step_quiet Event.pause t = collector_pause t
step_quiet Event.resume t = collector_resume t
step_quiet (Event.idle b) t = (ompt_thread_idle b t, [])
step_quiet (Event.barrier b) t = (ompt_thread_barrier b t, [])
step_quiet (Event.wait_barrier b) t = (ompt_thread_wait_barrier b t, [])

pub charges-mode :
    (f : Blame) (q : ℕ) (es : List Event) (m n : Mode) → m ≡ n → charges f q m es ≡ charges f q n es
charges-mode f q es m n e = ap (λ k. charges f q k es) e

module _ {cap hsize : ℕ} (some_room : 0 < cap) (f : Blame) (t : Tls) (y : Ready cap hsize t) where
  -- A tick of a thread that does not defer.
  tick_taken :
      (now later pc : ℕ) (rank : Option ℕ)
      → t.defer_sampling ≡ false
      → (r : Tls × List Action) × Carried cap hsize f (tick now later rank pc) t r
  unfolding step charged_to
  tick_taken now later pc rank on =
      let x = culprit f (mode_of t) pc in
      let (r, found, valid, flag) = update_pc_data_total t.buffer x y.valid y.room in
      let counted = λ (q : ℕ). samples_of-update_pc_data t.buffer x q y.valid y.room found in
      elim (Bool-cases r.1) [
        | inl full ↦
            let u : Tls = record t { buffer = r.0 } in
            let (ready, all_sent, none_left, mode) =
              send_samples_lem some_room now later rank u valid in
            (
              send_samples now later rank u,
              record {
                done = ground (arith, found, full);
                ready = ready;
                mode = mode;
                balance = λ q. ground (arith, counted q, all_sent q, none_left q);
              },
            )
        | inr open_still ↦ (
          ((record t { buffer = r.0 }), []),
          record {
            done = ground (arith, found, open_still);
            ready = record { valid = valid; room = ground (arith, flag, open_still, valid.len_le) };
            mode = refl;
            balance = λ q. ground (arith, counted q);
          },
        )
      ]

  step-Carried : (e : Event) → (r : Tls × List Action) × Carried cap hsize f e t r
  unfolding step
  step-Carried (tick now later rank pc) = elim (Bool-cases t.defer_sampling) [
    | inr on ↦ tick_taken now later pc rank on
    | inl off ↦ (
      (t, []),
      record {
        done = ground (arith, off);
        ready = y;
        mode = refl;
        balance = λ q. ground (arith, off);
      },
    )
  ]
  step-Carried e = (
    step_quiet e t,
    record {
      done = refl;
      ready = record { valid = y.valid; room = y.room };
      mode = refl;
      balance = λ q. omega arith;
    },
  )

-- What a sequence of events does from a state.
pub record Balanced (cap hsize : ℕ) (f : Blame) (es : List Event) (t : Tls) (r : Tls × List Action)
    : Type 0 where
  pub done : run cap hsize f es t ≡ some r
  pub ready : Ready cap hsize r.0
  pub balance :
      (q : ℕ)
      → samples_of r.0.buffer q + sent q r.1 ≡ samples_of t.buffer q + charges f q (mode_of t) es

-- From a thread whose buffer is valid and not full, any sequence of ticks, pauses, resumptions and
-- changes of the OpenMP flags is carried out to its end (every search in the buffer ends), the buffer
-- is valid and not full again, and for every address the counts held and sent have grown together by
-- the number of ticks charged to it: those that come while sampling is not deferred and that the
-- flags, or else the address of the interrupted thread, attribute to it.
pub run_conserves :
    {cap hsize : ℕ} (f : Blame) (es : List Event) (t : Tls)
    → 0 < cap
    → Ready cap hsize t
    → (r : Tls × List Action) × Balanced cap hsize f es t r
unfolding run
run_conserves f [] t h y = ((t, []), record { done = refl; ready = y; balance = λ q. omega arith })
run_conserves {cap} {hsize} f (e ∷ es) t h y =
    let (r, c) = step-Carried h f t y e in
    let (r', b) = run_conserves f es r.0 h c.ready in
    (
      (r'.0, r.1 ++ r'.1),
      record {
        done = rw (c.done, ◌>>=◌) (rw (b.done, ◌>>=◌));
        ready = b.ready;
        balance = λ q. omega (
          arith,
          sent-append q r.1 r'.1,
          c.balance q,
          b.balance q,
          charges-mode f q es (mode_of r.0) (mode_after e (mode_of t)) c.mode,
        );
      },
    )
