-- ===== src/Hwc/Conserve.antt =====
-- No sample is lost and none is made up: what the hwc collector sends and still holds is what was
-- charged.
use cbtf_krell.Prelude.{
  ℕ, ◌+◌, ◌<◌, true, false, List, [], ◌∷◌, ◌++◌, Option, some, ◌≡◌, refl, arith, ap, Bool-cases,
  ◌∙◌, inl, inr, if◌then◌else◌, ◌==◌,
}
use cbtf_krell.PcData.Invariant.{IsValid}
use cbtf_krell.PcData.Update.{update_pc_data_total}
use cbtf_krell.PcData.Tally.{samples_of, samples_of-update_pc_data}
use cbtf_krell.Pcsamp.Collector.{Blame, charged_to}
use cbtf_krell.Pcsamp.Run.{Mode, mode_of, ◌>>=◌}
use cbtf_krell.Pcsamp.Send.{Ready, IsValid-Sized, initialize_data-Ready, tally-take}
use cbtf_krell.Pcsamp.Collector.{filled_in}
use cbtf_krell.Hwc.Collector.{
  State, Action, send_samples, take_sample, hwc_papi_handler, with_deferral, ompt_thread_idle,
  ompt_thread_barrier, ompt_thread_wait_barrier,
}
use cbtf_krell.Hwc.Run.{Event, overflow, record_addr, step, run, sent, mode_after, charge, charges}

pub sent-append : (q : ℕ) (xs ys : List Action) → sent q (xs ++ ys) ≡ sent q xs + sent q ys
sent-append q [] ys = omega arith
sent-append q (Action.send b ∷ xs) ys = omega (arith, sent-append q xs ys)
sent-append q (_ ∷ xs) ys = sent-append q xs ys

-- A send moves what the buffer holds to the blob.
pub record Flushed (cap hsize : ℕ) (s : State) (r : State × List Action) : Type 0 where
  pub ready : Ready cap hsize r.0.tls
  pub all_sent : (q : ℕ) → sent q r.1 ≡ samples_of s.tls.buffer q
  pub none_left : (q : ℕ) → samples_of r.0.tls.buffer q ≡ 0
  pub mode : mode_of r.0.tls ≡ mode_of s.tls
  pub event_set : r.0.event_set ≡ s.event_set
  pub init_done : r.0.papi_init_done ≡ s.papi_init_done

pub send_samples_lem :
    {cap hsize : ℕ} (now later : ℕ) (rank : Option ℕ) (s : State)
    → 0 < cap
    → IsValid cap hsize s.tls.buffer
    → Flushed cap hsize s (send_samples now later rank s)
unfolding send_samples
send_samples_lem now later rank s h v =
    let b = s.tls.buffer in
    record {
      ready = initialize_data-Ready h later (filled_in now rank s.tls) (IsValid-Sized v);
      all_sent =
          λ q. omega (arith, tally-take q b.len b.pc b.count, v.len_le, v.pc_size, v.count_size);
      none_left = λ q. refl;
      mode = refl;
      event_set = refl;
      init_done = refl;
    }

-- A sample of the address `x`: it is taken, and what is sent and held grows by it.
record Taken (cap hsize x : ℕ) (s : State) (r : State × List Action) : Type 0 where
  ready : Ready cap hsize r.0.tls
  balance :
      (q : ℕ)
      → samples_of r.0.tls.buffer q + sent q r.1
        ≡ samples_of s.tls.buffer q + (if x == q then 1 else 0)
  mode : mode_of r.0.tls ≡ mode_of s.tls
  event_set : r.0.event_set ≡ s.event_set
  init_done : r.0.papi_init_done ≡ s.papi_init_done

take_sample_lem :
    {cap hsize : ℕ} (now later x : ℕ) (rank : Option ℕ) (s : State)
    → 0 < cap
    → Ready cap hsize s.tls
    → (r : State × List Action) × (take_sample cap hsize now later rank x s ≡ some r)
      × Taken cap hsize x s r
unfolding take_sample
take_sample_lem now later x rank s h y =
    let (p, found, valid, flag) = update_pc_data_total s.tls.buffer x y.valid y.room in
    let counted = λ (q : ℕ). samples_of-update_pc_data s.tls.buffer x q y.valid y.room found in
    let u : State = record s { tls = record s.tls { buffer = p.0 } } in
    elim (Bool-cases p.1) [
      | inl full ↦
          let c = send_samples_lem now later rank u h valid in
          (
            send_samples now later rank u,
            ground (arith, found, full),
            record {
              ready = c.ready;
              balance = λ q. ground (arith, counted q, c.all_sent q, c.none_left q);
              mode = c.mode;
              event_set = c.event_set;
              init_done = c.init_done;
            },
          )
      | inr open_still ↦ (
        (u, []),
        ground (arith, found, open_still),
        record {
          ready = record { valid = valid; room = ground (arith, flag, open_still, valid.len_le) };
          balance = λ q. ground (arith, counted q);
          mode = refl;
          event_set = refl;
          init_done = refl;
        },
      )
    ]

-- The thread is ready for an event: PAPI is initialised, and there is an event set.
pub record Armed (cap hsize set : ℕ) (s : State) : Type 0 where
  pub ready : Ready cap hsize s.tls
  pub event_set : s.event_set ≡ some set
  pub init_done : s.papi_init_done ≡ true

-- One event: it is carried out, the thread is ready for the next, its flags are those of the
-- specification, and what is sent and held grows by what is charged.
pub record Carried (cap hsize set : ℕ) (f : Blame) (e : Event) (s : State) (r : State × List Action)
    : Type 0 where
  pub done : step cap hsize f e s ≡ some r
  pub armed : Armed cap hsize set r.0
  pub mode : mode_of r.0.tls ≡ mode_after e (mode_of s.tls)
  pub balance :
      (q : ℕ)
      → samples_of r.0.tls.buffer q + sent q r.1
        ≡ samples_of s.tls.buffer q + charge f q (mode_of s.tls) e

-- What an event leaves that takes no sample.
abbrev quiet : Event → State → State × List Action
quiet Event.pause s = (with_deferral true s, [])
quiet Event.resume s = (with_deferral false s, [])
quiet Event.events_start s = (s, Action.start_counters s.event_set ∷ [])
quiet Event.events_stop s = (s, Action.stop_counters s.event_set ∷ [])
quiet (Event.idle b) s = (ompt_thread_idle b s, [])
quiet (Event.barrier b) s = (ompt_thread_barrier b s, [])
quiet (Event.wait_barrier b) s = (ompt_thread_wait_barrier b s, [])
quiet e s = (s, [])

hwc_papi_handler-taken :
    (cap hsize : ℕ) (f : Blame) (now later pc : ℕ) (rank : Option ℕ) (s : State)
    (r : State × List Action)
    → s.tls.defer_sampling ≡ false
    → take_sample cap hsize now later rank (charged_to f s.tls pc) s ≡ some r
    → hwc_papi_handler cap hsize f now later rank pc s ≡ some r
unfolding hwc_papi_handler
hwc_papi_handler-taken cap hsize f now later pc rank s r on taken = rw (taken, on) refl

module _ {cap hsize set : ℕ} (some_room : 0 < cap) (f : Blame) (s : State)
    (y : Armed cap hsize set s) where
  step-Carried : (e : Event) → (r : State × List Action) × Carried cap hsize set f e s r
  unfolding step charged_to
  step-Carried (overflow now later rank pc) = elim (Bool-cases s.tls.defer_sampling) [
    | inr on ↦
        let x = charged_to f s.tls pc in
        let (r, taken, c) = take_sample_lem now later x rank s some_room y.ready in
        (
          r,
          record {
            done = hwc_papi_handler-taken cap hsize f now later pc rank s r on taken;
            armed = record {
              ready = c.ready;
              event_set = c.event_set ∙ y.event_set;
              init_done = c.init_done ∙ y.init_done;
            };
            mode = c.mode;
            balance = λ q. ground (arith, c.balance q, on);
          },
        )
    | inl off ↦ (
      (s, []),
      record { done = rw off refl; armed = y; mode = refl; balance = λ q. ground (arith, off) },
    )
  ]
  step-Carried (record_addr now later rank addr) =
      let ready : Ready cap hsize (with_deferral true s).tls = record {
        valid = y.ready.valid;
        room = y.ready.room;
      } in
      let (r, taken, c) =
        take_sample_lem now later addr rank (with_deferral true s) some_room ready in
      (
        (with_deferral false r.0, r.1),
        record {
          done = ground (arith, taken);
          armed = record {
            ready = record { valid = c.ready.valid; room = c.ready.room };
            event_set = c.event_set ∙ y.event_set;
            init_done = c.init_done ∙ y.init_done;
          };
          mode = ap (λ (m : Mode). record m { deferred = false }) c.mode;
          balance = λ q. omega (arith, c.balance q);
        },
      )
  step-Carried e = (
    quiet e s,
    record {
      done = rw y.init_done refl;
      armed = record {
        ready = record { valid = y.ready.valid; room = y.ready.room };
        event_set = y.event_set;
        init_done = y.init_done;
      };
      mode = refl;
      balance = λ q. omega arith;
    },
  )

-- What a sequence of events does from a state.
pub record Balanced (cap hsize set : ℕ) (f : Blame) (es : List Event) (s : State)
    (r : State × List Action) : Type 0 where
  pub done : run cap hsize f es s ≡ some r
  pub armed : Armed cap hsize set r.0
  pub balance :
      (q : ℕ)
      → samples_of r.0.tls.buffer q + sent q r.1
        ≡ samples_of s.tls.buffer q + charges f q (mode_of s.tls) es

pub charges-mode :
    (f : Blame) (q : ℕ) (es : List Event) (m n : Mode) → m ≡ n → charges f q m es ≡ charges f q n es
charges-mode f q es m n e = ap (λ k. charges f q k es) e

-- Every sequence of events is carried out to its end, and what is held and sent has grown by what
-- was charged.
pub run-Balanced :
    {cap hsize set : ℕ} (f : Blame) (es : List Event) (s : State)
    → 0 < cap
    → Armed cap hsize set s
    → (r : State × List Action) × Balanced cap hsize set f es s r
unfolding run
run-Balanced f [] s h y = ((s, []), record { done = refl; armed = y; balance = λ q. omega arith })
run-Balanced f (e ∷ es) s h y =
    let (r, c) = step-Carried h f s y e in
    let (r', b) = run-Balanced f es r.0 h c.armed in
    (
      (r'.0, r.1 ++ r'.1),
      record {
        done = rw (c.done, ◌>>=◌) (rw (b.done, ◌>>=◌));
        armed = b.armed;
        balance = λ q. omega (
          arith,
          sent-append q r.1 r'.1,
          c.balance q,
          b.balance q,
          charges-mode f q es (mode_of r.0.tls) (mode_after e (mode_of s.tls)) c.mode,
        );
      },
    )
