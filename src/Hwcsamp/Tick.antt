-- ===== src/Hwcsamp/Tick.antt =====
-- One tick of the hwcsamp collector: the sample goes to the buffer, and a full buffer is sent.
use cbtf_krell.Prelude.{
  zeroed, length-zeroed, get_or-zeroed, ℕ, ◌+◌, ◌%◌, ◌^◌, ◌<◌, Bool, true, false, List, Option,
  some, ◌≡◌, refl, arith, ap, ◌∙◌, if◌then◌else◌, ◌==◌, length, subst,
}
use cbtf_krell.PcData.{HwcPcData, add_events, update_hwcpc_data}
use cbtf_krell.PcData.Invariant.{IsValid}
use cbtf_krell.PcData.Tally.{samples_of}
use cbtf_krell.PcData.Events.{events_of, RowsValid, update_hwcpc_data_lem, length-add_events}
use cbtf_krell.Pcsamp.Collector.{Blame}
use cbtf_krell.Hwcsamp.Papi.{cbtf_hwc_accum}
use cbtf_krell.Hwcsamp.Values.{get_or-add_events-wraps, cbtf_hwc_accum-set}
use cbtf_krell.Hwcsamp.Collector.{
  State, Action, initialize_data, send_samples, charged_to, recorded, hwcsamp_timer_handler,
}
use cbtf_krell.Hwcsamp.Run.{
  Event, tick, step, sent, sent_events, watch_after, hits, counted_by, watch_of,
}
use cbtf_krell.Hwcsamp.Send.{send_samples_lem}

-- The buffer is valid, and has room for a sample; there are six values, and the event set `set`.
pub record Ready (cap hsize set : ℕ) (s : State) : Type 0 where
  pub valid : IsValid cap hsize s.tls.buffer.samples
  pub rows : RowsValid cap s.tls.buffer
  pub room : s.tls.buffer.samples.len < cap
  pub values_size : length s.evalues ≡ 6
  pub event_set : s.tls.event_set ≡ some set
  pub init_done : s.papi_init_done ≡ true

-- One event: it is carried out, the thread is ready for the next, its flags and values are those of
-- the specification, and what is sent and held grows by what is charged.
pub record Carried (cap hsize set : ℕ) (f : Blame) (e : Event) (s : State) (r : State × List Action)
    : Type 0 where
  pub done : step cap hsize f e s ≡ some r
  pub ready : Ready cap hsize set r.0
  pub watch : (k : ℕ) → k < 6 → watch_of k r.0 ≡ watch_after k e (watch_of k s)
  pub balance :
      (k q : ℕ)
      → samples_of r.0.tls.buffer.samples q + sent q r.1
        ≡ samples_of s.tls.buffer.samples q + (if hits f q (watch_of k s) e then 1 else 0)
  pub event_balance :
      (k q : ℕ)
      → k < 6
      → (events_of r.0.tls.buffer k q + sent_events k q r.1) % 2 ^ 64
        ≡ (events_of s.tls.buffer k q
            + (if hits f q (watch_of k s) e then counted_by k (watch_of k s) e else 0))
          % 2 ^ 64

-- What is left of a tick once the buffer holds its sample.
record Stored (cap hsize : ℕ) (u : State) (b : HwcPcData) (r : State × List Action) : Type 0 where
  valid : IsValid cap hsize r.0.tls.buffer.samples
  rows : RowsValid cap r.0.tls.buffer
  room : r.0.tls.buffer.samples.len < cap
  evalues : length r.0.evalues ≡ length u.evalues
  event_set : r.0.tls.event_set ≡ u.tls.event_set
  init_done : r.0.papi_init_done ≡ u.papi_init_done
  watch : (k : ℕ) → watch_of k r.0 ≡ record (watch_of k u) { left = 0 }
  balance : (q : ℕ) → samples_of r.0.tls.buffer.samples q + sent q r.1 ≡ samples_of b.samples q
  event_balance : (k q : ℕ) → events_of r.0.tls.buffer k q + sent_events k q r.1 ≡ events_of b k q

recorded_lem :
    {cap hsize : ℕ} (now later : ℕ) (rank : Option ℕ) (u : State) (b : HwcPcData) (full : Bool)
    → 0 < cap
    → IsValid cap hsize b.samples
    → RowsValid cap b
    → full ≡ (b.samples.len == cap)
    → Stored cap hsize u b (recorded now later rank u b full)
unfolding send_samples initialize_data
recorded_lem now later rank u b true h v w e =
    let u' : State = record u { tls = record u.tls { buffer = b } } in
    let c = send_samples_lem now later rank u' v w in
    record {
      valid = c.emptied.valid;
      rows = c.emptied.rows;
      room = omega (arith, h);
      evalues = ground (arith, length-zeroed (zeroed u.evalues), length-zeroed u.evalues);
      event_set = refl;
      init_done = refl;
      watch =
          λ k. ap (λ n. record (watch_of k u) { left = n }) (get_or-zeroed (zeroed u.evalues) k);
      balance = λ q. omega (arith, c.samples_sent q);
      event_balance = λ k q. omega (arith, c.events_sent k q);
    }
recorded_lem now later rank u b false h v w e = record {
  valid = v;
  rows = w;
  room = ground (arith, v.len_le);
  evalues = length-zeroed u.evalues;
  event_set = refl;
  init_done = refl;
  watch = λ k. ap (λ n. record (watch_of k u) { left = n }) (get_or-zeroed u.evalues k);
  balance = λ q. omega arith;
  event_balance = λ k q. omega arith;
}

-- A tick that is not deferred, once the search in the buffer has ended.
hwcsamp_timer_handler-recorded :
    (cap hsize : ℕ) (f : Blame) (now later pc : ℕ) (rank : Option ℕ) (counted evalues : List ℕ)
    (s : State) (p : HwcPcData × Bool)
    → s.tls.defer_sampling ≡ false
    → cbtf_hwc_accum s.tls.event_set counted s.evalues ≡ evalues
    → update_hwcpc_data cap hsize (charged_to f s.tls pc) evalues s.tls.buffer ≡ some p
    → hwcsamp_timer_handler cap hsize f now later rank pc counted s
      ≡ some (recorded now later rank (record s { evalues = evalues }) p.0 p.1)
unfolding hwcsamp_timer_handler
hwcsamp_timer_handler-recorded cap hsize f now later pc rank counted evalues s p on h found =
    subst
      (λ l.
        update_hwcpc_data cap hsize (charged_to f s.tls pc) l s.tls.buffer ≡ some p
        → hwcsamp_timer_handler cap hsize f now later rank pc counted s
          ≡ some (recorded now later rank (record s { evalues = l }) p.0 p.1))
      h (λ ended. rw (ended, on) refl) found

module _ {cap hsize set : ℕ} (some_room : 0 < cap) (f : Blame) (s : State)
    (y : Ready cap hsize set s) where
  -- A tick of a thread that does not defer.
  pub tick_taken :
      (now later pc : ℕ) (rank : Option ℕ) (counted : List ℕ)
      → s.tls.defer_sampling ≡ false
      → (r : State × List Action) × Carried cap hsize set f (tick now later rank pc counted) s r
  unfolding step charged_to
  tick_taken now later pc rank counted on =
      let x = charged_to f s.tls pc in
      let evalues = add_events s.evalues counted in
      let u : State = record s { evalues = evalues } in
      let six : length evalues ≡ 6 = length-add_events s.evalues counted ∙ y.values_size in
      let (p, found, valid, rows, flag, c) =
        update_hwcpc_data_lem s.tls.buffer x evalues y.valid y.rows six y.room in
      let w = recorded_lem now later rank u p.0 p.1 some_room valid rows flag in
      let r = recorded now later rank u p.0 p.1 in
      (
        r,
        record {
          done =
              hwcsamp_timer_handler-recorded cap hsize f now later pc rank counted evalues s p on
                (cbtf_hwc_accum-set s.tls.event_set y.event_set counted s.evalues) found;
          ready = record {
            valid = w.valid;
            rows = w.rows;
            room = w.room;
            values_size = w.evalues ∙ six;
            event_set = w.event_set ∙ y.event_set;
            init_done = w.init_done ∙ y.init_done;
          };
          watch = λ k h. rw (w.watch k, on) refl;
          balance = λ k q. ground (arith, c.sampled q, w.balance q);
          event_balance = λ k q h. ground (
            arith,
            c.added_up k q h,
            w.event_balance k q,
            get_or-add_events-wraps s.evalues counted k (omega (arith, y.values_size)),
          );
        },
      )
