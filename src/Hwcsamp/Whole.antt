-- ===== src/Hwcsamp/Whole.antt =====
-- The whole life of the hwcsamp collector in a thread, from its start to its stop.
use cbtf_krell.Header.{DataHeader}
use cbtf_krell.Prelude.{
  length-zeroed, get_or-zeroed, ℕ, zero, suc, ◌/◌, ◌%◌, ◌^◌, ◌<◌, Bool, true, false, List, [], ◌∷◌,
  ◌++◌, map, Option, none, some, ◌≡◌, refl, ◌==◌, arith, ap, Bool-cases, inl, inr, ltb, sym, ◌≢◌,
  ◌∙◌, if◌then◌else◌,
}
use cbtf_krell.PcData.{HwcPcData}
use cbtf_krell.PcData.Tally.{tally, samples_of}
use cbtf_krell.PcData.Events.{event_sum, events_of}
use cbtf_krell.Pcsamp.Collector.{Blame}
use cbtf_krell.Pcsamp.Whole.{fresh}
use cbtf_krell.Hwcsamp.Papi.{Reading, cbtf_stop}
use cbtf_krell.Hwcsamp.Collector.{
  State, Action, collector_stop, stopped, is_papi_null, initialize_data,
}
use cbtf_krell.Hwcsamp.Start.{
  Surroundings, rate_of, collector_start, initialized, running, setup_calls, counting_calls,
  words_after, events_of_param,
}
use cbtf_krell.Hwcsamp.Run.{Event, run, sent, sent_events, Watch, charges, event_charges, watch_of}
use cbtf_krell.Hwcsamp.Send.{
  SizedState, initialize_data-Emptied, send_samples_lem, sent-append, sent_events-append,
}
use cbtf_krell.Hwcsamp.Tick.{Ready}
use cbtf_krell.Hwcsamp.Conserve.{run_conserves_events, charges-watch, event_charges-watch}

abbrev pub untouched : Watch
untouched = record { mode = fresh; left = 0 }

-- Actions that send no samples.
record Silent (acts : List Action) : Type 0 where
  no_samples : (q : ℕ) → sent q acts ≡ 0
  no_events : (k q : ℕ) → sent_events k q acts ≡ 0

Silent-append : (xs ys : List Action) → Silent xs → Silent ys → Silent (xs ++ ys)
Silent-append xs ys u v = record {
  no_samples = λ q. omega (arith, sent-append q xs ys, u.no_samples q, v.no_samples q);
  no_events = λ k q. omega (arith, sent_events-append k q xs ys, u.no_events k q, v.no_events k q);
}

add_event-Silent :
    (set : Option ℕ) (words : List (List ℕ)) → Silent (map (Action.add_event set) words)
add_event-Silent set [] = record { no_samples = λ q. refl; no_events = λ k q. refl }
add_event-Silent set (w ∷ words) =
    let u = add_event-Silent set words in
    record { no_samples = λ q. u.no_samples q; no_events = λ k q. u.no_events k q }

-- The start runs at a rate other than 0.
record Started (cap hsize set : ℕ) (r : State × List Action) : Type 0 where
  ready : Ready cap hsize set r.0
  silent : Silent r.1
  watch : (k : ℕ) → watch_of k r.0 ≡ untouched
  no_samples : (q : ℕ) → samples_of r.0.tls.buffer.samples q ≡ 0
  no_events : (k q : ℕ) → events_of r.0.tls.buffer k q ≡ 0

rate_of-positive : (rate : Option ℕ) → rate ≢ some 0 → (rate_of rate == 0) ≡ false
rate_of-positive none n = refl
rate_of-positive (some zero) n = absurd (n refl)
rate_of-positive (some (suc k)) n = ground arith

Silent-if : (b : Bool) (xs ys : List Action) → Silent xs → Silent ys → Silent (if b then xs else ys)
Silent-if true xs ys u v = u
Silent-if false xs ys u v = v

start_calls-Silent :
    (env : Surroundings) (s : State) (interval : ℕ)
    → Silent (setup_calls env s ++ counting_calls env interval)
unfolding counting_calls
start_calls-Silent env s interval =
    let none_at_all : Silent [] = record { no_samples = λ q. refl; no_events = λ k q. refl } in
    Silent-append _ _
      (Silent-append _ _
        (Silent-if s.papi_init_done _ _ none_at_all
          (record { no_samples = λ q. refl; no_events = λ k q. refl }))
        (record { no_samples = λ q. refl; no_events = λ k q. refl }))
      (Silent-append _ _
        (Silent-if env.multiplex _ _ (record { no_samples = λ q. refl; no_events = λ k q. refl })
          none_at_all)
        (Silent-append _ (Action.start_counters env.created ∷ Action.start_timer interval ∷ [])
          (add_event-Silent env.created (words_after [] (events_of_param env.events)))
          (record { no_samples = λ q. refl; no_events = λ k q. refl })))

collector_start-Started :
    {cap hsize set : ℕ} (header : DataHeader) (name : ℕ) (env : Surroundings) (s : State)
    → 0 < cap
    → SizedState cap hsize s
    → env.rate ≢ some 0
    → env.created ≡ some set
    → env.assigned ≡ true
    → (r : State × List Action) × (collector_start header name env s ≡ some r)
      × Started cap hsize set r
unfolding collector_start initialize_data
collector_start-Started header name env s h z n c a =
    let interval = 1000000000 / rate_of env.rate in
    let s' = initialized header interval name env s in
    let emptied =
      initialize_data-Emptied env.now
        (record s {
          tls = record s.tls { defer_sampling = false; interval = interval; header = header };
        })
        z.arrays z.rows_size in
    (
      (running env s', setup_calls env s ++ counting_calls env interval),
      rw (rate_of-positive env.rate n, a) refl,
      record {
        ready = record {
          valid = emptied.valid;
          rows = emptied.rows;
          room = h;
          values_size = length-zeroed s.evalues ∙ z.values_size;
          event_set = c;
          init_done = refl;
        };
        silent = start_calls-Silent env s interval;
        watch = λ k. ap (λ l. record untouched { left = l }) (get_or-zeroed s.evalues k);
        no_samples = λ q. refl;
        no_events = λ k q. refl;
      },
    )

samples_of-empty : (b : HwcPcData) (q : ℕ) → b.samples.len ≡ 0 → samples_of b.samples q ≡ 0
samples_of-empty b q e = ap (λ n. tally q n b.samples.pc b.samples.count) e

events_of-empty : (b : HwcPcData) (k q : ℕ) → b.samples.len ≡ 0 → events_of b k q ≡ 0
events_of-empty b k q e = ap (λ n. event_sum k q n b.samples.pc b.hwccounts) e

-- Stopping sends what the buffer holds.
record Sends (s : State) (acts : List Action) : Type 0 where
  all_samples : (q : ℕ) → sent q acts ≡ samples_of s.tls.buffer.samples q
  all_events : (k q : ℕ) → sent_events k q acts ≡ events_of s.tls.buffer k q

stopped-Sends :
    {cap hsize set : ℕ} (ended now later : ℕ) (rank : Option ℕ) (reading : Reading) (s : State)
    → Ready cap hsize set s
    → Sends s (stopped ended now later rank reading s).1
unfolding stopped
stopped-Sends ended now later rank reading s y =
    let s' : State = record s {
      evalues = cbtf_stop s.tls.event_set reading s.evalues;
      tls = record s.tls { header = record s.tls.header { time_end = ended } };
    } in
    let c = send_samples_lem now later rank s' y.valid y.rows in
    elim (Bool-cases (ltb 0 s.tls.buffer.samples.len)) [
      | inl held ↦ record {
        all_samples = λ q. rw held (c.samples_sent q);
        all_events = λ k q. rw held (c.events_sent k q);
      }
      | inr none_held ↦
          let empty : s.tls.buffer.samples.len ≡ 0 = ground arith in
          record {
            all_samples = λ q. rw none_held (sym (samples_of-empty s.tls.buffer q empty));
            all_events = λ k q. rw none_held (sym (events_of-empty s.tls.buffer k q empty));
          }
    ]

collector_stop-stopped :
    {set : ℕ} (ended now later : ℕ) (rank : Option ℕ) (reading : Reading) (s : State)
    → s.tls.event_set ≡ some set
    → collector_stop ended now later rank reading s ≡ stopped ended now later rank reading s
unfolding collector_stop
collector_stop-stopped ended now later rank reading s e =
    let present : is_papi_null s.tls.event_set ≡ false = rw e refl in rw present refl

collector_stop-Sends :
    {cap hsize set : ℕ} (ended now later : ℕ) (rank : Option ℕ) (reading : Reading) (s : State)
    → Ready cap hsize set s
    → Sends s (collector_stop ended now later rank reading s).1
collector_stop-Sends ended now later rank reading s y =
    rw (collector_stop-stopped ended now later rank reading s y.event_set)
      (stopped-Sends ended now later rank reading s y)

-- The whole life of the collector in a thread: from arrays of the declared sizes, whatever they
-- hold, `cbtf_collector_start` at a sampling rate that is not 0, where PAPI makes an event set and
-- gives it its component, succeeds; then any sequence of ticks, pauses, resumptions and changes of the
-- OpenMP flags is carried out to its end; and when `cbtf_collector_stop` has run, the blobs that were
-- sent hold for every address exactly as many samples as ticks were charged to it, and for each of
-- the six counters, modulo 2^64, the sum of what it counted up to these ticks since the tick before,
-- where a pause replaces what has been counted by what PAPI_stop reports.
pub whole_run_sends_counts :
    {cap hsize set : ℕ} (f : Blame) (es : List Event) (s : State) (header : DataHeader) (name : ℕ)
    (env : Surroundings) (ended now later : ℕ) (rank : Option ℕ) (reading : Reading)
    → 0 < cap
    → SizedState cap hsize s
    → env.rate ≢ some 0
    → env.created ≡ some set
    → env.assigned ≡ true
    → (a : State × List Action) × (r : State × List Action) × (collector_start header name env s
        ≡ some a)
      × (run cap hsize f es a.0 ≡ some r)
      × ((k q : ℕ)
          → k < 6
          → let acts = a.1 ++ (r.1 ++ (collector_stop ended now later rank reading r.0).1) in
            (sent q acts ≡ charges f k q untouched es)
            × (sent_events k q acts % 2 ^ 64 ≡ event_charges f k q untouched es % 2 ^ 64))
whole_run_sends_counts f es s header name env ended now later rank reading h z n c g =
    let (a, started, y) = collector_start-Started header name env s h z n c g in
    let (r, b) = run_conserves_events f es a.0 h y.ready in
    let stop = (collector_stop ended now later rank reading r.0).1 in
    let last = collector_stop-Sends ended now later rank reading r.0 b.ready in
    (
      a,
      r,
      started,
      b.done,
      λ k q l. (
        omega (
          arith,
          sent-append q a.1 (r.1 ++ stop),
          sent-append q r.1 stop,
          b.balance k q l,
          y.silent.no_samples q,
          y.no_samples q,
          last.all_samples q,
          charges-watch f k q es (watch_of k a.0) untouched (y.watch k),
        ),
        omega (
          arith,
          sent_events-append k q a.1 (r.1 ++ stop),
          sent_events-append k q r.1 stop,
          b.event_balance k q l,
          y.silent.no_events k q,
          y.no_events k q,
          last.all_events k q,
          event_charges-watch f k q es (watch_of k a.0) untouched (y.watch k),
        ),
      ),
    )
