-- ===== src/Hwc/Whole.antt =====
-- The whole life of the hwc collector in a thread, from its start to its stop.
use cbtf_krell.Header.{DataHeader}
use cbtf_krell.Prelude.{
  ℕ, ◌<◌, false, List, ◌++◌, Option, some, ◌≡◌, refl, arith, Bool-cases, inl, inr, ltb, sym,
}
use cbtf_krell.PcData.Tally.{samples_of}
use cbtf_krell.Pcsamp.Collector.{Blame, initialize_data}
use cbtf_krell.Pcsamp.Run.{mode_of}
use cbtf_krell.Pcsamp.Send.{initialize_data-Ready, Sized}
use cbtf_krell.Pcsamp.Whole.{fresh, samples_of-empty}
use cbtf_krell.Hwcsamp.Collector.{is_papi_null}
use cbtf_krell.Hwc.Collector.{State, Action, Surroundings, collector_start, collector_stop, stopped}
use cbtf_krell.Hwc.Run.{Event, run, sent, charges}
use cbtf_krell.Hwc.Conserve.{Armed, send_samples_lem, sent-append, run-Balanced, charges-mode}

-- Stopping sends what the buffer holds.
sent-stopped :
    {cap hsize set : ℕ} (ended now later : ℕ) (rank : Option ℕ) (s : State)
    → 0 < cap
    → Armed cap hsize set s
    → (q : ℕ) → sent q (stopped ended now later rank s).1 ≡ samples_of s.tls.buffer q
unfolding stopped
sent-stopped ended now later rank s h y q =
    let s' : State = record s {
      tls = record s.tls { header = record s.tls.header { time_end = ended } };
    } in
    let c = send_samples_lem now later rank s' h y.ready.valid in
    elim (Bool-cases (ltb 0 s.tls.buffer.len)) [
      | inl held ↦ rw held (c.all_sent q)
      | inr none_held ↦ rw none_held (sym (samples_of-empty s.tls.buffer q (ground arith)))
    ]

sent-collector_stop :
    {cap hsize set : ℕ} (ended now later : ℕ) (rank : Option ℕ) (s : State)
    → 0 < cap
    → Armed cap hsize set s
    → (q : ℕ) → sent q (collector_stop ended now later rank s).1 ≡ samples_of s.tls.buffer q
unfolding collector_stop
sent-collector_stop ended now later rank s h y q =
    let present : is_papi_null s.event_set ≡ false = rw y.event_set refl in
    rw present (sent-stopped ended now later rank s h y q)

-- A start leaves a thread that is ready, and an empty buffer.
record Begun (cap hsize set : ℕ) (r : State × List Action) : Type 0 where
  armed : Armed cap hsize set r.0
  nothing_held : (q : ℕ) → samples_of r.0.tls.buffer q ≡ 0
  nothing_sent : (q : ℕ) → sent q r.1 ≡ 0
  mode : mode_of r.0.tls ≡ fresh

sent-collector_start :
    (header : DataHeader) (name : ℕ) (env : Surroundings) (s : State) (q : ℕ)
    → sent q (collector_start header name env s).1 ≡ 0
unfolding collector_start
sent-collector_start header name env s q = elim (Bool-cases s.papi_init_done) [
  | inl e ↦ rw e refl
  | inr e ↦ rw e refl
]

collector_start-Begun :
    {cap hsize set : ℕ} (header : DataHeader) (name : ℕ) (env : Surroundings) (s : State)
    → 0 < cap
    → Sized cap hsize s.tls.buffer
    → env.created ≡ some set
    → Begun cap hsize set (collector_start header name env s)
unfolding collector_start initialize_data
collector_start-Begun header name env s h z c =
    let y = initialize_data-Ready h env.now s.tls z in
    record {
      armed = record {
        ready = record { valid = y.valid; room = y.room };
        event_set = c;
        init_done = refl;
      };
      nothing_held = λ q. refl;
      nothing_sent = λ q. sent-collector_start header name env s q;
      mode = refl;
    }

-- The whole life of the collector in a thread: from arrays of the declared sizes, whatever they
-- hold, and a start for which PAPI makes an event set, any sequence of overflows, of addresses that
-- `collector_record_addr` is given, of pauses, resumptions, starts and stops of the counter and
-- changes of the OpenMP flags is carried out to its end; and when `cbtf_collector_stop` has run, the
-- blobs that were sent hold for every address exactly as many samples as were charged to it: one for
-- each overflow while sampling was not deferred, and one for each time the address was recorded, which
-- also ends a deferral.
pub whole_run_sends_overflows :
    {cap hsize set : ℕ} (f : Blame) (es : List Event) (s : State) (header : DataHeader) (name : ℕ)
    (env : Surroundings) (ended now later : ℕ) (rank : Option ℕ)
    → 0 < cap
    → Sized cap hsize s.tls.buffer
    → env.created ≡ some set
    → let a = collector_start header name env s in
      (r : State × List Action) × (run cap hsize f es a.0 ≡ some r)
      × ((q : ℕ)
          → sent q (a.1 ++ (r.1 ++ (collector_stop ended now later rank r.0).1))
            ≡ charges f q fresh es)
whole_run_sends_overflows f es s header name env ended now later rank h z c =
    let a = collector_start header name env s in
    let y = collector_start-Begun header name env s h z c in
    let (r, b) = run-Balanced f es a.0 h y.armed in
    let stop = (collector_stop ended now later rank r.0).1 in
    (
      r,
      b.done,
      λ q. omega (
        arith,
        sent-append q a.1 (r.1 ++ stop),
        sent-append q r.1 stop,
        b.balance q,
        y.nothing_held q,
        y.nothing_sent q,
        charges-mode f q es (mode_of a.0.tls) fresh y.mode,
        sent-collector_stop ended now later rank r.0 h b.armed q,
      ),
    )
