-- ===== src/Pcsamp/Whole.antt =====
-- The whole life of the pcsamp collector in a thread, from its start to its stop.
use cbtf_krell.Header.{DataHeader}
use cbtf_krell.Prelude.{
  ℕ, zero, suc, ◌/◌, ◌<◌, false, List, [], ◌∷◌, ◌++◌, Option, none, some, ◌≡◌, refl, ◌==◌, arith,
  ap, Bool-cases, inl, inr, ltb, sym, ◌≢◌,
}
use cbtf_krell.PcData.{PcData}
use cbtf_krell.PcData.Tally.{tally, samples_of}
use cbtf_krell.Pcsamp.Collector.{
  Tls, Action, Blame, collector_stop, collector_start, started, rate_of, start_timer,
}
use cbtf_krell.Pcsamp.Run.{Event, run, sent, Mode, charges, mode_of}
use cbtf_krell.Pcsamp.Send.{Ready, initialize_data-Ready, send_samples_lem, sent-append, Sized}
use cbtf_krell.Pcsamp.Conserve.{run_conserves, charges-mode}

pub samples_of-empty : (d : PcData) (q : ℕ) → d.len ≡ 0 → samples_of d q ≡ 0
samples_of-empty d q e = ap (λ n. tally q n d.pc d.count) e

-- Stopping sends what the buffer holds.
sent-collector_stop :
    {cap hsize : ℕ}
    → 0 < cap
    → (ended now later : ℕ) (rank : Option ℕ) (t : Tls) → Ready cap hsize t
    → (q : ℕ) → sent q (collector_stop ended now later rank t).1 ≡ samples_of t.buffer q
unfolding collector_stop
sent-collector_stop h ended now later rank t y q = elim (Bool-cases (ltb 0 t.buffer.len)) [
  | inl held ↦ rw held (
      (send_samples_lem h now later rank
          (record t { header = record t.header { time_end = ended } }) y.valid).1
        q)
  | inr none_held ↦ rw none_held (sym (samples_of-empty t.buffer q (ground arith)))
]

abbrev pub fresh : Mode
fresh = record { deferred = false; is_idle = false; at_wait_barrier = false; at_barrier = false }

rate_of-some_rate : (rate : Option ℕ) → rate ≢ some 0 → (rate_of rate == 0) ≡ false
rate_of-some_rate none n = refl
rate_of-some_rate (some zero) n = absurd (n refl)
rate_of-some_rate (some (suc k)) n = ground arith

collector_start-Ready :
    {cap hsize : ℕ} (f : Blame) (header : DataHeader) (rate : Option ℕ)
    (name thread_num now later : ℕ) (t : Tls)
    → 0 < cap
    → Sized cap hsize t.buffer
    → rate ≢ some 0
    → (s : Tls × List Action) × (collector_start header rate name thread_num now later t ≡ some s)
      × Ready cap hsize s.0
      × ((q : ℕ) → samples_of s.0.buffer q ≡ 0)
      × (mode_of s.0 ≡ fresh)
      × ((q : ℕ) → sent q s.1 ≡ 0)
unfolding collector_start
collector_start-Ready f header rate name thread_num now later t h z n =
    let interval = 1000000000 / rate_of rate in
    (
      (started header interval name thread_num now later t, start_timer interval ∷ []),
      rw (rate_of-some_rate rate n) refl,
      record { valid = (initialize_data-Ready h now t z).valid; room = h },
      λ q. refl,
      refl,
      λ q. refl,
    )

-- The whole life of the collector in a thread: from arrays of the declared sizes, whatever they
-- hold, `cbtf_collector_start` at a sampling rate that is not 0 succeeds; then any sequence of ticks,
-- pauses, resumptions and changes of the OpenMP flags is carried out to its end; and when
-- `cbtf_collector_stop` has run, the blobs that were sent hold for every address exactly as many
-- samples as ticks were charged to it, and none but these.
pub whole_run_sends_all :
    {cap hsize : ℕ} (f : Blame) (es : List Event) (t : Tls) (header : DataHeader) (rate : Option ℕ)
    (name thread_num now later ended now' later' : ℕ) (rank : Option ℕ)
    → 0 < cap
    → Sized cap hsize t.buffer
    → rate ≢ some 0
    → (s : Tls × List Action) × (r : Tls × List Action) × (collector_start header rate name
          thread_num now later t
        ≡ some s)
      × (run cap hsize f es s.0 ≡ some r)
      × ((q : ℕ)
          → sent q (s.1 ++ (r.1 ++ (collector_stop ended now' later' rank r.0).1))
            ≡ charges f q fresh es)
whole_run_sends_all f es t header rate name thread_num now later ended now' later' rank h z n =
    let (s, started, y, empty, mode, quiet) =
      collector_start-Ready f header rate name thread_num now later t h z n in
    let (r, b) = run_conserves f es s.0 h y in
    (
      s,
      r,
      started,
      b.done,
      λ q. omega (
        arith,
        sent-append q s.1 (r.1 ++ (collector_stop ended now' later' rank r.0).1),
        sent-append q r.1 (collector_stop ended now' later' rank r.0).1,
        b.balance q,
        empty q,
        quiet q,
        charges-mode f q es (mode_of s.0) fresh mode,
        sent-collector_stop h ended now' later' rank r.0 b.ready q,
      ),
    )
