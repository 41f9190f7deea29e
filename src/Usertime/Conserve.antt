-- ===== src/Usertime/Conserve.antt =====
-- The whole life of the user time collector in a thread.
use cbtf_krell.Prelude.{
  ℕ, suc, zero, ◌+◌, ◌/◌, false, List, [], ◌∷◌, ◌++◌, Option, none, some, ◌≡◌, ◌≢◌, refl, ap, sym,
  ltb, ◌==◌, length, arith, Bool-cases, inl, inr, ◌+◌,
}
use cbtf_krell.Header.{DataHeader}
use cbtf_krell.Usertime.Types.{Tls, Action, Layout, install_segv_handler, start_timer}
use cbtf_krell.Usertime.Collector.{collector_start, collector_stop, rate_of, started}
use cbtf_krell.Usertime.Buffer.{total, held, IsValid}
use cbtf_krell.Usertime.Counts.{sent, sent-append, total-take, initialize_data-IsValid}
use cbtf_krell.Usertime.Run.{Event, step, run, ticks_taken, AllWalked, step-Counted}

pub record Balanced (cap : ℕ) (es : List Event) (t : Tls) (r : Tls × List Action) : Type 0 where
  pub valid : IsValid cap r.0
  pub balance : held r.0 + sent r.1 ≡ held t + ticks_taken t.defer_sampling es

-- From a valid buffer, over any sequence of events in which each unwinding succeeds with at least one
-- frame and no more than the buffer has room for: the buffer is valid again, and the samples held and
-- sent have grown together by the number of ticks that came while sampling was not deferred.
pub run-Balanced :
    {cap : ℕ} (y : Layout) (es : List Event) (t : Tls)
    → IsValid cap t
    → AllWalked cap es
    → Balanced cap es t (run cap y es t)
unfolding run
run-Balanced y [] t v w = record { valid = v; balance = omega arith }
run-Balanced {cap} y (e ∷ es) t v w =
    let c = step-Counted y e t v w.0 in
    let r = step cap y e t in
    let b = run-Balanced y es r.0 c.valid w.1 in
    record {
      valid = b.valid;
      balance = omega (
        arith,
        c.balance,
        b.balance,
        sent-append r.1 (run cap y es r.0).1,
        ap (λ d. ticks_taken d es) c.flag,
      );
    }

-- Stopping sends what the buffer holds.
sent-collector_stop :
    {cap : ℕ} (ended now later : ℕ) (rank : Option ℕ) (t : Tls)
    → IsValid cap t
    → sent (collector_stop ended now later rank t).1 ≡ held t
unfolding collector_stop
sent-collector_stop ended now later rank t v = elim (Bool-cases (ltb 0 t.stacktraces_len)) [
  | inl some_held ↦
      rw some_held (omega (arith, total-take t.count_len t.count, v.len_le, v.counts_size))
  | inr none_held ↦
      let empty : t.count_len ≡ 0 = ground (arith, v.same_len) in
      rw none_held (sym (ap (λ n. total n t.count) empty))
]

rate_of-some_rate : (rate : Option ℕ) → rate ≢ some 0 → (rate_of rate == 0) ≡ false
rate_of-some_rate none n = refl
rate_of-some_rate (some zero) n = absurd (n refl)
rate_of-some_rate (some (suc k)) n = ground arith

-- What a start leaves.
record Begun (cap : ℕ) (s : Tls × List Action) : Type 0 where
  pub valid : IsValid cap s.0
  pub nothing_held : held s.0 ≡ 0
  pub nothing_sent : sent s.1 ≡ 0
  pub flag : s.0.defer_sampling ≡ false

collector_start-Begun :
    {cap : ℕ} (header : DataHeader) (rate : Option ℕ) (name thread_num now later : ℕ) (t : Tls)
    → length t.stacktraces ≡ cap
    → length t.count ≡ cap
    → rate ≢ some 0
    → (s : Tls × List Action) × (collector_start header rate name thread_num now later t ≡ some s)
      × Begun cap s
unfolding collector_start
collector_start-Begun header rate name thread_num now later t a b n =
    let interval : ℕ = 1000000000 / rate_of rate in
    let v = initialize_data-IsValid now t a b in
    (
      (
        started header interval name thread_num now later t,
        install_segv_handler ∷ start_timer interval ∷ [],
      ),
      rw (rate_of-some_rate rate n) refl,
      record {
        valid = record {
          stacks_size = v.stacks_size;
          counts_size = v.counts_size;
          same_len = v.same_len;
          len_le = v.len_le;
          bytes = v.bytes;
        };
        nothing_held = refl;
        nothing_sent = refl;
        flag = refl;
      },
    )

-- The whole life of the collector in a thread: from arrays of the declared size, whatever they hold,
-- `cbtf_collector_start` at a rate that is not 0 succeeds; then come any events, each unwinding among
-- them with at least one frame and no more than the buffer has room for; and when
-- `cbtf_collector_stop` has run, the blobs sent hold exactly as many samples as there were ticks while
-- sampling was not deferred.
pub whole_run_sends_all_stacks :
    {cap : ℕ} (y : Layout) (es : List Event) (t : Tls) (header : DataHeader) (rate : Option ℕ)
    (name thread_num now later ended now' later' : ℕ) (rank : Option ℕ)
    → length t.stacktraces ≡ cap
    → length t.count ≡ cap
    → rate ≢ some 0
    → AllWalked cap es
    → (s : Tls × List Action) × (collector_start header rate name thread_num now later t ≡ some s)
      × (let r = run cap y es s.0 in
          sent (s.1 ++ (r.1 ++ (collector_stop ended now' later' rank r.0).1))
          ≡ ticks_taken false es)
whole_run_sends_all_stacks {cap} y es t header rate name thread_num now later ended now' later' rank
      a b n w =
    let (s, begun, g) = collector_start-Begun header rate name thread_num now later t a b n in
    let r = run cap y es s.0 in
    let c = run-Balanced y es s.0 g.valid w in
    let stop = (collector_stop ended now' later' rank r.0).1 in
    (
      s,
      begun,
      omega (
        arith,
        sent-append s.1 (r.1 ++ stop),
        sent-append r.1 stop,
        c.balance,
        g.nothing_held,
        g.nothing_sent,
        ap (λ d. ticks_taken d es) g.flag,
        sent-collector_stop ended now' later' rank r.0 c.valid,
      ),
    )
