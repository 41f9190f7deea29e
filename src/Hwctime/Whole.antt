-- ===== src/Hwctime/Whole.antt =====
-- The whole life of the hwctime collector in a thread, from its start to its stop.
use cbtf_krell.Header.{DataHeader}
use cbtf_krell.Prelude.{
  ℕ, true, false, List, ◌++◌, Option, some, ◌≡◌, refl, ap, ◌∙◌, subst, sym, ltb, length, arith,
  Bool-cases, inl, inr,
}
use cbtf_krell.Usertime.Types.{Layout}
use cbtf_krell.Usertime.Collector as Stacks
use cbtf_krell.Usertime.Buffer.{total, held, IsValid}
use cbtf_krell.Usertime.Counts.{total-take, initialize_data-IsValid}
use cbtf_krell.Usertime.Run.{Event, ticks_taken, AllWalked}
use cbtf_krell.Usertime.Conserve.{run-Balanced}
use cbtf_krell.Hwcsamp.Collector.{is_papi_null}
use cbtf_krell.Hwc.Collector.{Surroundings}
use cbtf_krell.Hwctime.Collector.{State, Action, collector_start, collector_stop, stopped}
use cbtf_krell.Hwctime.Run.{run, sent, sent-append, run-Along}

-- Stopping sends what the buffer holds.
sent-stopped :
    {cap : ℕ} (ended now later : ℕ) (rank : Option ℕ) (s : State)
    → IsValid cap s.tls
    → sent (stopped ended now later rank s).1 ≡ held s.tls
unfolding stopped Stacks.send_samples
sent-stopped ended now later rank s v = elim (Bool-cases (ltb 0 s.tls.stacktraces_len)) [
  | inl some_held ↦
      rw some_held (omega (arith, total-take s.tls.count_len s.tls.count, v.len_le, v.counts_size))
  | inr none_held ↦
      let empty : s.tls.count_len ≡ 0 = ground (arith, v.same_len) in
      rw none_held (sym (ap (λ n. total n s.tls.count) empty))
]

sent-collector_stop :
    {cap set : ℕ} (ended now later : ℕ) (rank : Option ℕ) (s : State)
    → IsValid cap s.tls
    → s.event_set ≡ some set
    → sent (collector_stop ended now later rank s).1 ≡ held s.tls
unfolding collector_stop
sent-collector_stop ended now later rank s v e =
    let present : is_papi_null s.event_set ≡ false = rw e refl in
    rw present (sent-stopped ended now later rank s v)

-- A start leaves an empty buffer, and an event set.
record Begun (cap set : ℕ) (r : State × List Action) : Type 0 where
  valid : IsValid cap r.0.tls
  nothing_held : held r.0.tls ≡ 0
  flag : r.0.tls.defer_sampling ≡ false
  event_set : r.0.event_set ≡ some set
  init_done : r.0.papi_init_done ≡ true

sent-collector_start :
    (header : DataHeader) (name : ℕ) (env : Surroundings) (s : State)
    → sent (collector_start header name env s).1 ≡ 0
unfolding collector_start
sent-collector_start header name env s = elim (Bool-cases s.papi_init_done) [
  | inl e ↦ rw e refl
  | inr e ↦ rw e refl
]

collector_start-Begun :
    {cap set : ℕ} (header : DataHeader) (name : ℕ) (env : Surroundings) (s : State)
    → length s.tls.stacktraces ≡ cap
    → length s.tls.count ≡ cap
    → env.created ≡ some set
    → Begun cap set (collector_start header name env s)
unfolding collector_start Stacks.initialize_data
collector_start-Begun header name env s a b c =
    let v = initialize_data-IsValid env.now s.tls a b in
    record {
      valid = record {
        stacks_size = v.stacks_size;
        counts_size = v.counts_size;
        same_len = v.same_len;
        len_le = v.len_le;
        bytes = v.bytes;
      };
      nothing_held = refl;
      flag = refl;
      event_set = c;
      init_done = refl;
    }

-- The whole life of the collector in a thread: from arrays of the declared size, whatever they hold,
-- and a start for which PAPI makes an event set, come any overflows, pauses, resumptions and changes of
-- the OpenMP flags, each unwinding among them with at least one frame and no more than the buffer has
-- room for; and when `cbtf_collector_stop` has run, the blobs sent hold exactly as many samples as
-- there were overflows while sampling was not deferred.
pub whole_run_sends_overflow_stacks :
    {cap set : ℕ} (y : Layout) (es : List Event) (s : State) (header : DataHeader) (name : ℕ)
    (env : Surroundings) (ended now later : ℕ) (rank : Option ℕ)
    → length s.tls.stacktraces ≡ cap
    → length s.tls.count ≡ cap
    → env.created ≡ some set
    → AllWalked cap es
    → let a = collector_start header name env s in
      let r = run cap y es a.0 in
      sent (a.1 ++ (r.1 ++ (collector_stop ended now later rank r.0).1)) ≡ ticks_taken false es
whole_run_sends_overflow_stacks {cap} y es s header name env ended now later rank b c d w =
    let a = collector_start header name env s in
    let r = run cap y es a.0 in
    let g = collector_start-Begun header name env s b c d in
    let q = run-Balanced y es a.0.tls g.valid w in
    let l = run-Along cap y es a.0 g.init_done in
    let stop = (collector_stop ended now later rank r.0).1 in
    let valid : IsValid cap r.0.tls = subst (IsValid cap) (sym l.same) q.valid in
    omega (
      arith,
      sent-append a.1 (r.1 ++ stop),
      sent-append r.1 stop,
      sent-collector_start header name env s,
      l.same_sent,
      q.balance,
      g.nothing_held,
      ap (λ x. ticks_taken x es) g.flag,
      ap held l.same,
      sent-collector_stop ended now later rank r.0 valid (l.event_set ∙ g.event_set),
    )
