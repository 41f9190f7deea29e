-- ===== src/Trace/Laws/Pthreads.antt =====
-- The collector of threads' calls keeps the laws.
use cbtf_krell.Prelude.{
  ℕ, suc, ◌<◌, ◌≤◌, ◌^◌, ◌-◌, true, false, ◌||◌, List, [], ◌∷◌, append-nil, ◌≡◌, refl, sym, subst,
  ltb, arith, Bool-cases, inl, inr,
}
use cbtf_krell.Trace.Types.{Event, Tls, Blob, Setup, Env, depth_range, names}
use cbtf_krell.Trace.Buffer.{initialize_data}
use cbtf_krell.Trace.Pthreads.{
  pthreads_start_event, pthreads_record_event, pthreads_collector_start, pthreads_collector_pause,
  pthreads_collector_resume, pthreads_collector_stop, pthreads_do_trace,
}
use cbtf_krell.Trace.Run.{Operations}
use cbtf_krell.Trace.Held.{Moved, held, IsValid, AreGood, sent_calls}
use cbtf_krell.Trace.Store.{Fits}
use cbtf_krell.Trace.Interface.{IsReady, Laws}
use cbtf_krell.Trace.Marks.{mark, flagged, started, stored, sent_at_stop}

-- The operations of core/collectors/pthreads/collector.c.
abbrev pub pthreads_operations : Operations
pthreads_operations = record {
  start_event = pthreads_start_event;
  record_event = pthreads_record_event;
  do_trace = pthreads_do_trace;
  collector_start =
      λ header functions now later t. pthreads_collector_start header functions now later t;
  collector_pause = pthreads_collector_pause;
  collector_resume = pthreads_collector_resume;
  collector_stop = pthreads_collector_stop;
}

module _ (unwind : ℕ → List ℕ) (u : Setup) (small : u.stack_size ≤ 2 ^ 16) where
  -- A request that changes nothing.
  unchanged :
      (t : Tls)
      → IsReady unwind u t
      → Moved unwind u t t [] [] × (t.nesting_depth ≡ t.nesting_depth)
  unchanged t r = (
    record { valid = r.valid; room = r.room; good = tt; all_there = sym (append-nil (held t)) },
    refl,
  )

  pthreads_ask : (f : ℕ) (t : Tls) → t.nesting_depth ≤ 1 → (pthreads_do_trace f t).0 ≡ t
  unfolding pthreads_do_trace
  pthreads_ask f t h = ground arith

  pthreads_outer :
      (env : Env) (e : Event) (function : ℕ) (t : Tls)
      → 0 < function
      → Fits u (unwind e.call)
      → IsReady unwind u t
      → t.nesting_depth ≡ 1
      → let r = pthreads_record_event u env e function (unwind e.call) t in
        Moved unwind u t r.0 r.1 (e.call ∷ []) × (r.0.nesting_depth ≡ 0)
  unfolding pthreads_record_event
  pthreads_outer env e function t h f r d =
      simp d (stored unwind u small env e function t.do_trace t h f r)

  pthreads_nested :
      (env : Env) (e : Event) (function : ℕ) (t : Tls) (d : ℕ)
      → t.nesting_depth ≡ suc (suc d)
      → suc (suc d) < depth_range
      → pthreads_record_event u env e function (unwind e.call) t
        ≡ (mark (suc d) false t.defer_sampling t.header t.traced t, [])
  unfolding pthreads_record_event
  pthreads_nested env e function t d e' h = ground arith

  pthreads_underflow :
      (env : Env) (e : Event) (function : ℕ) (frames : List ℕ) (t : Tls)
      → t.nesting_depth ≡ 0
      → pthreads_record_event u env e function frames t
        ≡ (record t { do_trace = false; nesting_depth = depth_range - 1 }, [])
  unfolding pthreads_record_event
  pthreads_underflow env e function frames t d = ground arith

  pthreads_lower :
      (f : ℕ) (t : Tls)
      → t.do_trace ≡ true
      → names f t.traced ≡ false
      → t.nesting_depth ≡ 2
      → (pthreads_do_trace f t).0 ≡ record t { nesting_depth = 1 }
  unfolding pthreads_do_trace
  pthreads_lower f t a b c = ground arith

  pthreads_stop :
      (env : Env) (time : ℕ) (t : Tls)
      → IsValid unwind u t
      → 0 < u.event_size
      → let sent = (pthreads_collector_stop u env time t).1 in
        AreGood unwind sent × (sent_calls sent ≡ held t)
  unfolding pthreads_collector_stop
  pthreads_stop env time t v z =
      let s = sent_at_stop unwind u env (record t.header { time_end = time }) t v z in
      elim (Bool-cases (ltb 0 t.events_len || ltb 0 t.stacktraces_len)) [
        | inl left ↦ rw left s
        | inr none_left ↦
            let empty : t.events_len ≡ 0 = ground (arith, none_left) in
            rw none_left (tt, rw empty refl)
      ]

  pub pthreads-Laws : Laws pthreads_operations unwind u
  unfolding pthreads_start_event pthreads_collector_start pthreads_collector_pause
      pthreads_collector_resume
  pthreads-Laws = record {
    starts = λ header functions now later t a b z. (
      started unwind u now true false
          (record header {
            time_begin = later;
            time_end = 0;
            addr_begin = (initialize_data now t).header.addr_begin;
            addr_end = 0;
          })
          functions t a b z,
      refl,
      refl,
      refl,
    );
    enters = λ t. refl;
    pauses = λ t r. (flagged unwind u t.nesting_depth false true t r, refl);
    resumes = λ t r. (flagged unwind u t.nesting_depth true false t r, refl);
    asks = λ f t r h.
        subst (λ (t' : Tls). Moved unwind u t t' [] [] × (t'.nesting_depth ≡ t.nesting_depth))
          (sym (pthreads_ask f t h)) (unchanged t r);
    records = pthreads_outer;
    skips = λ env e function t d r at h.
        subst (λ (q : Tls × List Blob). Moved unwind u t q.0 q.1 [] × (q.0.nesting_depth ≡ suc d))
          (sym (pthreads_nested env e function t d at h))
          (flagged unwind u (suc d) false t.defer_sampling t r, refl);
    underflows = pthreads_underflow;
    lowers = pthreads_lower;
    stops = pthreads_stop;
  }
