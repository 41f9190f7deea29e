-- ===== src/Trace/Laws/Mem.antt =====
-- The memory collector keeps the laws.
use cbtf_krell.Prelude.{
  ℕ, suc, zero, ◌<◌, ◌≤◌, ◌^◌, ◌-◌, Bool, true, false, not, ◌&&◌, List, [], ◌∷◌, append-nil, ◌≡◌,
  refl, sym, subst, length, ltb, arith, Bool-cases, inl, inr, take,
}
use cbtf_krell.Trace.Types.{Event, Tls, Blob, Setup, Env, depth_range, names}
use cbtf_krell.Trace.Buffer.{initialize_data}
use cbtf_krell.Trace.Mem.{
  mem_start_event, mem_record_event, mem_collector_start, mem_collector_pause, mem_collector_resume,
  mem_collector_stop, mem_do_trace,
}
use cbtf_krell.Trace.Run.{Operations}
use cbtf_krell.Trace.Held.{Moved, held, IsValid, ArePlaced, AreGood, sent_calls}
use cbtf_krell.Trace.Store.{Fits}
use cbtf_krell.Trace.Interface.{IsReady, Laws}
use cbtf_krell.Trace.Marks.{mark, flagged, started, stored, sent_at_stop}

-- The operations of core/collectors/mem/collector.c.
abbrev pub mem_operations : Bool → Operations
mem_operations ready = record {
  start_event = mem_start_event;
  record_event = mem_record_event;
  do_trace = mem_do_trace;
  collector_start =
      λ header functions now later t. mem_collector_start header functions ready now later t;
  collector_pause = mem_collector_pause;
  collector_resume = mem_collector_resume;
  collector_stop = mem_collector_stop;
}

module _ (unwind : ℕ → List ℕ) (u : Setup) (small : u.stack_size ≤ 2 ^ 16) where
  -- A request that changes nothing.
  unchanged :
      (t : Tls)
      → IsReady unwind u t
      → Moved unwind u t t [] [] × (t.nesting_depth ≡ t.nesting_depth)
  unchanged t r = (
    record { valid = r.valid; room = r.room; good = tt; all_there = sym (append-nil (held t)) },
    refl,
  )

  mem_ask : (f : ℕ) (t : Tls) → t.nesting_depth ≤ 1 → (mem_do_trace f t).0 ≡ t
  unfolding mem_do_trace
  mem_ask f t h = ground arith

  mem_outer :
      (env : Env) (e : Event) (function : ℕ) (t : Tls)
      → 0 < function
      → Fits u (unwind e.call)
      → IsReady unwind u t
      → t.nesting_depth ≡ 1
      → let r = mem_record_event u env e function (unwind e.call) t in
        Moved unwind u t r.0 r.1 (e.call ∷ []) × (r.0.nesting_depth ≡ 0)
  unfolding mem_record_event
  mem_outer env e function t h f r d =
      simp d (stored unwind u small env e function t.do_trace t h f r)

  mem_nested :
      (env : Env) (e : Event) (function : ℕ) (t : Tls) (d : ℕ)
      → t.nesting_depth ≡ suc (suc d)
      → suc (suc d) < depth_range
      → mem_record_event u env e function (unwind e.call) t
        ≡ (mark (suc d) false t.defer_sampling t.header t.traced t, [])
  unfolding mem_record_event
  mem_nested env e function t d e' h = ground arith

  -- Without stack traces there are no events.
  no_events :
      (xs : List ℕ) (n k : ℕ) (es : List Event)
      → k ≤ length es
      → n ≡ 0
      → ArePlaced unwind xs n (take k es)
      → k ≡ 0
  no_events xs n zero es h z p = refl
  no_events xs n (suc k) [] h z p = absurd (omega arith)
  no_events xs n (suc k) (e ∷ es) h z p = absurd (omega (arith, p.0.inside))

  mem_underflow :
      (env : Env) (e : Event) (function : ℕ) (frames : List ℕ) (t : Tls)
      → t.nesting_depth ≡ 0
      → mem_record_event u env e function frames t
        ≡ (record t { do_trace = false; nesting_depth = depth_range - 1 }, [])
  unfolding mem_record_event
  mem_underflow env e function frames t d = ground arith

  mem_lower :
      (f : ℕ) (t : Tls)
      → t.do_trace ≡ true
      → names f t.traced ≡ false
      → t.nesting_depth ≡ 2
      → (mem_do_trace f t).0 ≡ record t { nesting_depth = 1 }
  unfolding mem_do_trace
  mem_lower f t a b c = ground arith

  mem_stop :
      (env : Env) (time : ℕ) (t : Tls)
      → IsValid unwind u t
      → 0 < u.event_size
      → let sent = (mem_collector_stop u env time t).1 in
        AreGood unwind sent × (sent_calls sent ≡ held t)
  unfolding mem_collector_stop
  mem_stop env time t v z =
      let s = sent_at_stop unwind u env (record t.header { time_end = time }) t v z in
      elim (Bool-cases (ltb 0 t.events_len && ltb 0 t.stacktraces_len)) [
        | inl left ↦ rw left s
        | inr none_left ↦
            let none_there =
              no_events t.stacktraces t.stacktraces_len t.events_len t.events
                (omega (arith, v.events_le, v.event_size)) in
            let empty : t.events_len ≡ 0 = elim (Bool-cases (ltb 0 t.events_len)) [
              | inl some_events ↦ none_there (ground (arith, some_events, none_left)) v.placed
              | inr no_event ↦ ground (arith, no_event)
            ] in
            rw none_left (tt, rw empty refl)
      ]

  pub mem-Laws : (ready : Bool) → Laws (mem_operations ready) unwind u
  unfolding mem_start_event mem_collector_start mem_collector_pause mem_collector_resume
  mem-Laws ready = record {
    starts = λ header functions now later t a b z. (
      started unwind u now ready (not ready)
          (record header {
            time_begin = later;
            time_end = 0;
            addr_begin = (initialize_data now t).header.addr_begin;
            addr_end = 0;
          })
          functions t a b z,
      refl,
      refl,
      refl,
    );
    enters = λ t. refl;
    pauses = λ t r. (flagged unwind u t.nesting_depth false true t r, refl);
    resumes = λ t r. (flagged unwind u t.nesting_depth true false t r, refl);
    asks = λ f t r h.
        subst (λ (t' : Tls). Moved unwind u t t' [] [] × (t'.nesting_depth ≡ t.nesting_depth))
          (sym (mem_ask f t h)) (unchanged t r);
    records = mem_outer;
    skips = λ env e function t d r at h.
        subst (λ (q : Tls × List Blob). Moved unwind u t q.0 q.1 [] × (q.0.nesting_depth ≡ suc d))
          (sym (mem_nested env e function t d at h))
          (flagged unwind u (suc d) false t.defer_sampling t r, refl);
    underflows = mem_underflow;
    lowers = mem_lower;
    stops = mem_stop;
  }
