-- ===== src/Trace/Laws/Mpi.antt =====
-- The MPI collector keeps the laws.
use cbtf_krell.Prelude.{
  ℕ, suc, ◌<◌, ◌≤◌, ◌^◌, ◌-◌, true, false, ◌||◌, List, [], ◌∷◌, append-nil, ◌≡◌, refl, sym, subst,
  ltb, arith, Bool-cases, inl, inr,
}
use cbtf_krell.Trace.Types.{Event, Tls, Blob, Setup, Env, depth_range, names}
use cbtf_krell.Trace.Buffer.{initialize_data}
use cbtf_krell.Trace.Mpi.{
  mpi_start_event, mpi_record_event, mpi_collector_start, mpi_collector_pause, mpi_collector_resume,
  mpi_collector_stop, mpi_do_trace,
}
use cbtf_krell.Trace.Run.{Operations}
use cbtf_krell.Trace.Held.{Moved, held, IsValid, AreGood, sent_calls}
use cbtf_krell.Trace.Store.{Fits}
use cbtf_krell.Trace.Interface.{IsReady, Laws}
use cbtf_krell.Trace.Marks.{mark, flagged, started, stored, sent_at_stop}

-- The operations of core/collectors/mpi/collector.c.
abbrev pub mpi_operations : ℕ → Operations
mpi_operations thread_num = record {
  start_event = mpi_start_event;
  record_event = mpi_record_event;
  do_trace = mpi_do_trace;
  collector_start =
      λ header functions now later t. mpi_collector_start thread_num header functions now later t;
  collector_pause = mpi_collector_pause;
  collector_resume = mpi_collector_resume;
  collector_stop = mpi_collector_stop;
}

module _ (unwind : ℕ → List ℕ) (u : Setup) (small : u.stack_size ≤ 2 ^ 16) where
  -- A request that changes nothing.
  unchanged :
      (t : Tls)
      → IsReady unwind u t
      → Moved unwind u t t [] [] × (t.nesting_depth ≡ t.nesting_depth)
  unchanged t r = (
    record { valid = r.valid; room = r.room; good = tt; all_there = sym (append-nil (held t)) },
    refl,
  )

  mpi_ask : (f : ℕ) (t : Tls) → t.nesting_depth ≤ 1 → (mpi_do_trace f t).0 ≡ t
  unfolding mpi_do_trace
  mpi_ask f t h = ground arith

  mpi_outer :
      (env : Env) (e : Event) (function : ℕ) (t : Tls)
      → 0 < function
      → Fits u (unwind e.call)
      → IsReady unwind u t
      → t.nesting_depth ≡ 1
      → let r = mpi_record_event u env e function (unwind e.call) t in
        Moved unwind u t r.0 r.1 (e.call ∷ []) × (r.0.nesting_depth ≡ 0)
  unfolding mpi_record_event
  mpi_outer env e function t h f r d = simp d (stored unwind u small env e function true t h f r)

  mpi_nested :
      (env : Env) (e : Event) (function : ℕ) (t : Tls) (d : ℕ)
      → t.nesting_depth ≡ suc (suc d)
      → suc (suc d) < depth_range
      → mpi_record_event u env e function (unwind e.call) t
        ≡ (mark (suc d) false t.defer_sampling t.header t.traced t, [])
  unfolding mpi_record_event
  mpi_nested env e function t d e' h = ground arith

  mpi_underflow :
      (env : Env) (e : Event) (function : ℕ) (frames : List ℕ) (t : Tls)
      → t.nesting_depth ≡ 0
      → mpi_record_event u env e function frames t
        ≡ (record t { do_trace = false; nesting_depth = depth_range - 1 }, [])
  unfolding mpi_record_event
  mpi_underflow env e function frames t d = ground arith

  mpi_lower :
      (f : ℕ) (t : Tls)
      → t.do_trace ≡ true
      → names f t.traced ≡ false
      → t.nesting_depth ≡ 2
      → (mpi_do_trace f t).0 ≡ record t { nesting_depth = 1 }
  unfolding mpi_do_trace
  mpi_lower f t a b c = ground arith

  mpi_stop :
      (env : Env) (time : ℕ) (t : Tls)
      → IsValid unwind u t
      → 0 < u.event_size
      → let sent = (mpi_collector_stop u env time t).1 in
        AreGood unwind sent × (sent_calls sent ≡ held t)
  unfolding mpi_collector_stop
  mpi_stop env time t v z =
      let s = sent_at_stop unwind u env (record t.header { time_end = time }) t v z in
      elim (Bool-cases (ltb 0 t.events_len || ltb 0 t.stacktraces_len)) [
        | inl left ↦ rw left s
        | inr none_left ↦
            let empty : t.events_len ≡ 0 = ground (arith, none_left) in
            rw none_left (tt, rw empty refl)
      ]

  pub mpi-Laws : (thread_num : ℕ) → Laws (mpi_operations thread_num) unwind u
  unfolding mpi_start_event mpi_collector_start mpi_collector_pause mpi_collector_resume
  mpi-Laws thread_num = record {
    starts = λ header functions now later t a b z. (
      started unwind u now true false
          (record header {
            omp_tid = thread_num;
            time_begin = later;
            time_end = 0;
            addr_begin = (initialize_data now t).header.addr_begin;
            addr_end = 0;
          })
          functions t a b z,
      refl,
      refl,
      refl,
    );
    enters = λ t. refl;
    pauses = λ t r. (flagged unwind u t.nesting_depth false true t r, refl);
    resumes = λ t r. (flagged unwind u t.nesting_depth true false t r, refl);
    asks = λ f t r h.
        subst (λ (t' : Tls). Moved unwind u t t' [] [] × (t'.nesting_depth ≡ t.nesting_depth))
          (sym (mpi_ask f t h)) (unchanged t r);
    records = mpi_outer;
    skips = λ env e function t d r at h.
        subst (λ (q : Tls × List Blob). Moved unwind u t q.0 q.1 [] × (q.0.nesting_depth ≡ suc d))
          (sym (mpi_nested env e function t d at h))
          (flagged unwind u (suc d) false t.defer_sampling t r, refl);
    underflows = mpi_underflow;
    lowers = mpi_lower;
    stops = mpi_stop;
  }
