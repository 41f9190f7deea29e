-- ===== src/Trace/Nested.antt =====
-- What nested calls do to a collector: `do_trace` and the depth after them.
use cbtf_krell.Prelude.{
  ℕ, ◌-◌, ◌<◌, ◌≤◌, ◌^◌, Bool, true, false, List, [], ◌∷◌, ◌++◌, append-nil, ◌≡◌, refl, ap, ◌∙◌,
  arith,
}
use cbtf_krell.Trace.Types.{Event, Tls, Blob, Setup, Env, depth_range, increment, names}
use cbtf_krell.Trace.Held.{held, sent_calls}
use cbtf_krell.Trace.Io.{io_start_event, io_record_event}
use cbtf_krell.Trace.Mpi.{mpi_start_event, mpi_record_event}
use cbtf_krell.Trace.Mem.{mem_start_event, mem_record_event}
use cbtf_krell.Trace.Pthreads.{pthreads_start_event, pthreads_record_event}
use cbtf_krell.Trace.Run.{Request, enter, leave, ask, serve, serve_all}
use cbtf_krell.Trace.Store.{Fits}
use cbtf_krell.Trace.Interface.{IsReady}
use cbtf_krell.Trace.Marks.{flagged}
use cbtf_krell.Trace.Whole.{Collector, io, mem, mpi, pthreads, operations, laws}

-- A call of the function `f` that makes a call of `g` through a wrapper.
abbrev pub nested_call : Env → Env → ℕ → ℕ → ℕ → ℕ → List Request
nested_call env env' c f c' g = enter ∷ enter ∷ leave env c' g ∷ leave env' c f ∷ []

-- Whether a collector traces on after a nested call.
abbrev pub goes_on : Collector → Bool
goes_on (io ready) = true
goes_on (mpi thread_num) = true
goes_on (mem ready) = false
goes_on pthreads = false

-- After a call within a call the collectors of io and mpi trace on, whatever `do_trace` was before;
-- those of mem and pthreads have `do_trace` off.
pub nested_call_ends_tracing :
    (k : Collector) (u : Setup) (unwind : ℕ → List ℕ) (env env' : Env) (c f c' g : ℕ) (t : Tls)
    → t.nesting_depth ≡ 0
    → (serve_all (operations k) u unwind (nested_call env env' c f c' g) t).0.do_trace ≡ goes_on k
unfolding serve_all io_start_event io_record_event mpi_start_event mpi_record_event mem_start_event
    mem_record_event pthreads_start_event pthreads_record_event
nested_call_ends_tracing (io ready) u unwind env env' c f c' g t e = ground arith
nested_call_ends_tracing (mpi thread_num) u unwind env env' c f c' g t e = ground arith
nested_call_ends_tracing (mem ready) u unwind env env' c f c' g t e = ground arith
nested_call_ends_tracing pthreads u unwind env env' c f c' g t e = ground arith

-- A call of `g`, itself inside a call, that makes a call of `h`, which is not traced.
abbrev pub untraced_inside : Env → ℕ → ℕ → ℕ → List Request
untraced_inside env c' g h = enter ∷ enter ∷ ask h ∷ leave env c' g ∷ []

module _ (k : Collector) (u : Setup) (unwind : ℕ → List ℕ) where
  abbrev pub run_of : List Request → Tls → Tls × List Blob
  run_of = serve_all (operations k) u unwind

  -- For each collector, where tracing is on and the buffers are in order: a call inside a call that
  -- makes a call of a function that is not traced is recorded, as if nothing enclosed it; the end of
  -- the enclosing call then adds and sends nothing, leaves `do_trace` off, and wraps the depth.
  pub untraced_call_ends_tracing :
      (env env' : Env) (c f c' g h : ℕ) (t : Tls)
      → u.stack_size ≤ 2 ^ 16
      → IsReady unwind u t
      → 0 < g
      → Fits u (unwind c')
      → t.nesting_depth ≡ 0
      → t.do_trace ≡ true
      → names h t.traced ≡ false
      → let r = run_of (untraced_inside env c' g h) t in
        (sent_calls r.1 ++ held r.0 ≡ held t ++ (c' ∷ []))
        × (run_of (untraced_inside env c' g h ++ (leave env' c f ∷ [])) t
            ≡ (record r.0 { do_trace = false; nesting_depth = depth_range - 1 }, r.1))
  unfolding serve_all serve
  untraced_call_ends_tracing env env' c f c' g h t small r p fits d on unnamed =
      let o = operations k in
      let l = laws k unwind u small in
      let inner : Event = record { call = c'; stacktrace = 0; pathindex = 0 } in
      let outer : Event = record { call = c; stacktrace = 0; pathindex = 0 } in
      let t1 : Tls = record t { nesting_depth = 1 } in
      let t2 : Tls = record t { nesting_depth = 2 } in
      let one = flagged unwind u 1 t.do_trace t.defer_sampling t r in
      let q = o.record_event u env inner g (unwind c') t1 in
      let e1 : (o.start_event t).0 ≡ t1 =
        l.enters t
        ∙ ap (λ (n : ℕ). let t' : Tls = record t { nesting_depth = increment n } in t') d in
      let e2 : (o.start_event t1).0 ≡ t2 = l.enters t1 in
      let e3 : (o.do_trace h t2).0 ≡ t1 = l.lowers h t2 on unnamed refl in
      let (m, at_zero) =
        l.records env inner g t1 p fits (record { valid = one.valid; room = one.room }) refl in
      let last = l.underflows env' outer f (unwind c) q.0 at_zero in
      let calls : sent_calls (q.1 ++ []) ++ held q.0 ≡ held t ++ (c' ∷ []) =
        rw (append-nil q.1) m.all_there in
      (rw (e1, e2, e3) calls, rw (e1, e2, e3, last) refl)
