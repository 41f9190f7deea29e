-- ===== src/Trace/Wrappers/Program/Calls.antt =====
-- One call through a wrapper, and a program of calls, while tracing is on and no other call encloses
-- them.
use cbtf_krell.Prelude.{
  ℕ, ◌≤◌, ◌<◌, ◌^◌, Bool, true, false, not, List, [], ◌∷◌, append-nil, ◌≡◌, ◌≢◌, refl, sym, ap, ◌∙◌,
  arith, if◌then◌else◌, ◌==◌, subst,
}
use cbtf_krell.Trace.Types.{Event, Tls, Setup, Env, names, increment, decrement, with_function}
use cbtf_krell.Trace.Mem.{mem_do_trace, mem_record_event, mem_start_event}
use cbtf_krell.Trace.Held.{held, Moved, Moved-join}
use cbtf_krell.Trace.Store.{Fits}
use cbtf_krell.Trace.Interface.{IsReady}
use cbtf_krell.Trace.Marks.{flagged}
use cbtf_krell.Trace.Laws.Mem.{mem-Laws}
use cbtf_krell.Trace.Wrappers.{
  MemType, Filled, Real, Site, Moment, Outcome, asked_heap, carry_out, wrapped, malloc_wrapper,
  calloc_wrapper, realloc_wrapper, posix_memalign_wrapper, memalign_wrapper, free_wrapper,
}
use cbtf_krell.Trace.Wrappers.Kept.{store-traced}
use cbtf_krell.Trace.Wrappers.Program.{
  Call, serve_call, Ran, run_program, plain, plain_results, plain_heap, event_of, traced_one,
  traced_calls, copied, is_traced, seen, left, kind_of, is_traceable,
}

mem_do_trace-on :
    (f : ℕ) (t : Tls)
    → t.do_trace ≡ true
    → t.nesting_depth ≡ 0
    → mem_do_trace f t ≡ (t, names f t.traced)
unfolding mem_do_trace
mem_do_trace-on f t on at = simp (on, at) (ground arith)

mem_do_trace-functions :
    (f : ℕ) (functions : List ℕ) (t : Tls)
    → t.do_trace ≡ true
    → t.nesting_depth ≡ 0
    → t.traced ≡ functions
    → mem_do_trace f t ≡ (t, names f functions)
mem_do_trace-functions f functions t on at same =
    mem_do_trace-on f t on at ∙ ap (λ fs. (t, names f fs)) same

mem_record_event-kept :
    (u : Setup) (env : Env) (e : Event) (function : ℕ) (frames : List ℕ) (t : Tls)
    → t.nesting_depth ≡ 1
    → let t' = (mem_record_event u env e function frames t).0 in
      (t'.do_trace ≡ t.do_trace) × (t'.traced ≡ t.traced)
unfolding mem_record_event
mem_record_event-kept u env e function frames t at = simp at (
  refl,
  store-traced u env e (with_function function frames)
      (record t { do_trace = false; nesting_depth = decrement (increment (decrement 1)) }),
)

-- Tracing is on, outside any traced call.
pub record IsTracing (x : Site) (functions : List ℕ) (t : Tls) : Type 0 where
  pub ready : IsReady x.unwind x.setup t
  pub depth : t.nesting_depth ≡ 0
  pub on : t.do_trace ≡ true
  pub traced : t.traced ≡ functions

-- What a call leaves: a result and a heap, and the calls `cs` are recorded.
pub record Served {H : Type 0} (x : Site) (functions : List ℕ) (r : ℕ × H) (cs : List ℕ) (t : Tls)
    (o : Outcome H) : Type 0 where
  pub same_result : o.result ≡ r.0
  pub same_heap : o.heap ≡ r.1
  pub moved : Moved x.unwind x.setup t o.tls o.sent cs
  pub tracing : IsTracing x functions o.tls

module _ {H : Type 0} (x : Site) (real : Real H) (functions : List ℕ)
    (small : x.setup.stack_size ≤ 2 ^ 16) (fit : (c : ℕ) → Fits x.setup (x.unwind c))
    (placed : (k : MemType) → 0 < x.address k) where
  carry_out-Served :
      (at : Moment) (kind : MemType) (call : H → ℕ × H) (fill : ℕ → H → Filled) (traced : Bool)
      (t : Tls) (h : H)
      → IsTracing x functions t
      → let c = x.number (fill (call h).0 (call h).1) in
        Served x functions
          ((call h).0, if traced then real.recording c (call h).1 else (call h).1)
          (if traced then c ∷ [] else [])
          t
          (carry_out x real at kind call fill traced t h)
  unfolding carry_out mem_start_event
  carry_out-Served at kind call fill false t h g = record {
    same_result = refl;
    same_heap = refl;
    moved = record {
      valid = g.ready.valid;
      room = g.ready.room;
      good = tt;
      all_there = sym (append-nil (held t));
    };
    tracing = g;
  }
  carry_out-Served at kind call fill true t h g =
      let l = mem-Laws x.unwind x.setup small true in
      let c = x.number (fill (call h).0 (call h).1) in
      let e : Event = record { call = c; stacktrace = 0; pathindex = 0 } in
      let t' : Tls = record t { nesting_depth = increment t.nesting_depth } in
      let at_one : t'.nesting_depth ≡ 1 = rw g.depth refl in
      let m =
        flagged x.unwind x.setup (increment t.nesting_depth) t.do_trace t.defer_sampling t
          g.ready in
      let r = mem_record_event x.setup at.env e (x.address kind) (x.unwind c) t' in
      let (n, back) =
        l.records at.env e (x.address kind) t' (placed kind) (fit c)
          (record { valid = m.valid; room = m.room }) at_one in
      let kept = mem_record_event-kept x.setup at.env e (x.address kind) (x.unwind c) t' at_one in
      record {
        same_result = refl;
        same_heap = refl;
        moved = Moved-join x.unwind x.setup t t' r.0 [] r.1 [] (c ∷ []) m n;
        tracing = record {
          ready = record { valid = n.valid; room = n.room };
          depth = back;
          on = kept.0 ∙ g.on;
          traced = kept.1 ∙ g.traced;
        };
      }

  -- The names are copied, where that cannot fail, and dlsym finds the real functions.
  module _ (found : (k : MemType) → real.is_found k ≡ true)
      (copies : (h : H) → (real.malloc (x.list_size functions) h).0 ≢ 0) where
    asked_heap-copied :
        (c : Call) (t : Tls) (h : H)
        → IsTracing x functions t
        → asked_heap x real (kind_of c) t h ≡ copied real x functions c h
    unfolding asked_heap
    asked_heap-copied c t h g = simp (g.on, g.traced, found MemType.free) (ground (arith, copies h))

    wrapped-Served :
        (at : Moment) (c : Call) (t : Tls) (h : H)
        → IsTracing x functions t
        → Served x functions
            ((seen real x functions c h).0, left real x functions at c h)
            (traced_one real x functions at c h)
            t
            (wrapped x real at (kind_of c) (is_traceable c) (plain real c) (event_of real at c) t h)
    unfolding wrapped
    wrapped-Served at c t h g =
        rw
          (
            mem_do_trace-functions (x.name (kind_of c)) functions t g.on g.depth g.traced,
            asked_heap-copied c t h g,
          )
          (carry_out-Served at (kind_of c) (plain real c) (event_of real at c)
            (is_traced real x functions c) t (copied real x functions c h) g)

    serve_call-Served :
        (at : Moment) (c : Call) (t : Tls) (h : H)
        → IsTracing x functions t
        → Served x functions
            ((seen real x functions c h).0, left real x functions at c h)
            (traced_one real x functions at c h)
            t
            (serve_call real x at c t h)
    unfolding serve_call malloc_wrapper calloc_wrapper realloc_wrapper posix_memalign_wrapper
        memalign_wrapper free_wrapper
    serve_call-Served at (Call.malloc size) t h g = wrapped-Served at (Call.malloc size) t h g
    serve_call-Served at (Call.calloc count size) t h g =
        wrapped-Served at (Call.calloc count size) t h g
    serve_call-Served at (Call.realloc old size) t h g =
        rw (found MemType.realloc) (wrapped-Served at (Call.realloc old size) t h g)
    serve_call-Served at (Call.memalign blocksize bytes) t h g =
        rw (found MemType.memalign) (wrapped-Served at (Call.memalign blocksize bytes) t h g)
    serve_call-Served at (Call.posix_memalign memptr alignment size) t h g =
        rw (found MemType.posix_memalign)
          (wrapped-Served at (Call.posix_memalign memptr alignment size) t h g)
    serve_call-Served at (Call.free ptr) t h g =
        let o : Outcome H =
          wrapped x real at MemType.free (not (ptr == 0)) (plain real (Call.free ptr))
            (event_of real at (Call.free ptr)) t h in
        subst
          (λ b.
            Served x functions
              (
                (seen real x functions (Call.free ptr) h).0,
                left real x functions at (Call.free ptr) h,
              )
              (traced_one real x functions at (Call.free ptr) h) t
              (if b then o else record { result = 0; heap = h; tls = t; sent = [] }))
          (sym (found MemType.free)) (wrapped-Served at (Call.free ptr) t h g)

    -- What a program of calls leaves.
    pub record Done (cs : List (Moment × Call)) (t : Tls) (h : H) (r : Ran real) : Type 0 where
      pub same_results : r.results ≡ plain_results real x functions cs h
      pub same_heap : r.heap ≡ plain_heap real x functions cs h
      pub moved : Moved x.unwind x.setup t r.tls r.sent (traced_calls real x functions cs h)
      pub tracing : IsTracing x functions r.tls

    pub run_program-Done :
        (cs : List (Moment × Call)) (t : Tls) (h : H)
        → IsTracing x functions t
        → Done cs t h (run_program real x cs t h)
    unfolding run_program
    run_program-Done [] t h g = record {
      same_results = refl;
      same_heap = refl;
      moved = record {
        valid = g.ready.valid;
        room = g.ready.room;
        good = tt;
        all_there = sym (append-nil (held t));
      };
      tracing = g;
    }
    run_program-Done (c ∷ cs) t h g =
        let o = serve_call real x c.0 c.1 t h in
        let s = serve_call-Served c.0 c.1 t h g in
        let h' = left real x functions c.0 c.1 h in
        let r = run_program real x cs o.tls o.heap in
        let d : Done cs o.tls h' r =
          subst (λ k. Done cs o.tls k (run_program real x cs o.tls o.heap)) s.same_heap
            (run_program-Done cs o.tls o.heap s.tracing) in
        record {
          same_results =
              ap (λ n. n ∷ r.results) s.same_result
              ∙ ap (λ l. (seen real x functions c.1 h).0 ∷ l) d.same_results;
          same_heap = d.same_heap;
          moved =
              Moved-join x.unwind x.setup t o.tls r.tls o.sent r.sent
                (traced_one real x functions c.0 c.1 h) (traced_calls real x functions cs h')
                s.moved d.moved;
          tracing = d.tracing;
        }
