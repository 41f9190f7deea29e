-- ===== src/Trace/Serve.antt =====
-- What the requests of a run do, under any collector that keeps the laws.
use cbtf_krell.Prelude.{
  ℕ, suc, zero, ◌+◌, ◌<◌, List, [], ◌∷◌, append-nil, ◌≡◌, sym, length, arith, ◌∙◌,
}
use cbtf_krell.Trace.Types.{Event, Tls, Setup, depth_range, increment}
use cbtf_krell.Trace.Held.{held, Moved, Moved-join}
use cbtf_krell.Trace.Run.{
  Operations, Request, enter, pause, resume, leave, ask, serve_all, Nests, outermost,
}
use cbtf_krell.Trace.Interface.{IsReady, Laws}
use cbtf_krell.Trace.Marks.{flagged}

module _ (o : Operations) (unwind : ℕ → List ℕ) (u : Setup) (l : Laws o unwind u) where
  -- A request that adds the calls `cs` and leads to the depth `d`, and the requests after it.
  abbrev Rest : List Request → ℕ → Tls → Type 0
  Rest rs d t =
      Moved unwind u t (serve_all o u unwind rs t).0 (serve_all o u unwind rs t).1 (outermost d rs)

  pub serve_all-Moved :
      (rs : List Request) (d : ℕ) (t : Tls)
      → d + length rs < depth_range
      → Nests u unwind d rs
      → IsReady unwind u t
      → t.nesting_depth ≡ d
      → Rest rs d t
  unfolding serve_all
  serve_all-Moved [] d t b n r e = record {
    valid = r.valid;
    room = r.room;
    good = tt;
    all_there = sym (append-nil (held t));
  }
  serve_all-Moved (enter ∷ rs) d t b n r e =
      let t' : Tls = record t { nesting_depth = increment t.nesting_depth } in
      let m = flagged unwind u (increment t.nesting_depth) t.do_trace t.defer_sampling t r in
      let p = serve_all o u unwind rs t' in
      rw (l.enters t) (
        Moved-join unwind u t t' p.0 [] p.1 [] (outermost (suc d) rs) m (
          serve_all-Moved rs (suc d) t' (omega arith) n (record { valid = m.valid; room = m.room })
            (omega arith)))
  serve_all-Moved (pause ∷ rs) d t b n r e =
      let t' = o.collector_pause t in
      let (m, at) = l.pauses t r in
      let p = serve_all o u unwind rs t' in
      Moved-join unwind u t t' p.0 [] p.1 [] (outermost d rs) m (
        serve_all-Moved rs d t' (omega arith) n (record { valid = m.valid; room = m.room })
          (at ∙ e))
  serve_all-Moved (resume ∷ rs) d t b n r e =
      let t' = o.collector_resume t in
      let (m, at) = l.resumes t r in
      let p = serve_all o u unwind rs t' in
      Moved-join unwind u t t' p.0 [] p.1 [] (outermost d rs) m (
        serve_all-Moved rs d t' (omega arith) n (record { valid = m.valid; room = m.room })
          (at ∙ e))
  serve_all-Moved (leave env c function ∷ rs) zero t b n r e = absurd n
  serve_all-Moved (leave env c function ∷ rs) (suc zero) t b n r e =
      let call : Event = record { call = c; stacktrace = 0; pathindex = 0 } in
      let q = o.record_event u env call function (unwind c) t in
      let (m, at) = l.records env call function t n.0 n.1 r e in
      let p = serve_all o u unwind rs q.0 in
      Moved-join unwind u t q.0 p.0 q.1 p.1 (c ∷ []) (outermost zero rs) m (
        serve_all-Moved rs zero q.0 (omega arith) n.2 (record { valid = m.valid; room = m.room })
          at)
  serve_all-Moved (leave env c function ∷ rs) (suc (suc d)) t b n r e =
      let call : Event = record { call = c; stacktrace = 0; pathindex = 0 } in
      let q = o.record_event u env call function (unwind c) t in
      let (m, at) = l.skips env call function t d r e (omega arith) in
      let p = serve_all o u unwind rs q.0 in
      Moved-join unwind u t q.0 p.0 q.1 p.1 [] (outermost (suc d) rs) m (
        serve_all-Moved rs (suc d) q.0 (omega arith) n.2 (record { valid = m.valid; room = m.room })
          at)
  serve_all-Moved (ask f ∷ rs) d t b n r e =
      let t' = (o.do_trace f t).0 in
      let (m, at) = l.asks f t r (omega (arith, n.0)) in
      let p = serve_all o u unwind rs t' in
      Moved-join unwind u t t' p.0 [] p.1 [] (outermost d rs) m (
        serve_all-Moved rs d t' (omega arith) n.1 (record { valid = m.valid; room = m.room })
          (at ∙ e))
