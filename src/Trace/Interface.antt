-- ===== src/Trace/Interface.antt =====
-- What a tracing collector promises: the laws of its operations, which the runs rest on and which each
-- collector fulfils.
use cbtf_krell.Prelude.{ℕ, suc, ◌-◌, ◌<◌, true, false, ◌≤◌, List, [], ◌∷◌, ◌≡◌, length}
use cbtf_krell.Header.{DataHeader}
use cbtf_krell.Trace.Types.{Event, Tls, Setup, Env, depth_range, increment, names}
use cbtf_krell.Trace.Held.{held, sent_calls, IsValid, Moved, AreGood}
use cbtf_krell.Trace.Store.{Fits}
use cbtf_krell.Trace.Run.{Operations}

-- A thread whose buffers are in order, with room for an event.
pub record IsReady (unwind : ℕ → List ℕ) (u : Setup) (t : Tls) : Type 0 where
  pub valid : IsValid unwind u t
  pub room : t.events_len < u.event_size

pub record Laws (o : Operations) (unwind : ℕ → List ℕ) (u : Setup) : Type 0 where
  -- The collector starts with empty buffers and no nesting.
  pub starts :
      (header : DataHeader) (functions : List ℕ) (now later : ℕ) (t : Tls)
      → length t.stacktraces ≡ u.stack_size
      → length t.events ≡ u.event_size
      → 0 < u.stack_size
      → let t' = o.collector_start header functions now later t in
        IsValid unwind u t' × (t'.events_len ≡ 0) × (t'.nesting_depth ≡ 0) × (held t' ≡ [])
  pub enters :
      (t : Tls) → (o.start_event t).0 ≡ record t { nesting_depth = increment t.nesting_depth }
  pub pauses :
      (t : Tls)
      → IsReady unwind u t
      → Moved unwind u t (o.collector_pause t) [] []
        × ((o.collector_pause t).nesting_depth ≡ t.nesting_depth)
  pub resumes :
      (t : Tls)
      → IsReady unwind u t
      → Moved unwind u t (o.collector_resume t) [] []
        × ((o.collector_resume t).nesting_depth ≡ t.nesting_depth)
  -- Outside nested calls, asking changes nothing.
  pub asks :
      (f : ℕ) (t : Tls)
      → IsReady unwind u t
      → t.nesting_depth ≤ 1
      → Moved unwind u t (o.do_trace f t).0 [] []
        × ((o.do_trace f t).0.nesting_depth ≡ t.nesting_depth)
  -- The outermost call is recorded.
  pub records :
      (env : Env) (e : Event) (function : ℕ) (t : Tls)
      → 0 < function
      → Fits u (unwind e.call)
      → IsReady unwind u t
      → t.nesting_depth ≡ 1
      → let r = o.record_event u env e function (unwind e.call) t in
        Moved unwind u t r.0 r.1 (e.call ∷ []) × (r.0.nesting_depth ≡ 0)
  -- A nested call is not.
  pub skips :
      (env : Env) (e : Event) (function : ℕ) (t : Tls) (d : ℕ)
      → IsReady unwind u t
      → t.nesting_depth ≡ suc (suc d)
      → suc (suc d) < depth_range
      → let r = o.record_event u env e function (unwind e.call) t in
        Moved unwind u t r.0 r.1 [] × (r.0.nesting_depth ≡ suc d)
  -- An event that was never started, and a call that is not traced inside nested ones.
  pub underflows :
      (env : Env) (e : Event) (function : ℕ) (frames : List ℕ) (t : Tls)
      → t.nesting_depth ≡ 0
      → o.record_event u env e function frames t
        ≡ (record t { do_trace = false; nesting_depth = depth_range - 1 }, [])
  pub lowers :
      (f : ℕ) (t : Tls)
      → t.do_trace ≡ true
      → names f t.traced ≡ false
      → t.nesting_depth ≡ 2
      → (o.do_trace f t).0 ≡ record t { nesting_depth = 1 }
  pub stops :
      (env : Env) (time : ℕ) (t : Tls)
      → IsValid unwind u t
      → 0 < u.event_size
      → let sent = (o.collector_stop u env time t).1 in
        AreGood unwind sent × (sent_calls sent ≡ held t)
