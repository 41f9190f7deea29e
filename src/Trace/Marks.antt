-- ===== src/Trace/Marks.antt =====
-- The same buffers under other flags.
use cbtf_krell.Prelude.{
  ℕ, ◌<◌, ◌≤◌, ◌^◌, Bool, false, List, [], ◌∷◌, append-nil, ◌≡◌, refl, sym, length,
}
use cbtf_krell.Header.{DataHeader}
use cbtf_krell.Trace.Types.{Event, Tls, Blob, Setup, Env, with_function}
use cbtf_krell.Trace.Buffer.{initialize_data, send_samples, store}
use cbtf_krell.Trace.Held.{
  held, sent_calls, IsValid, Moved, AreGood, initialize_data-IsValid, send_samples-Moved,
}
use cbtf_krell.Trace.Store.{Fits, store-Moved}
use cbtf_krell.Trace.Depth.{store_depth}
use cbtf_krell.Trace.Interface.{IsReady}

-- The same buffers, with other flags.
abbrev pub mark : ℕ → Bool → Bool → DataHeader → List ℕ → Tls → Tls
mark d b c h functions t = record t {
  header = h;
  traced = functions;
  nesting_depth = d;
  do_trace = b;
  defer_sampling = c;
}

module _ (unwind : ℕ → List ℕ) (u : Setup) where
  pub IsValid-mark :
      (d : ℕ) (b c : Bool) (h : DataHeader) (functions : List ℕ) (t : Tls)
      → IsValid unwind u t
      → IsValid unwind u (mark d b c h functions t)
  IsValid-mark d b c h functions t v = record {
    stack_size = v.stack_size;
    event_size = v.event_size;
    stacks = v.stacks;
    table = v.table;
    stack_room = v.stack_room;
    events_le = v.events_le;
    placed = v.placed;
  }

  -- A move that changes flags only.
  pub Moved-mark :
      (d : ℕ) (b c : Bool) (h : DataHeader) (functions : List ℕ) (t : Tls)
      → IsValid unwind u t
      → t.events_len < u.event_size
      → Moved unwind u t (mark d b c h functions t) [] []
  Moved-mark d b c h functions t v r = record {
    valid = IsValid-mark d b c h functions t v;
    room = r;
    good = tt;
    all_there = sym (append-nil (held t));
  }

  -- A move between records with other flags.
  pub Moved-marked :
      (t t' : Tls) (d d' : ℕ) (b c b' c' : Bool) (h h' : DataHeader) (fs fs' : List ℕ)
      (sent : List Blob) (cs : List ℕ)
      → Moved unwind u (mark d b c h fs t) t' sent cs
      → Moved unwind u t (mark d' b' c' h' fs' t') sent cs
  Moved-marked t t' d d' b c b' c' h h' fs fs' sent cs m = record {
    valid = IsValid-mark d' b' c' h' fs' t' m.valid;
    room = m.room;
    good = m.good;
    all_there = m.all_there;
  }

  -- Raising the depth, pausing and the like.
  pub flagged :
      (d : ℕ) (b c : Bool) (t : Tls)
      → IsReady unwind u t
      → Moved unwind u t (mark d b c t.header t.traced t) [] []
  flagged d b c t r = Moved-mark d b c t.header t.traced t r.valid r.room

  -- Empty buffers, once the collector has its header and its flags.
  pub started :
      (now : ℕ) (b c : Bool) (h : DataHeader) (functions : List ℕ) (t : Tls)
      → length t.stacktraces ≡ u.stack_size
      → length t.events ≡ u.event_size
      → 0 < u.stack_size
      → IsValid unwind u (mark 0 b c h functions (initialize_data now t))
  started now b c h functions t p q z =
      IsValid-mark 0 b c h functions (initialize_data now t)
        (initialize_data-IsValid unwind u now t p q z)

  -- Recording between two changes of flags.
  pub stored :
      (small : u.stack_size ≤ 2 ^ 16) (env : Env) (e : Event) (function : ℕ) (b : Bool) (t : Tls)
      → 0 < function
      → Fits u (unwind e.call)
      → IsReady unwind u t
      → let o =
          store u env e
            (with_function function (unwind e.call))
            (mark 0 false t.defer_sampling t.header t.traced t) in
        Moved unwind u t
          (mark o.0.nesting_depth b o.0.defer_sampling o.0.header o.0.traced o.0)
          o.1
          (e.call ∷ [])
        × (o.0.nesting_depth ≡ 0)
  stored small env e function b t h f r =
      let t' = mark 0 false t.defer_sampling t.header t.traced t in
      let fs = with_function function (unwind e.call) in
      let o = store u env e fs t' in
      let v = IsValid-mark 0 false t.defer_sampling t.header t.traced t r.valid in
      (
        Moved-marked t o.0 0 o.0.nesting_depth false t.defer_sampling b o.0.defer_sampling t.header
            o.0.header t.traced o.0.traced o.1 (e.call ∷ [])
            (store-Moved unwind u small env e function t' h f v r.room),
        store_depth u env e fs t' refl,
      )

  -- Sending what is left at the stop.
  pub sent_at_stop :
      (env : Env) (h : DataHeader) (t : Tls)
      → IsValid unwind u t
      → 0 < u.event_size
      → let sent =
          (send_samples u env.rank env.ended env.begun
            (mark t.nesting_depth false t.defer_sampling h t.traced t)).1 in
        AreGood unwind sent × (sent_calls sent ≡ held t)
  unfolding send_samples
  sent_at_stop env h t v z =
      let t' = mark t.nesting_depth false t.defer_sampling h t.traced t in
      let v' = IsValid-mark t.nesting_depth false t.defer_sampling h t.traced t v in
      let m = send_samples-Moved unwind u env.rank env.ended env.begun t' v' z in
      (m.good, append-nil (held t))
