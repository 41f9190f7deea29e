-- ===== src/Trace/Store.antt =====
-- Recording an event keeps the invariant, and adds its call.
use cbtf_krell.Prelude.{
  ℕ, ◌+◌, ◌<◌, ◌≤◌, ◌^◌, ◌%◌, List, [], ◌∷◌, ◌++◌, append-nil, take-set, Option, none, some, ◌≡◌,
  refl, sym, ap, ◌∙◌, map, length, length-set, take, leb, ◌==◌, arith, Bool-cases, inl, inr,
}
use cbtf_krell.Trace.Types.{Event, Tls, Blob, Setup, Env, with_function}
use cbtf_krell.Trace.Buffer.{
  send_samples, store, add_stack, append_stack, place_at, place_stack, append_event, add_event,
}
use cbtf_krell.Trace.Search.{find_stack}
use cbtf_krell.Trace.Table.{Stands, AreFrames}
use cbtf_krell.Trace.Append.{Appended, append_stack-Appended, IsTable-Appended}
use cbtf_krell.Trace.Matched.{IsPlace, find_stack-IsPlace}
use cbtf_krell.Trace.Held.{
  held, call_of, map-append, IsValid, Moved, ArePlaced-Agrees, ArePlaced-append, Moved-join,
  send_samples-Moved,
}

-- The place that a stack trace got does not depend on its first frame.
pub IsPlace-with_function :
    (xs : List ℕ) (n f : ℕ) (fs : List ℕ) (p : ℕ)
    → IsPlace xs n (with_function f fs) p
    → IsPlace xs n fs p
IsPlace-with_function xs n f [] p i = i
IsPlace-with_function xs n f (g ∷ fs) p i = record { stands = i.stands; inside = i.inside }

-- Frames that can be recorded: two at least, none of them 0, and with room for them.
pub record Fits (u : Setup) (fs : List ℕ) : Type 0 where
  pub frames : AreFrames fs
  pub two : 2 ≤ length fs
  pub room : length fs + 1 < u.stack_size

Stands-prefix : (xs : List ℕ) (k : ℕ) (s ws : List ℕ) → Stands xs k (s ++ ws) → Stands xs k s
Stands-prefix xs k [] ws h = tt
Stands-prefix xs k (x ∷ s) ws h = (h.0, Stands-prefix xs (k + 1) s ws h.1)

-- A stack trace that was added is at its place.
Appended-IsPlace :
    (fs : List ℕ) (t t' : Tls)
    → 0 < length fs
    → Appended fs t t'
    → IsPlace t'.stacktraces t'.stacktraces_len fs t.stacktraces_len
Appended-IsPlace [] t t' h a = absurd (omega arith)
Appended-IsPlace (f ∷ fs) t t' h a = record {
  stands = Stands-prefix t'.stacktraces (t.stacktraces_len + 1) fs (0 ∷ []) a.written.1;
  inside = omega (arith, a.longer);
}

module _ (unwind : ℕ → List ℕ) (u : Setup) (small : u.stack_size ≤ 2 ^ 16) where
  append_stack-Moved :
      (fs : List ℕ) (t : Tls)
      → Fits u fs
      → IsValid unwind u t
      → t.events_len < u.event_size
      → t.stacktraces_len + length fs + 1 < u.stack_size
      → Moved unwind u t (append_stack u fs t) [] []
        × IsPlace
            (append_stack u fs t).stacktraces
            (append_stack u fs t).stacktraces_len
            fs
            t.stacktraces_len
  append_stack-Moved fs t f v r h =
      let a = append_stack-Appended u fs t f.frames (omega (arith, v.stack_size)) in
      let t' = append_stack u fs t in
      let valid : IsValid unwind u t' = record {
        stack_size = a.size ∙ v.stack_size;
        event_size = ap length a.same_events ∙ v.event_size;
        stacks = v.stacks ++ (fs ∷ []);
        table = IsTable-Appended fs t t' v.stacks v.table (omega (arith, f.two)) f.frames a;
        stack_room = omega (arith, a.longer);
        events_le = omega (arith, a.same_events_len);
        placed =
            rw (a.same_events, a.same_events_len)
              (ArePlaced-Agrees unwind t.stacktraces_len t'.stacktraces_len t.stacktraces
                t'.stacktraces (take t.events_len t.events) a.kept (omega (arith, a.longer))
                v.placed);
      } in
      let there : held t' ≡ held t = rw (a.same_events, a.same_events_len) refl in
      (
        record {
          valid = valid;
          room = omega (arith, a.same_events_len);
          good = tt;
          all_there = there ∙ sym (append-nil (held t));
        },
        Appended-IsPlace fs t t' (omega (arith, f.two)) a,
      )

  -- A stack trace has its place, and no call is lost.
  record Put (fs : List ℕ) (t : Tls) (r : ℕ × Tls × List Blob) : Type 0 where
    moved : Moved unwind u t r.1 r.2 []
    at : IsPlace r.1.stacktraces r.1.stacktraces_len fs r.0

  add_stack-Put :
      (env : Env) (fs : List ℕ) (t : Tls)
      → Fits u fs
      → IsValid unwind u t
      → t.events_len < u.event_size
      → Put fs t (add_stack u env fs t)
  unfolding add_stack
  add_stack-Put env fs t f v r =
      elim (Bool-cases (leb u.stack_size (t.stacktraces_len + length fs + 1))) [
        | inr fits ↦
            let (m, p) = append_stack-Moved fs t f v r (ground (arith, fits)) in
            rw fits (record { moved = m; at = p })
        | inl full ↦
            let (t', sent) = send_samples u env.rank env.ended env.begun t in
            let m = send_samples-Moved unwind u env.rank env.ended env.begun t v (omega arith) in
            let (n, p) = append_stack-Moved fs t' f m.valid m.room (omega (arith, f.room)) in
            rw full (record {
              moved = Moved-join unwind u t t' (append_stack u fs t') sent [] [] [] m n;
              at = p;
            })
      ]

  append_event-IsValid :
      (e : Event) (entry : ℕ) (t : Tls)
      → IsValid unwind u t
      → t.events_len < u.event_size
      → IsPlace t.stacktraces t.stacktraces_len (unwind e.call) entry
      → IsValid unwind u (append_event e entry t)
        × (held (append_event e entry t) ≡ held t ++ (e.call ∷ []))
  append_event-IsValid e entry t v r p =
      let e' : Event = record e { stacktrace = entry % 2 ^ 16 } in
      let longer =
        take-set t.events t.events_len (t.events_len + 1) e' (omega arith)
          (omega (arith, v.event_size)) in
      let same : entry % 2 ^ 16 ≡ entry = omega (arith, p.inside, v.stack_room) in
      (
        record {
          stack_size = v.stack_size;
          event_size = length-set t.events t.events_len e' ∙ v.event_size;
          stacks = v.stacks;
          table = v.table;
          stack_room = v.stack_room;
          events_le = omega arith;
          placed = rw longer (
              ArePlaced-append unwind t.stacktraces t.stacktraces_len (take t.events_len t.events)
                e' v.placed (rw same p));
        },
        ap (λ es. map call_of es) longer
            ∙ map-append call_of (take t.events_len t.events) (e' ∷ []),
      )

  add_event-Moved :
      (env : Env) (e : Event) (entry : ℕ) (t : Tls)
      → IsValid unwind u t
      → t.events_len < u.event_size
      → IsPlace t.stacktraces t.stacktraces_len (unwind e.call) entry
      → Moved unwind u t (add_event u env e entry t).0 (add_event u env e entry t).1 (e.call ∷ [])
  unfolding add_event
  add_event-Moved env e entry t v r p =
      let t' = append_event e entry t in
      let (v', there) = append_event-IsValid e entry t v r p in
      elim (Bool-cases (t.events_len + 1 == u.event_size)) [
        | inr fits ↦
            rw fits
              (record { valid = v'; room = ground (arith, fits); good = tt; all_there = there })
        | inl full ↦
            let m =
              send_samples-Moved unwind u env.rank env.ended' env.begun' t' v' (omega arith) in
            rw full (record {
              valid = m.valid;
              room = m.room;
              good = m.good;
              all_there = m.all_there ∙ append-nil (held t') ∙ there;
            })
      ]

  place_at-Put :
      (env : Env) (fs : List ℕ) (t : Tls) (place : Option ℕ)
      → Fits u fs
      → IsValid unwind u t
      → t.events_len < u.event_size
      → find_stack t.stacktraces t.stacktraces_len fs ≡ place
      → Put fs t (place_at u env fs t place)
  unfolding place_at
  place_at-Put env fs t none f v r e = add_stack-Put env fs t f v r
  place_at-Put env fs t (some p) f v r e = record {
    moved = record { valid = v; room = r; good = tt; all_there = sym (append-nil (held t)) };
    at = find_stack-IsPlace t.stacktraces t.stacktraces_len fs v.stacks p v.table f.frames f.two e;
  }

  Fits-with_function :
      (function : ℕ) (fs : List ℕ) → 0 < function → Fits u fs → Fits u (with_function function fs)
  Fits-with_function function [] h f = f
  Fits-with_function function (g ∷ fs) h f = record {
    frames = (h, f.frames.1);
    two = f.two;
    room = f.room;
  }

  pub store-Moved :
      (env : Env) (e : Event) (function : ℕ) (t : Tls)
      → 0 < function
      → Fits u (unwind e.call)
      → IsValid unwind u t
      → t.events_len < u.event_size
      → let r = store u env e (with_function function (unwind e.call)) t in
        Moved unwind u t r.0 r.1 (e.call ∷ [])
  unfolding store place_stack
  store-Moved env e function t h f v r =
      let fs = with_function function (unwind e.call) in
      let place = find_stack t.stacktraces t.stacktraces_len fs in
      let put = place_at-Put env fs t place (Fits-with_function function _ h f) v r refl in
      let p = place_at u env fs t place in
      let at = IsPlace-with_function p.1.stacktraces p.1.stacktraces_len function _ p.0 put.at in
      let m = add_event-Moved env e p.0 p.1 put.moved.valid put.moved.room at in
      let q = add_event u env e p.0 p.1 in
      Moved-join unwind u t p.1 q.0 p.2 q.1 [] (e.call ∷ []) put.moved m
