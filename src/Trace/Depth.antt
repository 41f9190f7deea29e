-- ===== src/Trace/Depth.antt =====
-- Recording an event leaves the depth at 0.
use cbtf_krell.Prelude.{ℕ, ◌+◌, List, [], ◌∷◌, Option, none, some, ◌≡◌, refl, arith}
use cbtf_krell.Trace.Types.{Event, Tls, Setup, Env}
use cbtf_krell.Trace.Search.{find_stack}
use cbtf_krell.Trace.Buffer.{
  add_frames, add_frame, append_stack, add_stack, place_at, place_stack, add_event, send_samples,
  store,
}

add_frames_depth :
    (u : Setup) (k : ℕ) (fs : List ℕ) (t : Tls)
    → (add_frames u k fs t).nesting_depth ≡ t.nesting_depth
unfolding add_frames
add_frames_depth u k [] t = refl
add_frames_depth u k (f ∷ fs) t = add_frames_depth u (k + 1) fs (add_frame u k f t)

append_stack_depth :
    (u : Setup) (fs : List ℕ) (t : Tls) → (append_stack u fs t).nesting_depth ≡ t.nesting_depth
unfolding append_stack
append_stack_depth u fs t = add_frames_depth u t.stacktraces_len fs t

add_stack_depth :
    (u : Setup) (env : Env) (fs : List ℕ) (t : Tls)
    → t.nesting_depth ≡ 0
    → (add_stack u env fs t).1.nesting_depth ≡ 0
unfolding add_stack
add_stack_depth u env fs t e = ground (
  arith,
  append_stack_depth u fs t,
  append_stack_depth u fs (send_samples u env.rank env.ended env.begun t).0,
)

place_at_depth :
    (u : Setup) (env : Env) (fs : List ℕ) (t : Tls) (place : Option ℕ)
    → t.nesting_depth ≡ 0
    → (place_at u env fs t place).1.nesting_depth ≡ 0
unfolding place_at
place_at_depth u env fs t none e = add_stack_depth u env fs t e
place_at_depth u env fs t (some p) e = e

add_event_depth :
    (u : Setup) (env : Env) (e : Event) (entry : ℕ) (t : Tls)
    → t.nesting_depth ≡ 0
    → (add_event u env e entry t).0.nesting_depth ≡ 0
unfolding add_event
add_event_depth u env e entry t h = ground arith

pub store_depth :
    (u : Setup) (env : Env) (e : Event) (fs : List ℕ) (t : Tls)
    → t.nesting_depth ≡ 0
    → (store u env e fs t).0.nesting_depth ≡ 0
unfolding store place_stack
store_depth u env e fs t h =
    let place = find_stack t.stacktraces t.stacktraces_len fs in
    let p = place_at u env fs t place in
    add_event_depth u env e p.0 p.1 (place_at_depth u env fs t place h)
