-- ===== src/Trace/Wrappers/Kept.antt =====
-- Recording an event keeps the names of the traced functions.
use cbtf_krell.Prelude.{
  ℕ, List, [], ◌∷◌, Option, none, some, ◌≡◌, refl, ◌∙◌, leb, ◌+◌, length, ◌==◌, Bool-cases, inl,
  inr,
}
use cbtf_krell.Trace.Types.{Event, Tls, Setup, Env}
use cbtf_krell.Trace.Search.{find_stack}
use cbtf_krell.Trace.Buffer.{
  add_frame, add_frames, append_stack, add_stack, place_at, place_stack, add_event, store,
  send_samples, initialize_data,
}

module _ (u : Setup) (env : Env) where
  add_frames-traced : (k : ℕ) (fs : List ℕ) (t : Tls) → (add_frames u k fs t).traced ≡ t.traced
  unfolding add_frames
  add_frames-traced k [] t = refl
  add_frames-traced k (f ∷ fs) t = add_frames-traced (k + 1) fs (add_frame u k f t)

  append_stack-traced : (fs : List ℕ) (t : Tls) → (append_stack u fs t).traced ≡ t.traced
  unfolding append_stack
  append_stack-traced fs t = add_frames-traced t.stacktraces_len fs t

  add_stack-traced : (fs : List ℕ) (t : Tls) → (add_stack u env fs t).1.traced ≡ t.traced
  unfolding add_stack send_samples initialize_data
  add_stack-traced fs t = elim (Bool-cases (leb u.stack_size (t.stacktraces_len + length fs + 1))) [
    | inl full ↦ rw full (append_stack-traced fs _)
    | inr room ↦ rw room (append_stack-traced fs t)
  ]

  place_at-traced :
      (fs : List ℕ) (t : Tls) (found : Option ℕ) → (place_at u env fs t found).1.traced ≡ t.traced
  unfolding place_at
  place_at-traced fs t (some start) = refl
  place_at-traced fs t none = add_stack-traced fs t

  add_event-traced :
      (e : Event) (entry : ℕ) (t : Tls) → (add_event u env e entry t).0.traced ≡ t.traced
  unfolding add_event send_samples initialize_data
  add_event-traced e entry t = elim (Bool-cases (t.events_len + 1 == u.event_size)) [
    | inl full ↦ rw full refl
    | inr room ↦ rw room refl
  ]

  pub store-traced : (e : Event) (fs : List ℕ) (t : Tls) → (store u env e fs t).0.traced ≡ t.traced
  unfolding store place_stack
  store-traced e fs t =
      let p = place_stack u env fs t in
      add_event-traced e p.0 p.1
      ∙ place_at-traced fs t (find_stack t.stacktraces t.stacktraces_len fs)
