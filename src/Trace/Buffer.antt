-- ===== src/Trace/Buffer.antt =====
-- core/collectors/io/collector.c: sending the tracing buffer, and adding stack traces and events to it.
use cbtf_krell.Prelude.{
  ◌&&◌, zeroed, ℕ, ◌+◌, ◌-◌, ◌^◌, ◌%◌, List, [], ◌∷◌, ◌++◌, Option, none, some, ltb, leb, ◌==◌,
  if◌then◌else◌, length, set, take,
}
use cbtf_krell.Trace.Types.{Event, zero_event, Tls, Blob, Setup, Env}
use cbtf_krell.Trace.Search.{find_stack}

abbrev pub max_address : ℕ
max_address = 2 ^ 64 - 1

abbrev pub zeroed_events : List Event → List Event
zeroed_events [] = []
zeroed_events (_ ∷ es) = zero_event ∷ zeroed_events es

-- `initialize_data`
unfoldable pub initialize_data : ℕ → Tls → Tls
initialize_data now t = record t {
  nesting_depth = 0;
  header = record t.header {
    time_begin = now;
    time_end = 0;
    addr_begin = max_address;
    addr_end = 0;
  };
  stacktraces_len = 0;
  events_len = 0;
  stacktraces = zeroed t.stacktraces;
  events = zeroed_events t.events;
}

abbrev pub blob_of : Tls → Blob
blob_of t = record {
  header = t.header;
  stacks = take t.stacktraces_len t.stacktraces;
  events = take t.events_len t.events;
}

abbrev pub closed : Setup → Option ℕ → ℕ → Tls → Tls
closed u rank ended t = record t {
  header = record t.header { id = u.unique_id; time_end = ended; rank = rank };
}

-- `send_samples`, at the times `ended` and `begun`
unfoldable pub send_samples : Setup → Option ℕ → ℕ → ℕ → Tls → Tls × List Blob
unfolding initialize_data
send_samples u rank ended begun t =
    let t' = closed u rank ended t in (initialize_data begun t', blob_of t' ∷ [])

-- One round of the loop that adds the frames: the frame `f` at the place `k`.
abbrev pub add_frame : Setup → ℕ → ℕ → Tls → Tls
add_frame u k f t = record t {
  stacktraces = if u.skips_zero && (f == 0) then t.stacktraces else set t.stacktraces k f;
  header = record t.header {
    addr_begin = if ltb f t.header.addr_begin then f else t.header.addr_begin;
    addr_end = if ltb t.header.addr_end f then f else t.header.addr_end;
  };
}

unfoldable pub add_frames : Setup → ℕ → List ℕ → Tls → Tls
add_frames u k [] t = t
add_frames u k (f ∷ fs) t = add_frames u (k + 1) fs (add_frame u k f t)

-- The frames, a terminating zero, and the new length.
unfoldable pub append_stack : Setup → List ℕ → Tls → Tls
unfolding add_frames
append_stack u fs t =
    let entry = t.stacktraces_len in
    let t' = add_frames u entry fs t in
    record t' {
      stacktraces = set t'.stacktraces (entry + length fs) 0;
      stacktraces_len = entry + (length fs + 1);
    }

-- Adding a stack trace: the place it gets, the record, and what is sent for want of room.
unfoldable pub add_stack : Setup → Env → List ℕ → Tls → ℕ × Tls × List Blob
unfolding send_samples append_stack
add_stack u env fs t =
    let (t', sent) =
      if leb u.stack_size (t.stacktraces_len + length fs + 1)
      then send_samples u env.rank env.ended env.begun t
      else (t, []) in
    (t'.stacktraces_len, append_stack u fs t', sent)

-- The place of the stack trace, which is added where it is not found.
unfoldable pub place_at : Setup → Env → List ℕ → Tls → Option ℕ → ℕ × Tls × List Blob
unfolding add_stack
place_at u env fs t (some start) = (start, t, [])
place_at u env fs t none = add_stack u env fs t

unfoldable pub place_stack : Setup → Env → List ℕ → Tls → ℕ × Tls × List Blob
unfolding find_stack place_at
place_stack u env fs t = place_at u env fs t (find_stack t.stacktraces t.stacktraces_len fs)

-- The index of a stack trace is a `uint16_t`.
abbrev pub append_event : Event → ℕ → Tls → Tls
append_event e entry t = record t {
  events = set t.events t.events_len (record e { stacktrace = entry % 2 ^ 16 });
  events_len = t.events_len + 1;
}

-- Adding an event, and sending where the array of events is then full.
unfoldable pub add_event : Setup → Env → Event → ℕ → Tls → Tls × List Blob
unfolding send_samples
add_event u env e entry t =
    let t' = append_event e entry t in
    if t'.events_len == u.event_size
    then send_samples u env.rank env.ended' env.begun' t'
    else (t', [])

-- What the collectors do with the frames, once the traced function is in place.
unfoldable pub store : Setup → Env → Event → List ℕ → Tls → Tls × List Blob
unfolding place_stack add_event
store u env e fs t =
    let (entry, t', sent) = place_stack u env fs t in
    let (t'', sent') = add_event u env e entry t' in (t'', sent ++ sent')
