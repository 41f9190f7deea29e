-- ===== src/Service/Delivered.antt =====
-- All the linked objects of a thread, from the first that is recorded to the last message.
use cbtf_krell.Prelude.{
  append-nil, append_assoc, ℕ, ◌-◌, ◌^◌, ◌<◌, Bool, true, List, [], ◌∷◌, ◌++◌, none, some, ◌≡◌, ap,
  sym, ◌∙◌, if◌then◌else◌, arith,
}
use cbtf_krell.Service.Types.{uses_mrnet, Setup, State, Env, LinkedObject, Table, File}
use cbtf_krell.Service.Objects.{name_thread, event_header, record_dso, record_dlopen, flush_dsos}
use cbtf_krell.Service.Recorded.{
  IsValid, goes_out, held, concat, concat-append, add_object_lem, concat-flush_dsos,
}

-- A call of one of the two recording functions.
pub data Recording : Type 0 where
  dso : Env → File → ℕ → ℕ → Bool → Recording
  dlopened : Env → File → ℕ → ℕ → ℕ → ℕ → Recording

unfoldable pub serve_recording :
    ℕ → Setup → Recording → State → Table → State × Table × List (List LinkedObject)
unfolding record_dso record_dlopen
serve_recording size u (dso env f begin end is_dlopen) s t =
    record_dso size u env f begin end is_dlopen s t
serve_recording size u (dlopened env f begin end b_time e_time) s t =
    record_dlopen size u env f begin end b_time e_time s t

unfoldable pub serve_recordings :
    ℕ → Setup → List Recording → State → Table → State × Table × List (List LinkedObject)
unfolding serve_recording
serve_recordings size u [] s t = (s, t, [])
serve_recordings size u (r ∷ rs) s t =
    let (s', t', sent) = serve_recording size u r s t in
    let (s'', t'', more) = serve_recordings size u rs s' t' in (s'', t'', sent ++ more)

-- What each call should leave a record of.
abbrev pub object_of : Setup → ℕ → Recording → LinkedObject
object_of u started (dso env f begin end is_dlopen) = record {
  name = f.name;
  addr_begin = begin;
  addr_end = end;
  time_begin = if is_dlopen then env.now else started;
  time_end = if is_dlopen then 2 ^ 64 - 1 else env.now;
  is_open = if uses_mrnet u.build then none else some is_dlopen;
  is_executable = some f.of_executable;
}
object_of u started (dlopened env f begin end b_time e_time) = record {
  name = f.name;
  addr_begin = begin;
  addr_end = end;
  time_begin = b_time;
  time_end = e_time;
  is_open = if uses_mrnet u.build then none else some true;
  is_executable = if uses_mrnet u.build then some f.of_executable else none;
}

abbrev pub objects_of : Setup → ℕ → List Recording → List LinkedObject
objects_of u started [] = []
objects_of u started (r ∷ rs) = object_of u started r ∷ objects_of u started rs

abbrev pub name_length : Recording → ℕ
name_length (dso env f begin end is_dlopen) = f.name_len
name_length (dlopened env f begin end b_time e_time) = f.name_len

-- Every file has a name.
abbrev pub AllNamed : List Recording → Type 0
AllNamed [] = Unit
AllNamed (r ∷ rs) = (0 < name_length r) × AllNamed rs

-- What one recording leaves.
record Served (u : Setup) (r : Recording) (s : State) (t : Table)
    (o : State × Table × List (List LinkedObject)) : Type 0 where
  pub valid : IsValid o.1
  pub kept : concat o.2 ++ held o.1 ≡ held t ++ (object_of u s.thread.time_started r ∷ [])
  pub still : goes_out u o.0 ≡ true
  pub time : o.0.thread.time_started ≡ s.thread.time_started

name_thread_lem :
    (u : Setup) (env : Env) (s : State)
    → (goes_out u (name_thread u env s) ≡ goes_out u s)
      × ((name_thread u env s).thread.time_started ≡ s.thread.time_started)
unfolding name_thread
name_thread_lem u env s = ground arith

IsValid-header :
    (t : Table) (env : Env) → IsValid t → IsValid (record t { dso_header = event_header env })
IsValid-header t env v = record { size = v.size; len_le = v.len_le; names = v.names }

serve_recording-Served :
    (size : ℕ) (u : Setup) (r : Recording) (s : State) (t : Table)
    → IsValid t
    → goes_out u s ≡ true
    → 0 < name_length r
    → Served u r s t (serve_recording size u r s t)
unfolding serve_recording
serve_recording-Served size u (dso env f begin end is_dlopen) s t v g n =
    let (out, time) = name_thread_lem u env s in
    let (valid, kept) =
      add_object_lem size u (name_thread u env s)
        (object_of u s.thread.time_started (dso env f begin end is_dlopen)) f.name_len
        (record t { dso_header = event_header env }) (IsValid-header t env v) (out ∙ g) n in
    record { valid = valid; kept = kept; still = out ∙ g; time = time }
serve_recording-Served size u (dlopened env f begin end b_time e_time) s t v g n =
    let (out, time) = name_thread_lem u env s in
    let (valid, kept) =
      add_object_lem size u (name_thread u env s)
        (object_of u s.thread.time_started (dlopened env f begin end b_time e_time)) f.name_len
        (record t { dso_header = event_header env }) (IsValid-header t env v) (out ∙ g) n in
    record { valid = valid; kept = kept; still = out ∙ g; time = time }

serve_recordings-kept :
    (size : ℕ) (u : Setup) (rs : List Recording) (s : State) (t : Table)
    → IsValid t
    → goes_out u s ≡ true
    → AllNamed rs
    → let o = serve_recordings size u rs s t in
      IsValid o.1
      × (goes_out u o.0 ≡ true)
      × (concat o.2 ++ held o.1 ≡ held t ++ objects_of u s.thread.time_started rs)
unfolding serve_recordings
serve_recordings-kept size u [] s t v g n = (v, g, sym (append-nil (held t)))
serve_recordings-kept size u (r ∷ rs) s t v g n =
    let c = serve_recording-Served size u r s t v g n.0 in
    let o = serve_recording size u r s t in
    let (valid, out, rest) = serve_recordings-kept size u rs o.0 o.1 c.valid c.still n.1 in
    let p = serve_recordings size u rs o.0 o.1 in
    let x = object_of u s.thread.time_started r in
    let xs = objects_of u s.thread.time_started rs in
    (
      valid,
      out,
      ap (λ ys. ys ++ held p.1) (concat-append o.2 p.2)
          ∙ append_assoc (concat o.2) (concat p.2) (held p.1)
          ∙ ap (λ ys. concat o.2 ++ ys) (rest ∙ ap (λ m. held o.1 ++ objects_of u m rs) c.time)
          ∙ sym (append_assoc (concat o.2) (held o.1) xs)
          ∙ ap (λ ys. ys ++ xs) c.kept
          ∙ append_assoc (held t) (x ∷ []) xs,
    )

-- Where what the service sends goes out (to files, or to MRNet with a connection), from a table within
-- its bounds, over any sequence of calls that record a linked object with a name: the table is within
-- its bounds again, and when it has been sent at last, the blobs hold what the table held at first and
-- then one object for each call, in the order of the calls, as it was given.
pub all_objects_delivered :
    (size : ℕ) (u : Setup) (rs : List Recording) (s : State) (t : Table)
    → IsValid t
    → goes_out u s ≡ true
    → AllNamed rs
    → let o = serve_recordings size u rs s t in
      IsValid o.1
      × (concat (o.2 ++ (flush_dsos u o.0 o.1).1) ≡ held t ++ objects_of u s.thread.time_started rs)
all_objects_delivered size u rs s t v g n =
    let o = serve_recordings size u rs s t in
    let (valid, out, kept) = serve_recordings-kept size u rs s t v g n in
    (
      valid,
      concat-append o.2 (flush_dsos u o.0 o.1).1
          ∙ ap (λ ys. concat o.2 ++ ys) (concat-flush_dsos u o.0 o.1 out)
          ∙ kept,
    )
