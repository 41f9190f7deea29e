-- ===== src/Service/Quiet.antt =====
-- Recording linked objects does nothing else: the thread's status and the flags of the messages stay,
-- and what goes to MRNet is sent over a connection.
use cbtf_krell.Prelude.{
  ℕ, Bool, true, false, ◌&&◌, List, [], ◌∷◌, ◌++◌, ◌≡◌, refl, subst, ◌∙◌, ◌⊎◌, inl, inr, ltb, arith,
  Bool-cases, if◌then◌else◌, ◌*◌, ◌+◌,
}
use cbtf_krell.Service.Types.{
  uses_mrnet, Setup, State, Env, Action, Effect, LinkedObject, Table, Mapped, send_objects,
  write_objects,
}
use cbtf_krell.Service.Control.{◌then_do◌}
use cbtf_krell.Service.Objects.{
  max_linked_objects, send_dsos, add_object, name_thread, record_dso, record_dlopen, flush_dsos,
  event_header,
}
use cbtf_krell.Service.Recorded.{goes_out}
use cbtf_krell.Service.Delivered.{dso, dlopened, object_of}
use cbtf_krell.Service.Dsos.{
  messages, store_table, record_mapped, record_all, flush_table, record_objects, record_opened,
}

-- The actions are messages about objects, those to MRNet over a connection.
abbrev pub about_objects : Bool → List Action → Bool
about_objects linked [] = true
about_objects linked (send_objects _ _ ∷ acts) = linked && about_objects linked acts
about_objects linked (write_objects _ _ ∷ acts) = about_objects linked acts
about_objects linked (_ ∷ acts) = false

pub record Quiet (s : State) (r : Effect) : Type 0 where
  pub linked : r.0.process.connected_to_mrnet ≡ s.process.connected_to_mrnet
  pub told : r.0.thread.sent_attached_to_threads ≡ s.thread.sent_attached_to_threads
  pub status : r.0.thread.sampling_status ≡ s.thread.sampling_status
  pub about : about_objects s.process.connected_to_mrnet r.1 ≡ true

about_objects-append :
    (b : Bool) (xs ys : List Action)
    → about_objects b xs ≡ true
    → about_objects b ys ≡ true
    → about_objects b (xs ++ ys) ≡ true
about_objects-append b [] ys h k = k
about_objects-append b (send_objects n os ∷ xs) ys h k =
    ground (arith, about_objects-append b xs ys)
about_objects-append b (write_objects n os ∷ xs) ys h k = about_objects-append b xs ys h k
about_objects-append b (_ ∷ xs) ys h k = absurd (ground arith)

Quiet-then_do :
    (s : State) (r : Effect) (f : State → Effect)
    → Quiet s r
    → Quiet r.0 (f r.0)
    → Quiet s (r then_do f)
Quiet-then_do s r f q p = record {
  linked = p.linked ∙ q.linked;
  told = p.told ∙ q.told;
  status = p.status ∙ q.status;
  about =
      about_objects-append s.process.connected_to_mrnet r.1 (f r.0).1 q.about
        (subst (λ b. about_objects b (f r.0).1 ≡ true) q.linked p.about);
}

Quiet-if :
    (b : Bool) (s : State) (r q : Effect) → Quiet s r → Quiet s q → Quiet s (if b then r else q)
Quiet-if true s r q h k = h
Quiet-if false s r q h k = k

-- What is sent of a table is nothing, or it goes out.
abbrev Sends : Setup → State → List (List LinkedObject) → Type 0
Sends u s bs = (bs ≡ []) ⊎ (goes_out u s ≡ true)

send_dsos-Sends : (u : Setup) (s : State) (t : Table) → Sends u s (send_dsos u s t).1
unfolding send_dsos
send_dsos-Sends u s t = elim (Bool-cases (goes_out u s)) [
  | inl out ↦ inr out
  | inr kept ↦ inl (rw kept refl)
]

add_object-Sends :
    (size : ℕ) (u : Setup) (s : State) (o : LinkedObject) (n : ℕ) (t : Table)
    → Sends u s (add_object size u s o n t).1
unfolding add_object
add_object-Sends size u s o n t =
    elim (Bool-cases (ltb (max_linked_objects * size) (t.len * size + (t.dsoname_len + n)))) [
      | inl full ↦ rw full (send_dsos-Sends u s t)
      | inr fits ↦ rw fits (inl refl)
    ]

flush_dsos-Sends : (u : Setup) (s : State) (t : Table) → Sends u s (flush_dsos u s t).1
unfolding flush_dsos
flush_dsos-Sends u s t = elim (Bool-cases (ltb 0 t.len)) [
  | inl some_held ↦ rw some_held (send_dsos-Sends u s t)
  | inr none_held ↦ rw none_held (inl refl)
]

messages-about :
    (u : Setup) (s : State) (t : Table) (bs : List (List LinkedObject))
    → goes_out u s ≡ true
    → about_objects s.process.connected_to_mrnet (messages u s t bs) ≡ true
messages-about u s t [] h = refl
messages-about u s t (b ∷ bs) h = elim (Bool-cases (uses_mrnet u.build)) [
  | inl yes_mrnet ↦
      let linked : s.process.connected_to_mrnet ≡ true = ground (arith, h) in
      simp yes_mrnet (ground (arith, linked, messages-about u s t bs h))
  | inr no_mrnet ↦ simp no_mrnet (messages-about u s t bs h)
]

store_table-Quiet :
    (u : Setup) (s : State) (t : Table) (bs : List (List LinkedObject))
    → Sends u s bs
    → Quiet s (store_table u (s, t, bs))
store_table-Quiet u s t bs h = record {
  linked = refl;
  told = refl;
  status = refl;
  about = elim h [ inl none_sent ↦ rw none_sent refl | inr out ↦ messages-about u s t bs out ];
}

name_thread-Quiet : (u : Setup) (env : Env) (s : State) → Quiet s (name_thread u env s, [])
unfolding name_thread
name_thread-Quiet u env s = record {
  linked = ground arith;
  told = ground arith;
  status = ground arith;
  about = refl;
}

-- Both recording functions name the thread, and then store the table.
named-Quiet :
    (u : Setup) (env : Env) (s : State) (t : Table) (bs : List (List LinkedObject))
    → Sends u (name_thread u env s) bs
    → Quiet s (store_table u (name_thread u env s, t, bs))
named-Quiet u env s t bs h =
    let n = name_thread u env s in
    Quiet-then_do s (n, []) (λ _. store_table u (n, t, bs)) (name_thread-Quiet u env s)
      (store_table-Quiet u n t bs h)

record_mapped-Quiet :
    (u : Setup) (env : Env) (m : Mapped) (s : State) → Quiet s (record_mapped u env m s)
unfolding record_mapped record_dso
record_mapped-Quiet u env m s =
    let at_time : Env = record env { now = m.time } in
    let o = object_of u s.thread.time_started (dso at_time m.file m.addr_begin m.addr_end false) in
    named-Quiet u at_time s _ _ (
      add_object-Sends u.object_size u (name_thread u at_time s) o m.file.name_len
        (record s.thread.dsos { dso_header = event_header at_time }))

record_all-Quiet :
    (u : Setup) (env : Env) (ms : List Mapped) (s : State) → Quiet s (record_all u env ms s)
unfolding record_all
record_all-Quiet u env [] s = record { linked = refl; told = refl; status = refl; about = refl }
record_all-Quiet u env (m ∷ ms) s =
    Quiet-then_do s (record_mapped u env m s) (record_all u env ms) (record_mapped-Quiet u env m s)
      (record_all-Quiet u env ms (record_mapped u env m s).0)

flush_table-Quiet : (u : Setup) (s : State) → Quiet s (flush_table u s)
unfolding flush_table
flush_table-Quiet u s = store_table-Quiet u s _ _ (flush_dsos-Sends u s s.thread.dsos)

pub record_objects-Quiet : (u : Setup) (env : Env) (s : State) → Quiet s (record_objects u env s)
unfolding record_objects
record_objects-Quiet u env s =
    Quiet-if u.is_overview s (s, []) (record_all u env env.objects s then_do flush_table u)
      (record { linked = refl; told = refl; status = refl; about = refl })
      (Quiet-then_do s (record_all u env env.objects s) (flush_table u)
        (record_all-Quiet u env env.objects s)
        (flush_table-Quiet u (record_all u env env.objects s).0))

pub record_opened-Quiet :
    (u : Setup) (env : Env) (b_time e_time : ℕ) (ms : List Mapped) (s : State)
    → Quiet s (record_opened u env b_time e_time ms s)
unfolding record_opened record_dlopen
record_opened-Quiet u env b_time e_time [] s = record {
  linked = refl;
  told = refl;
  status = refl;
  about = refl;
}
record_opened-Quiet u env b_time e_time (m ∷ ms) s =
    let o =
      object_of u s.thread.time_started
        (dlopened env m.file m.addr_begin m.addr_end b_time e_time) in
    named-Quiet u env s _ _ (
      add_object-Sends u.object_size u (name_thread u env s) o m.file.name_len
        (record s.thread.dsos { dso_header = event_header env }))
