-- ===== src/Service/Objects.antt =====
-- services/collector/collector.c: the table of linked objects of a thread, and its messages.
use cbtf_krell.Prelude.{
  ℕ, ◌+◌, ◌*◌, ◌-◌, ◌^◌, Bool, true, not, ◌||◌, List, [], ◌∷◌, none, some, ltb, if◌then◌else◌, set,
  take, replicate,
}
use cbtf_krell.Header.{EventHeader, initialize_event_header}
use cbtf_krell.Service.Types.{
  uses_mrnet, Setup, ThreadName, State, Env, LinkedObject, zero_object, Table, File,
}

-- CBTF_MAXLINKEDOBJECTS
abbrev pub max_linked_objects : ℕ
max_linked_objects = 512

-- cbtf_offline_send_dsos: the table is sent, or, with MRNet and without a connection, is not; in either
-- case it is emptied.
unfoldable pub send_dsos : Setup → State → Table → Table × List (List LinkedObject)
send_dsos u s t = (
  record t { objs = replicate max_linked_objects zero_object; len = 0; dsoname_len = 0 },
  if not (uses_mrnet u.build) || s.process.connected_to_mrnet then take t.len t.objs ∷ [] else [],
)

-- The end of both recording functions: `size` is the size of an object.
unfoldable pub add_object :
    ℕ → Setup → State → LinkedObject → ℕ → Table → Table × List (List LinkedObject)
unfolding send_dsos
add_object size u s o name_len t =
    let new_size = t.len * size + (t.dsoname_len + name_len) in
    let (t', sent) =
      if ltb (max_linked_objects * size) new_size then send_dsos u s t else (t, []) in
    (
      record t' {
        objs = set t'.objs t'.len o;
        len = t'.len + 1;
        dsoname_len = t'.dsoname_len + name_len;
      },
      sent,
    )

abbrev pub event_header : Env → EventHeader
unfolding initialize_event_header
event_header env = record (initialize_event_header env.identity) {
  rank = env.rank;
  omp_tid = env.thread_num;
}

-- With MRNet, recording an object writes the thread's name and its group anew.
unfoldable pub name_thread : Setup → Env → State → State
unfolding initialize_event_header
name_thread u env s =
    if not (uses_mrnet u.build)
    then s
    else (let h = event_header env in
        let n : ThreadName = record {
          host = h.host;
          pid = h.pid;
          posix_tid = h.posix_tid;
          rank = env.rank;
          omp_tid = env.thread_num;
        } in
        record s { thread = record s.thread { tname = n; tgrp = n ∷ [] } })

-- cbtf_offline_record_dso
unfoldable pub record_dso :
    ℕ → Setup → Env → File → ℕ → ℕ → Bool → State → Table → State × Table × List (List LinkedObject)
unfolding name_thread add_object initialize_event_header
record_dso size u env f begin end is_dlopen s t =
    let o : LinkedObject = record {
      name = f.name;
      addr_begin = begin;
      addr_end = end;
      time_begin = if is_dlopen then env.now else s.thread.time_started;
      time_end = if is_dlopen then 2 ^ 64 - 1 else env.now;
      is_open = if uses_mrnet u.build then none else some is_dlopen;
      is_executable = some f.of_executable;
    } in
    let s' = name_thread u env s in
    let (t', sent) =
      add_object size u s' o f.name_len (record t { dso_header = event_header env }) in
    (s', t', sent)

-- cbtf_offline_record_dlopen; in the service without MRNet it does not set `is_executable`.
unfoldable pub record_dlopen :
    ℕ
    → Setup
    → Env
    → File
    → ℕ
    → ℕ
    → ℕ
    → ℕ
    → State
    → Table
    → State × Table × List (List LinkedObject)
unfolding name_thread add_object initialize_event_header
record_dlopen size u env f begin end b_time e_time s t =
    let o : LinkedObject = record {
      name = f.name;
      addr_begin = begin;
      addr_end = end;
      time_begin = b_time;
      time_end = e_time;
      is_open = if uses_mrnet u.build then none else some true;
      is_executable = if uses_mrnet u.build then some f.of_executable else none;
    } in
    let s' = name_thread u env s in
    let (t', sent) =
      add_object size u s' o f.name_len (record t { dso_header = event_header env }) in
    (s', t', sent)

-- The end of cbtf_record_dsos, once the objects have been read.
unfoldable pub flush_dsos : Setup → State → Table → Table × List (List LinkedObject)
unfolding send_dsos
flush_dsos u s t = if ltb 0 t.len then send_dsos u s t else (t, [])
