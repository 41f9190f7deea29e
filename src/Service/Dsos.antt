-- ===== src/Service/Dsos.antt =====
-- services/collector/collector.c: the recording of a thread's linked objects, with its messages.
use cbtf_krell.Prelude.{ℕ, false, List, [], ◌∷◌, if◌then◌else◌}
use cbtf_krell.Service.Types.{
  uses_mrnet, Setup, State, Env, Action, Effect, LinkedObject, Table, Mapped, send_objects,
  write_objects,
}
use cbtf_krell.Service.Control.{◌then_do◌}
use cbtf_krell.Service.Objects.{record_dso, record_dlopen, flush_dsos}

-- What cbtf_offline_send_dsos sends a table as.
abbrev message : Setup → State → Table → List LinkedObject → Action
message u s t b =
    if uses_mrnet u.build then send_objects s.thread.tname b else write_objects t.dso_header b

abbrev pub messages : Setup → State → Table → List (List LinkedObject) → List Action
messages u s t [] = []
messages u s t (b ∷ bs) = message u s t b ∷ messages u s t bs

-- The thread with a new table, and the messages for what was sent of it.
abbrev pub store_table : Setup → State × Table × List (List LinkedObject) → Effect
store_table u (s, t, sent) =
    (record s { thread = record s.thread { dsos = t } }, messages u s t sent)

-- CBTF_GetDLInfo calls cbtf_offline_record_dso for an object.
unfoldable pub record_mapped : Setup → Env → Mapped → State → Effect
record_mapped u env m s = store_table u (
    record_dso u.object_size u (record env { now = m.time }) m.file m.addr_begin m.addr_end false s
      s.thread.dsos)

unfoldable pub record_all : Setup → Env → List Mapped → State → Effect
record_all u env [] s = (s, [])
record_all u env (m ∷ ms) s = record_mapped u env m s then_do record_all u env ms

unfoldable pub flush_table : Setup → State → Effect
flush_table u s = let (t, sent) = flush_dsos u s s.thread.dsos in store_table u (s, t, sent)

-- cbtf_record_dsos
unfoldable pub record_objects : Setup → Env → State → Effect
record_objects u env s =
    if u.is_overview then (s, []) else (record_all u env env.objects s then_do flush_table u)

-- For a path, CBTF_GetDLInfo calls cbtf_offline_record_dlopen for the first object that has it.
unfoldable pub record_opened : Setup → Env → ℕ → ℕ → List Mapped → State → Effect
record_opened u env b_time e_time [] s = (s, [])
record_opened u env b_time e_time (m ∷ ms) s =
    store_table u (
      record_dlopen u.object_size u env m.file m.addr_begin m.addr_end b_time e_time s
        s.thread.dsos)
