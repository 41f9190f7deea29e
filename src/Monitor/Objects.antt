-- ===== src/Monitor/Objects.antt =====
-- services/src/monitor/Monitor.c: the callbacks round dlopen and dlclose.
use cbtf_krell.Prelude.{
  ℕ, zero, suc, ◌+◌, ◌-◌, Bool, not, ◌&&◌, ◌||◌, List, [], ◌∷◌, Option, none, some, ◌++◌, ◌==◌,
  if◌then◌else◌, length,
}
use cbtf_krell.Monitor.Types.{
  DlInfo, Tls, State, Call, Effect, Event, Status, is_finished, is_started, is_resumed, is_paused,
  pre_dlopen, dlopen, dlclose, post_dlclose,
}

abbrev pub set_status : State → Status → State
set_status s v = record s { tls = record s.tls { sampling_status = v } }

-- The change of status that the callbacks share, with the call that reports it.
abbrev pub change_to : Event → Status → State → Effect
change_to ev v s = (set_status s v, Call.sampling_control ev v ∷ [])

abbrev pub is_sampling : Status → Bool
is_sampling v = is_started v || is_resumed v

-- The new node is the head, and `cbtf_dllist_curr` points to it. `now` and `later` are what the two
-- calls of CBTF_GetTime return.
abbrev pub push_object : ℕ → ℕ → ℕ → ℕ → Tls → Tls
push_object name handle now later t = record t {
  dllist =
      record { name = name; load_time = now; unload_time = later + 1; handle = handle } ∷ t.dllist;
  dllist_curr = length t.dllist + 1;
}

-- `library` is `none` for a null pointer. All the early returns leave the state alone, so the clause
-- for it stands first.
unfoldable pub monitor_dlopen : Option ℕ → ℕ → ℕ → ℕ → State → Effect
monitor_dlopen none handle now later s = (s, [])
monitor_dlopen (some name) handle now later s =
    if is_finished s.tls.sampling_status
    then (s, [])
    else if s.globals.in_mpi_startup || s.tls.in_mpi_pre_init
    then (s, [])
    else (let s' : State = record s { tls = push_object name handle now later s.tls } in
        if is_paused s.tls.sampling_status && not s.tls.in_mpi_pre_init
        then change_to dlopen Status.resumed s'
        else (s', []))

unfoldable pub monitor_pre_dlopen : Option ℕ → State → Effect
monitor_pre_dlopen none s = (s, [])
monitor_pre_dlopen (some path) s =
    if is_finished s.tls.sampling_status
    then (s, [])
    else if s.tls.in_mpi_pre_init
    then (s, [])
    else if is_sampling s.tls.sampling_status && not s.tls.in_mpi_pre_init
    then change_to pre_dlopen Status.paused s
    else (s, [])

-- The loop of `monitor_dlclose` over the nodes from `cbtf_dllist_curr` on. The result is the chain
-- with the unload time of the first node of that handle written, the number of nodes from the new
-- `cbtf_dllist_curr` on (0 if the loop ran off the end), and the node found.
unfoldable pub close_object : ℕ → ℕ → List DlInfo → List DlInfo × ℕ × Option DlInfo
close_object handle now [] = ([], 0, none)
close_object handle now (d ∷ ds) =
    let found : DlInfo = record d { unload_time = now } in
    let (ds', curr, r) = close_object handle now ds in
    if d.handle == handle then (found ∷ ds, length ds + 1, some found) else (d ∷ ds', curr, r)

-- The same loop on the whole chain, of which the first `skip` nodes stand before the pointer.
unfoldable pub close_from : ℕ → ℕ → ℕ → List DlInfo → List DlInfo × ℕ × Option DlInfo
unfolding close_object
close_from zero handle now ds = close_object handle now ds
close_from (suc skip) handle now [] = ([], 0, none)
close_from (suc skip) handle now (d ∷ ds) =
    let (ds', curr, r) = close_from skip handle now ds in (d ∷ ds', curr, r)

abbrev pub report_object : Option DlInfo → List Call
report_object none = []
report_object (some d) = Call.get_dl_info d.name d.load_time d.unload_time ∷ []

unfoldable pub monitor_dlclose : ℕ → ℕ → State → Effect
unfolding close_from
monitor_dlclose handle now s =
    if is_finished s.tls.sampling_status
    then (s, [])
    else if s.tls.in_mpi_pre_init
    then (s, [])
    else (let (ds, curr, r) =
          close_from (length s.tls.dllist - s.tls.dllist_curr) handle now s.tls.dllist in
        let s' : State = record s { tls = record s.tls { dllist = ds; dllist_curr = curr } } in
        if (not s.tls.thread_is_terminating || not s.tls.process_is_terminating)
          && (is_sampling s.tls.sampling_status && not s.tls.in_mpi_pre_init)
        then (
          set_status s' Status.paused,
          report_object r ++ (Call.sampling_control dlclose Status.paused ∷ []),
        )
        else (s', report_object r))

unfoldable pub monitor_post_dlclose : State → Effect
monitor_post_dlclose s =
    if is_finished s.tls.sampling_status
    then (s, [])
    else if s.tls.in_mpi_pre_init
    then (s, [])
    else if (not s.tls.thread_is_terminating || not s.tls.process_is_terminating)
        && (is_paused s.tls.sampling_status && not s.tls.in_mpi_pre_init)
    then change_to post_dlclose Status.resumed s
    else (s, [])
