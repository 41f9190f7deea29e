-- ===== src/Monitor/Finished.antt =====
-- Monitor.c once sampling has finished: what can still reach the collector.
use cbtf_krell.Prelude.{Bool, true, false, not, List, [], ◌∷◌, ◌++◌, ◌≡◌, refl, sym, subst, arith}
use cbtf_krell.Monitor.Types.{State, Call, Status}
use cbtf_krell.Monitor.Step.{
  Callback, on_init_process, on_init_thread, on_fini_thread, on_post_fork, on_mpi_pre_init,
  on_mpi_post_comm_rank, step, run,
}

-- The callbacks that may touch the collector of a thread whose sampling has finished, by whether an
-- MPI_Comm_rank has been seen since the last start of MPI.
abbrev pub reopens : Bool → Callback → Bool
reopens ranked (on_init_process _) = true
reopens ranked (on_init_thread _) = true
reopens ranked on_fini_thread = true
reopens ranked on_post_fork = true
reopens ranked on_mpi_post_comm_rank = not ranked
reopens ranked _ = false

-- Whether one has been seen after a callback.
abbrev pub ranked_after : Bool → Callback → Bool
ranked_after ranked on_mpi_pre_init = false
ranked_after ranked on_mpi_post_comm_rank = true
ranked_after ranked _ = ranked

abbrev pub NoneReopens : Bool → List Callback → Type 0
NoneReopens ranked [] = Unit
NoneReopens ranked (c ∷ cs) = (reopens ranked c ≡ false) × NoneReopens (ranked_after ranked c) cs

-- No call starts, stops, pauses or resumes a collector.
abbrev pub is_idle : List Call → Bool
is_idle [] = true
is_idle (Call.start_sampling ∷ cs) = false
is_idle (Call.stop_sampling _ ∷ cs) = false
is_idle (Call.sampling_control _ _ ∷ cs) = false
is_idle (_ ∷ cs) = is_idle cs

is_idle-append :
    (xs ys : List Call) → is_idle xs ≡ true → is_idle ys ≡ true → is_idle (xs ++ ys) ≡ true
is_idle-append [] ys h k = k
is_idle-append (Call.notify_event e ∷ xs) ys h k = is_idle-append xs ys h k
is_idle-append (Call.get_dl_info a b c ∷ xs) ys h k = is_idle-append xs ys h k
is_idle-append (Call.raise_segv ∷ xs) ys h k = is_idle-append xs ys h k
is_idle-append (_ ∷ xs) ys h k = absurd (ground arith)

finished-step :
    (c : Callback) (s : State)
    → reopens s.globals.init_mpi_comm_rank c ≡ false
    → s.tls.sampling_status ≡ Status.finished
    → ((step c s).0.tls.sampling_status ≡ Status.finished)
      × (is_idle (step c s).1 ≡ true)
      × ((step c s).0.globals.init_mpi_comm_rank ≡ ranked_after s.globals.init_mpi_comm_rank c)
unfolding step
finished-step on_post_fork s r h = ground arith
finished-step _ s r h = ground arith

-- From a thread whose sampling has finished, a sequence of callbacks without the five that may
-- reopen it (the start of a process or a thread, the end of a thread, the return from a fork, an
-- MPI_Comm_rank that is the first since the last start of MPI) leaves the status finished and makes
-- no call that starts, stops, pauses or resumes a collector. Whether a first MPI_Comm_rank has been
-- seen before the sequence is what the flag init_mpi_comm_rank says.
pub finished-run :
    (cs : List Callback) (s : State)
    → NoneReopens s.globals.init_mpi_comm_rank cs
    → s.tls.sampling_status ≡ Status.finished
    → ((run cs s).0.tls.sampling_status ≡ Status.finished) × (is_idle (run cs s).1 ≡ true)
unfolding run
finished-run [] s r h = (h, refl)
finished-run (c ∷ cs) s r h =
    let (status, idle, ranked) = finished-step c s r.0 h in
    let none : NoneReopens (step c s).0.globals.init_mpi_comm_rank cs =
      subst (λ b. NoneReopens b cs) (sym ranked) r.1 in
    let rest = finished-run cs (step c s).0 none status in
    (rest.0, is_idle-append (step c s).1 (run cs (step c s).0).1 idle rest.1)
