-- ===== src/Monitor/Report.antt =====
-- Whether the layers below Monitor.c are told of every change of the sampling status.
use cbtf_krell.Prelude.{Bool, false, not, ◌&&◌, List, [], ◌∷◌, ◌++◌, ◌≡◌, refl, ◌∙◌, ap, arith}
use cbtf_krell.Monitor.Types.{State, Call, Status}
use cbtf_krell.Monitor.Step.{Callback, on_mpi_post_comm_rank, step, run}

-- The status that the layers below were last told of.
abbrev pub reported_one : Status → Call → Status
reported_one v Call.start_sampling = Status.started
reported_one v (Call.stop_sampling _) = Status.finished
reported_one v (Call.sampling_control _ w) = w
reported_one v _ = v

abbrev pub reported : Status → List Call → Status
reported v [] = v
reported v (c ∷ cs) = reported (reported_one v c) cs

pub reported-append :
    (v : Status) (xs ys : List Call) → reported v (xs ++ ys) ≡ reported (reported v xs) ys
reported-append v [] ys = refl
reported-append v (x ∷ xs) ys = reported-append (reported_one v x) xs ys

-- The one callback that reports a status which it does not keep: `monitor_mpi_post_comm_rank`, on
-- its first call, with MPI_Pcontrol in charge and sampling not enabled at start.
abbrev pub defers : Callback → State → Bool
defers on_mpi_post_comm_rank s =
    not s.globals.init_mpi_comm_rank && (s.tls.mpi_pcontrol && not s.tls.start_enabled)
defers _ s = false

pub reported-step :
    (c : Callback) (s : State)
    → defers c s ≡ false
    → reported s.tls.sampling_status (step c s).1 ≡ (step c s).0.tls.sampling_status
unfolding step
reported-step on_mpi_post_comm_rank s h = ground arith
reported-step _ s h = ground arith

-- No callback of the sequence is the one that reports a status which it does not keep.
abbrev pub NoDefer : List Callback → State → Type 0
NoDefer [] s = Unit
NoDefer (c ∷ cs) s = (defers c s ≡ false) × NoDefer cs (step c s).0

-- Over any sequence of callbacks none of which is the first `monitor_mpi_post_comm_rank` of a
-- program with MPI_Pcontrol in charge and sampling not enabled at start, the status that the calls
-- of the sequence report last, on top of the status at its beginning, is the status that the thread
-- holds at its end.
pub reported-run :
    (cs : List Callback) (s : State)
    → NoDefer cs s
    → reported s.tls.sampling_status (run cs s).1 ≡ (run cs s).0.tls.sampling_status
unfolding run
reported-run [] s h = refl
reported-run (c ∷ cs) s h =
    reported-append s.tls.sampling_status (step c s).1 (run cs (step c s).0).1
    ∙ ap (λ v. reported v (run cs (step c s).0).1) (reported-step c s h.0)
    ∙ reported-run cs (step c s).0 h.1
