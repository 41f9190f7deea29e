-- ===== src/Monitor/Tests.antt =====
-- Runs of the callbacks of services/src/monitor/Monitor.c.
use cbtf_krell.Prelude.{true, false, List, [], ◌∷◌, some, ◌≡◌, refl, get_elem?, arith}
use cbtf_krell.Monitor.Types.{State, Env, Call, Status, zero_tls, zero_globals, pre_fork, post_fork}
use cbtf_krell.Monitor.Step.{
  Callback, run, step, on_init_process, on_fini_process, on_dlopen, on_dlclose, on_pre_dlopen,
  on_post_dlclose, on_mpi_pre_init, on_init_mpi, on_mpi_pcontrol, on_mpi_post_comm_rank,
}
use cbtf_krell.Monitor.Report.{reported, reported-run}
use cbtf_krell.Monitor.Finished.{is_idle, finished-run}
use cbtf_krell.Monitor.Mpi.{DuringMpi, AfterMpi, mpi_init_bracket}
use cbtf_krell.Monitor.Loaded.{
  IsOpen, opened, PointsInto, first_call, step-PointsInto, dlclose-dlopen,
}
use cbtf_krell.Monitor.Stale.{both_closed, second_close_lost}
use cbtf_krell.Monitor.Fork.{forks, later_forks_unpaused}

abbrev no_env : Env
no_env = record {
  openss_enable_mpi_pcontrol = false;
  openss_start_enabled = false;
  cbtf_enable_mpi_pcontrol = false;
  cbtf_start_enabled = false;
}

abbrev initial : State
initial = record { tls = zero_tls; globals = zero_globals }

abbrev running : State
running = record {
  tls = record zero_tls { sampling_status = Status.started; collector_started = true };
  globals = zero_globals;
}

abbrev ended : State
ended = record {
  tls = record zero_tls { sampling_status = Status.finished };
  globals = zero_globals;
}

abbrev whole_program : List Callback
whole_program =
    on_init_process no_env
    ∷ on_pre_dlopen (some 7)
    ∷ on_dlopen (some 7) 1 10 12
    ∷ on_dlclose 1 20
    ∷ on_post_dlclose
    ∷ on_fini_process
    ∷ []

whole_program-status : (run whole_program initial).0.tls.sampling_status ≡ Status.finished
unfolding run step
whole_program-status = refl

reported-run_example :
    reported Status.zeroed (run whole_program initial).1
    ≡ (run whole_program initial).0.tls.sampling_status
unfolding run step
reported-run_example =
    reported-run whole_program initial (refl, (refl, (refl, (refl, (refl, (refl, tt))))))

abbrev late_calls : List Callback
late_calls = on_mpi_pcontrol 1 ∷ on_mpi_post_comm_rank ∷ on_fini_process ∷ []

abbrev ended_ranked : State
ended_ranked = record {
  tls = ended.tls;
  globals = record zero_globals { init_mpi_comm_rank = true };
}

-- With a later MPI_Comm_rank.
finished-run_example :
    ((run late_calls ended_ranked).0.tls.sampling_status ≡ Status.finished)
    × (is_idle (run late_calls ended_ranked).1 ≡ true)
finished-run_example = finished-run late_calls ended_ranked (refl, (refl, (refl, tt))) refl

mpi_init_bracket_example :
    DuringMpi running (run (on_mpi_pre_init ∷ on_dlopen (some 7) 1 10 12 ∷ []) running)
    × AfterMpi running
        (run (on_mpi_pre_init ∷ on_dlopen (some 7) 1 10 12 ∷ on_init_mpi ∷ []) running)
mpi_init_bracket_example = mpi_init_bracket (on_dlopen (some 7) 1 10 12 ∷ []) running (refl, tt)

step-PointsInto_example : PointsInto (step (on_dlopen (some 7) 1 10 12) running).0
step-PointsInto_example = step-PointsInto (on_dlopen (some 7) 1 10 12) running (omega arith)

abbrev running-IsOpen : IsOpen running
running-IsOpen = record { running = refl; outside = refl; past = refl }

dlclose-dlopen_example :
    let r = step (on_dlclose 1 20) (step (on_dlopen (some 7) 1 10 12) running).0 in
    (first_call r.1 ≡ some (Call.get_dl_info 7 10 20))
    × (r.0.tls.dllist ≡ record { name = 7; load_time = 10; unload_time = 20; handle = 1 } ∷ [])
dlclose-dlopen_example = dlclose-dlopen 7 1 10 12 20 running running-IsOpen

-- Object 7 with handle 1 and object 8 with handle 2, closed in the order of their opening.
second_close_lost_example :
    get_elem? (both_closed 7 1 10 12 8 2 20 22 30 40 running).tls.dllist 0 ≡ some (opened 8 2 20 22)
second_close_lost_example =
    second_close_lost 7 1 10 12 8 2 20 22 30 40 running running-IsOpen (ground arith)

-- Three forks.
later_forks_unpaused_example :
    (run (forks 3) running).1
    ≡ Call.sampling_control pre_fork Status.paused
      ∷ Call.sampling_control post_fork Status.resumed
      ∷ []
later_forks_unpaused_example = later_forks_unpaused 2 running refl refl refl
