-- ===== src/Monitor/Fork.antt =====
-- services/src/monitor/Monitor.c: the callbacks around fork, in a process that forks repeatedly.
use cbtf_krell.Prelude.{ℕ, zero, suc, false, List, [], ◌∷◌, ◌≡◌, refl, arith}
use cbtf_krell.Monitor.Types.{State, Status, Call, pre_fork, post_fork}
use cbtf_krell.Monitor.Step.{Callback, on_pre_fork, on_post_fork, run, step}

-- The callbacks of `n` forks one after the other.
abbrev pub forks : ℕ → List Callback
forks zero = []
forks (suc n) = on_pre_fork ∷ on_post_fork ∷ forks n

run-forks-resumed :
    (n : ℕ) (s : State)
    → s.globals.in_mpi_startup ≡ false
    → s.tls.in_mpi_pre_init ≡ false
    → s.tls.sampling_status ≡ Status.resumed
    → run (forks n) s ≡ (s, [])
unfolding run step
run-forks-resumed zero s a b c = refl
run-forks-resumed (suc n) s a b c = ground (arith, run-forks-resumed n s a b c)

-- In a process whose sampling is started, outside the start-up of MPI, the first fork pauses the
-- sampling and resumes it; no later fork pauses it: however many forks follow, the calls to the
-- service are those two.
pub later_forks_unpaused :
    (n : ℕ) (s : State)
    → s.globals.in_mpi_startup ≡ false
    → s.tls.in_mpi_pre_init ≡ false
    → s.tls.sampling_status ≡ Status.started
    → (run (forks (suc n)) s).1
      ≡ Call.sampling_control pre_fork Status.paused
        ∷ Call.sampling_control post_fork Status.resumed
        ∷ []
unfolding run step
later_forks_unpaused n s a b c =
    ground
      (arith, run-forks-resumed n (run (forks 1) s).0 (ground arith) (ground arith) (ground arith))
