-- ===== src/Monitor/Step.antt =====
-- services/src/monitor/Monitor.c as one machine: a run is a sequence of libmonitor's callbacks.
use cbtf_krell.Prelude.{ℕ, List, [], ◌∷◌, ◌++◌, Option}
use cbtf_krell.Monitor.Types.{State, Env, Effect}
use cbtf_krell.Monitor.Life.{
  monitor_fini_process, monitor_init_process, monitor_fini_library, monitor_fini_thread,
  monitor_init_thread,
}
use cbtf_krell.Monitor.Objects.{
  monitor_dlopen, monitor_pre_dlopen, monitor_dlclose, monitor_post_dlclose,
}
use cbtf_krell.Monitor.Parallel.{
  monitor_pre_fork, monitor_post_fork, monitor_mpi_pre_init, monitor_init_mpi, monitor_fini_mpi,
  monitor_mpi_post_fini, monitor_mpi_post_comm_rank, monitor_mpi_pcontrol,
}

pub data Callback : Type 0 where
  on_init_process on_init_thread : Env → Callback
  on_fini_process on_fini_library on_fini_thread : Callback
  on_pre_dlopen : Option ℕ → Callback
  on_dlopen : Option ℕ → ℕ → ℕ → ℕ → Callback
  on_dlclose : ℕ → ℕ → Callback
  on_post_dlclose on_pre_fork on_post_fork : Callback
  on_mpi_pre_init on_init_mpi on_fini_mpi on_mpi_post_fini on_mpi_post_comm_rank : Callback
  on_mpi_pcontrol : ℕ → Callback

unfoldable pub step : Callback → State → Effect
unfolding monitor_fini_process monitor_init_process monitor_fini_library monitor_fini_thread
    monitor_init_thread monitor_dlopen monitor_pre_dlopen monitor_dlclose monitor_post_dlclose
    monitor_pre_fork monitor_post_fork monitor_mpi_pre_init monitor_init_mpi monitor_fini_mpi
    monitor_mpi_post_fini monitor_mpi_post_comm_rank monitor_mpi_pcontrol
step (on_init_process env) s = monitor_init_process env s
step (on_init_thread env) s = monitor_init_thread env s
step on_fini_process s = monitor_fini_process s
step on_fini_library s = monitor_fini_library s
step on_fini_thread s = monitor_fini_thread s
step (on_pre_dlopen path) s = monitor_pre_dlopen path s
step (on_dlopen name handle now later) s = monitor_dlopen name handle now later s
step (on_dlclose handle now) s = monitor_dlclose handle now s
step on_post_dlclose s = monitor_post_dlclose s
step on_pre_fork s = monitor_pre_fork s
step on_post_fork s = monitor_post_fork s
step on_mpi_pre_init s = monitor_mpi_pre_init s
step on_init_mpi s = monitor_init_mpi s
step on_fini_mpi s = monitor_fini_mpi s
step on_mpi_post_fini s = monitor_mpi_post_fini s
step on_mpi_post_comm_rank s = monitor_mpi_post_comm_rank s
step (on_mpi_pcontrol level) s = monitor_mpi_pcontrol level s

unfoldable pub run : List Callback → State → Effect
run [] s = (s, [])
run (c ∷ cs) s = let (s', calls) = step c s in let (s'', rest) = run cs s' in (s'', calls ++ rest)
