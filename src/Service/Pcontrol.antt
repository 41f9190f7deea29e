-- ===== src/Service/Pcontrol.antt =====
-- MPI_Pcontrol through both layers: services/src/monitor/Monitor.c and services/collector/monitor.c.
use cbtf_krell.Prelude.{Bool, true, false, List, [], ◌∷◌, map, ◌≡◌, arith}
use cbtf_krell.Monitor.Types
use cbtf_krell.Monitor.Types.{Status, Call}
use cbtf_krell.Monitor.Life.{pcontrol_set, start_set}
use cbtf_krell.Monitor.Step.{on_mpi_pcontrol}
use cbtf_krell.Monitor.Step
use cbtf_krell.Service.Types.{Setup, State, Env}
use cbtf_krell.Service.Machine.{Request, from_monitor, serve, serve_all}
use cbtf_krell.Service.Followed.{deferred}

-- The calls of the monitor layer as requests to the service.
abbrev pub requests : Env → List Call → List (Env × Request)
requests env cs = map (λ c. (env, from_monitor c)) cs

abbrev off_and_on : List Step.Callback
off_and_on = on_mpi_pcontrol 0 ∷ on_mpi_pcontrol 1 ∷ []

abbrev pause_and_resume : List Call
pause_and_resume =
    Call.sampling_control Types.mpi_pcontrol Status.paused
    ∷ Call.sampling_control Types.mpi_pcontrol Status.resumed
    ∷ []

run-off_and_on :
    (m : Types.State)
    → m.tls.mpi_pcontrol ≡ true
    → m.tls.in_mpi_pre_init ≡ false
    → m.tls.sampling_status ≡ Status.started
    → ((Step.run off_and_on m).0.tls.sampling_status ≡ Status.resumed)
      × ((Step.run off_and_on m).1 ≡ pause_and_resume)
unfolding Step.run Step.step
run-off_and_on m a b c = ground arith

serve_all-pause_and_resume :
    (u : Setup) (env : Env) (d : Bool) (s : State)
    → s.offline.started ≡ true
    → s.thread.sampling_status ≡ Status.started
    → ((serve_all u (requests env pause_and_resume) s).0.thread.sampling_status ≡ Status.paused)
      × (deferred d (serve_all u (requests env pause_and_resume) s).1 ≡ true)
unfolding serve_all serve
serve_all-pause_and_resume u env d s e f = ground arith

-- Where MPI_Pcontrol is in charge and a started thread is not in MPI's start-up, in every service:
-- after MPI_Pcontrol(0) and then MPI_Pcontrol(1) the monitor layer holds the thread resumed, while the
-- service that was given its calls still holds it paused, with the collector's sampling deferred.
pub pcontrol_resume_lost :
    (u : Setup) (env : Env) (d : Bool) (m : Types.State) (s : State)
    → m.tls.mpi_pcontrol ≡ true
    → m.tls.in_mpi_pre_init ≡ false
    → m.tls.sampling_status ≡ Status.started
    → s.offline.started ≡ true
    → s.thread.sampling_status ≡ Status.started
    → let r = Step.run (on_mpi_pcontrol 0 ∷ on_mpi_pcontrol 1 ∷ []) m in
      let t = serve_all u (requests env r.1) s in
      (r.0.tls.sampling_status ≡ Status.resumed)
      × (t.0.thread.sampling_status ≡ Status.paused)
      × (deferred d t.1 ≡ true)
pcontrol_resume_lost u env d m s a b c e f =
    let (status, calls) = run-off_and_on m a b c in
    let (paused, off) = serve_all-pause_and_resume u env d s e f in
    (status, rw calls paused, rw calls off)

abbrev start_deferred : List Call
start_deferred =
    Call.start_sampling
    ∷ Call.notify_event Types.init_process
    ∷ Call.sampling_control Types.init_process Status.paused
    ∷ []

run-on_init_process :
    (e : Types.Env) (m : Types.State)
    → pcontrol_set e ≡ true
    → start_set e ≡ false
    → m.globals.in_mpi_startup ≡ false
    → ((Step.run (Step.on_init_process e ∷ []) m).0.tls.sampling_status ≡ Status.paused)
      × ((Step.run (Step.on_init_process e ∷ []) m).1 ≡ start_deferred)
unfolding Step.run Step.step
run-on_init_process e m a b c = ground arith

serve_all-start_deferred :
    (u : Setup) (env : Env) (d : Bool) (s : State)
    → ((serve_all u (requests env start_deferred) s).0.thread.sampling_status ≡ Status.started)
      × (deferred d (serve_all u (requests env start_deferred) s).1 ≡ false)
unfolding serve_all serve
serve_all-start_deferred u env d s = ground arith

-- Where a process starts with MPI_Pcontrol in charge and sampling not enabled at start, outside MPI's
-- start-up, in every service: the monitor layer holds the thread paused, while the service that was
-- given its calls holds it started, and its collector's sampling is not deferred.
pub deferred_start_lost :
    (u : Setup) (env : Env) (d : Bool) (e : Types.Env) (m : Types.State) (s : State)
    → pcontrol_set e ≡ true
    → start_set e ≡ false
    → m.globals.in_mpi_startup ≡ false
    → let r = Step.run (Step.on_init_process e ∷ []) m in
      let t = serve_all u (requests env r.1) s in
      (r.0.tls.sampling_status ≡ Status.paused)
      × (t.0.thread.sampling_status ≡ Status.started)
      × (deferred d t.1 ≡ false)
deferred_start_lost u env d e m s a b c =
    let (status, calls) = run-on_init_process e m a b c in
    let (running, on) = serve_all-start_deferred u env d s in
    (status, rw calls running, rw calls on)
