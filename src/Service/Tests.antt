-- ===== src/Service/Tests.antt =====
-- Runs of the service with MRNet, in a program without MPI.
use cbtf_krell.Prelude.{
  ℕ, length-replicate, replicate, ◌++◌, arith, true, false, List, [], ◌∷◌, none, ◌≡◌, refl, arith,
}
use cbtf_krell.Header.{zero_header, EventHeader}
use cbtf_krell.Monitor.Types.{Status, Call, zero_tls, zero_globals}
use cbtf_krell.Monitor.Types
use cbtf_krell.Monitor.Step
use cbtf_krell.Service.Types.{Action, Mapped, Build, Setup, State, Env, zero_object, Table, File}
use cbtf_krell.Service.Machine.{Request, from_monitor, collector_sends, serve, serve_all}
use cbtf_krell.Service.Offline.{offline_stop_sampling}
use cbtf_krell.Service.Sampling.{service_stop_sampling, finish_mrnet, leave_mrnet, count_down}
use cbtf_krell.Service.Control.{send_thread_state_changed_message}
use cbtf_krell.Service.Dsos.{record_objects, record_all, record_mapped, flush_table}
use cbtf_krell.Service.Agree.{serve_all-Agrees}
use cbtf_krell.Service.Followed.{Agrees, deferred}
use cbtf_krell.Service.InOrder.{Seen}
use cbtf_krell.Service.Objects.{max_linked_objects, record_dso, flush_dsos}
use cbtf_krell.Service.Recorded.{IsValid, held, concat}
use cbtf_krell.Service.Delivered.{
  Recording, dso, dlopened, serve_recordings, objects_of, all_objects_delivered,
}
use cbtf_krell.Service.Pcontrol.{requests, pcontrol_resume_lost, deferred_start_lost}

abbrev setup : Setup
setup = record { build = Build.mrnet; is_overview = false; object_size = 56 }

abbrev libc : File
libc = record { name = 8; name_len = 20; of_executable = false }

abbrev mapped : List Mapped
mapped = record { file = libc; addr_begin = 4096; addr_end = 8192; time = 6 } ∷ []

abbrev event_header_0 : EventHeader
event_header_0 = record { host = 0; pid = 0; posix_tid = 0; rank = none; omp_tid = 0 }

abbrev empty_table : Table
empty_table = record {
  objs = replicate max_linked_objects zero_object;
  len = 0;
  dsoname_len = 0;
  dso_header = event_header_0;
}

abbrev system : Env
system = record {
  rank = none;
  thread_num = 0;
  now = 7;
  identity = record { host_name = 1; canonical_name = none; process_id = 100; thread_id = 200 };
  name = 3;
  unsent = true;
  objects = mapped;
}

abbrev initial : State
initial = record {
  thread = record {
    header = zero_header;
    sampling_status = Status.zeroed;
    time_started = 0;
    ompt_thread_finished = false;
    has_ompt = false;
    tname = record { host = 0; pid = 0; posix_tid = 0; rank = none; omp_tid = 0 };
    tgrp = [];
    attached = [];
    sent_attached_to_threads = false;
    dsos = empty_table;
  };
  offline = record { started = false; finished = false; sent_data = false };
  process = record {
    num_threads = 0;
    connected_to_mrnet = false;
    monitor_connected_to_mrnet = false;
    mpi_init_done = false;
  };
}

abbrev started : State
started = record initial {
  thread = record initial.thread { sampling_status = Status.started };
  offline = record initial.offline { started = true };
}

-- A thread starts, sends once, and stops with samples unsent.
abbrev whole_run : List (Env × Request)
whole_run =
    (system, from_monitor Call.start_sampling)
    ∷ (system, collector_sends)
    ∷ (system, from_monitor (Call.stop_sampling true))
    ∷ []

abbrev nothing_seen : Seen
nothing_seen = record { connected = false; attached = false }

abbrev mpi_program : Types.State
mpi_program = record {
  tls = record zero_tls { sampling_status = Status.started; mpi_pcontrol = true };
  globals = zero_globals;
}

serve_all-Agrees_example :
    Agrees
      (deferred false (serve_all setup whole_run initial).1)
      (serve_all setup whole_run initial).0
serve_all-Agrees_example = serve_all-Agrees setup whole_run false initial (λ _. refl)

pcontrol_resume_lost_example :
    let r = Step.run (Step.on_mpi_pcontrol 0 ∷ Step.on_mpi_pcontrol 1 ∷ []) mpi_program in
    let t = serve_all setup (requests system r.1) started in
    (r.0.tls.sampling_status ≡ Status.resumed)
    × (t.0.thread.sampling_status ≡ Status.paused)
    × (deferred false t.1 ≡ true)
pcontrol_resume_lost_example =
    pcontrol_resume_lost setup system false mpi_program started refl refl refl refl refl

abbrev start_disabled : Types.Env
start_disabled = record {
  openss_enable_mpi_pcontrol = false;
  openss_start_enabled = false;
  cbtf_enable_mpi_pcontrol = true;
  cbtf_start_enabled = false;
}

abbrev before_start : Types.State
before_start = record { tls = zero_tls; globals = zero_globals }

deferred_start_lost_example :
    let r = Step.run (Step.on_init_process start_disabled ∷ []) before_start in
    let t = serve_all setup (requests system r.1) initial in
    (r.0.tls.sampling_status ≡ Status.paused)
    × (t.0.thread.sampling_status ≡ Status.started)
    × (deferred false t.1 ≡ false)
deferred_start_lost_example =
    deferred_start_lost setup system false start_disabled before_start initial refl refl refl

empty_table-IsValid : IsValid empty_table
empty_table-IsValid = record {
  size = length-replicate max_linked_objects zero_object;
  len_le = omega arith;
  names = omega arith;
}

abbrev to_files : Setup
to_files = record { build = Build.file_io; is_overview = false; object_size = 56 }

abbrev recordings : List Recording
recordings = dso system libc 4096 8192 false ∷ dlopened system libc 4096 8192 5 6 ∷ []

all_objects_delivered_example :
    let o = serve_recordings 56 to_files recordings initial empty_table in
    IsValid o.1
    × (concat (o.2 ++ (flush_dsos to_files o.0 o.1).1)
        ≡ held empty_table ++ objects_of to_files 0 recordings)
all_objects_delivered_example =
    all_objects_delivered 56 to_files recordings initial empty_table empty_table-IsValid refl
      (omega arith, (omega arith, tt))

-- The kinds of the actions.
abbrev kinds : List Action → List ℕ
kinds [] = []
kinds (Action.collector_start _ ∷ acts) = 1 ∷ kinds acts
kinds (Action.collector_stop ∷ acts) = 2 ∷ kinds acts
kinds (Action.collector_pause ∷ acts) = 3 ∷ kinds acts
kinds (Action.collector_resume ∷ acts) = 4 ∷ kinds acts
kinds (Action.mrnet_connect _ ∷ acts) = 5 ∷ kinds acts
kinds (Action.send_attached _ ∷ acts) = 6 ∷ kinds acts
kinds (Action.send_state_changed _ ∷ acts) = 7 ∷ kinds acts
kinds (Action.send_perf_data ∷ acts) = 8 ∷ kinds acts
kinds (Action.send_objects _ _ ∷ acts) = 9 ∷ kinds acts
kinds (Action.wait_for_shutdown ∷ acts) = 10 ∷ kinds acts
kinds (_ ∷ acts) = 0 ∷ kinds acts

-- The whole run connects, tells of the thread, starts, sends data twice, sends the objects, and
-- tells of the thread's end.
messages_of_whole_run :
    kinds (serve_all setup whole_run initial).1 ≡ 5 ∷ 3 ∷ 6 ∷ 4 ∷ 1 ∷ 8 ∷ 2 ∷ 8 ∷ 9 ∷ 7 ∷ 10 ∷ []
unfolding serve_all serve offline_stop_sampling service_stop_sampling finish_mrnet leave_mrnet
    count_down record_objects record_all record_mapped record_dso flush_table flush_dsos
    send_thread_state_changed_message
messages_of_whole_run = refl
