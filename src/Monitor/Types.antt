-- ===== src/Monitor/Types.antt =====
-- services/include/KrellInstitute/Services/Monitor.h and the state of services/src/monitor/Monitor.c:
-- the enumerations, the thread-local record, the process-wide flags, and the calls that the
-- callbacks make on the layers below.
use cbtf_krell.Prelude.{ℕ, Bool, false, List, []}

-- CBTF_Monitor_Type
pub data MonitorType : Type 0 where
  proc thread default : MonitorType

-- CBTF_Monitor_Status. A thread's zeroed record has none of these values, which is `zeroed`.
pub data Status : Type 0 where
  zeroed started finished paused resumed not_started : Status

abbrev pub is_started : Status → Bool
is_started Status.started = Bool.true
is_started _ = false

abbrev pub is_finished : Status → Bool
is_finished Status.finished = Bool.true
is_finished _ = false

abbrev pub is_paused : Status → Bool
is_paused Status.paused = Bool.true
is_paused _ = false

abbrev pub is_resumed : Status → Bool
is_resumed Status.resumed = Bool.true
is_resumed _ = false

abbrev pub is_not_started : Status → Bool
is_not_started Status.not_started = Bool.true
is_not_started _ = false

-- CBTF_Monitor_Event_Type
pub data Event : Type 0 where
  mpi_pre_init mpi_init mpi_post_fini mpi_fini mpi_post_comm_rank : Event
  pre_dlopen dlopen dlclose post_dlclose : Event
  init_process fini_process init_thread fini_thread : Event
  pre_fork post_fork thread_pre_create thread_post_create : Event
  mpi_pcontrol default_event : Event

-- An entry of the list of objects that were opened at run time. The name is the text's number in
-- an enumeration of texts: the callbacks only copy it.
pub record DlInfo : Type 0 where
  pub name : ℕ
  pub load_time : ℕ
  pub unload_time : ℕ
  pub handle : ℕ

-- TLS. `dllist` is the chain from `cbtf_dllist_head`; `dllist_curr` is the number of nodes from
-- `cbtf_dllist_curr` to the end of that chain, so 0 is the null pointer.
pub record Tls : Type 0 where
  pub in_mpi_pre_init : Bool
  pub mpi_pcontrol : Bool
  pub start_enabled : Bool
  pub sampling_status : Status
  pub process_is_terminating : Bool
  pub thread_is_terminating : Bool
  pub collector_started : Bool
  pub monitor_type : MonitorType
  pub dllist : List DlInfo
  pub dllist_curr : ℕ

-- The static variables: `in_mpi_startup` and `init_mpi_comm_rank` by name, and the counters `f`
-- of `monitor_fini_process` and of `monitor_fini_library`.
pub record Globals : Type 0 where
  pub in_mpi_startup : Bool
  pub init_mpi_comm_rank : Bool
  pub fini_process_count : ℕ
  pub fini_library_count : ℕ

pub record State : Type 0 where
  pub tls : Tls
  pub globals : Globals

-- A thread's record before its first callback, in zeroed storage.
abbrev pub zero_tls : Tls
zero_tls = record {
  in_mpi_pre_init = false;
  mpi_pcontrol = false;
  start_enabled = false;
  sampling_status = Status.zeroed;
  process_is_terminating = false;
  thread_is_terminating = false;
  collector_started = false;
  monitor_type = MonitorType.proc;
  dllist = [];
  dllist_curr = 0;
}

abbrev pub zero_globals : Globals
zero_globals = record {
  in_mpi_startup = false;
  init_mpi_comm_rank = false;
  fini_process_count = 0;
  fini_library_count = 0;
}

-- What a callback asks of the collector service, of the linked-object reader and of the system, in
-- order.
pub data Call : Type 0 where
  start_sampling : Call
  stop_sampling : Bool → Call
  notify_event : Event → Call
  sampling_control : Event → Status → Call
  get_dl_info : ℕ → ℕ → ℕ → Call
  raise_segv : Call

-- The environment variables that the callbacks test for being set.
pub record Env : Type 0 where
  pub openss_enable_mpi_pcontrol : Bool
  pub openss_start_enabled : Bool
  pub cbtf_enable_mpi_pcontrol : Bool
  pub cbtf_start_enabled : Bool

-- A callback's effect: the new state and the calls made.
abbrev pub Effect : Type 0
Effect = State × List Call
