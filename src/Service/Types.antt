-- ===== src/Service/Types.antt =====
-- The state of services/collector/collector.c and of services/collector/monitor.c for one thread and
-- its process, and what the service does to the collector, to MRNet and to the data files.
use cbtf_krell.Prelude.{ℕ, Bool, true, false, List, Option, none}
use cbtf_krell.Header.{DataHeader, EventHeader, Identity}
use cbtf_krell.Monitor.Types.{Status}

-- Which of the three services is built: CBTF_SERVICE_USE_FILEIO, CBTF_SERVICE_USE_MRNET alone, or
-- that with CBTF_SERVICE_USE_MRNET_MPI.
pub data Build : Type 0 where
  file_io mrnet mrnet_mpi : Build

abbrev pub uses_mrnet : Build → Bool
uses_mrnet Build.file_io = false
uses_mrnet _ = true

-- What is fixed for a process: the service that is built, whether the collector's identifier is
-- "overview", and the size of a linked object.
pub record Setup : Type 0 where
  pub build : Build
  pub is_overview : Bool
  pub object_size : ℕ

-- CBTF_Protocol_ThreadName
pub record ThreadName : Type 0 where
  pub host : ℕ
  pub pid : ℕ
  pub posix_tid : ℕ
  pub rank : Option ℕ
  pub omp_tid : ℕ

-- CBTF_Protocol_LinkedObject and, with the flag for an opened object, CBTF_Protocol_Offline_LinkedObject.
-- `none` is a field that is not there or is not set.
pub record LinkedObject : Type 0 where
  pub name : ℕ
  pub addr_begin : ℕ
  pub addr_end : ℕ
  pub time_begin : ℕ
  pub time_end : ℕ
  pub is_open : Option Bool
  pub is_executable : Option Bool

abbrev pub zero_object : LinkedObject
zero_object = record {
  name = 0;
  addr_begin = 0;
  addr_end = 0;
  time_begin = 0;
  time_end = 0;
  is_open = none;
  is_executable = none;
}

-- `buffer.objs`, `linkedobjects_len`, `dsoname_len` and `dso_header` of the thread's record.
pub record Table : Type 0 where
  pub objs : List LinkedObject
  pub len : ℕ
  pub dsoname_len : ℕ
  pub dso_header : EventHeader

-- An object's file: its name, the length of the name, and whether it is that of the executable.
pub record File : Type 0 where
  pub name : ℕ
  pub name_len : ℕ
  pub of_executable : Bool

-- An object that CBTF_GetDLInfo finds in the address space, and the time at which it records it.
pub record Mapped : Type 0 where
  pub file : File
  pub addr_begin : ℕ
  pub addr_end : ℕ
  pub time : ℕ

-- TLS of collector.c. `tgrp` holds the names of the group, and `attached` those that the message of
-- attached threads was given; `dsos` is the table of linked objects.
pub record Thread : Type 0 where
  pub header : DataHeader
  pub sampling_status : Status
  pub time_started : ℕ
  pub ompt_thread_finished : Bool
  pub has_ompt : Bool
  pub tname : ThreadName
  pub tgrp : List ThreadName
  pub attached : List ThreadName
  pub sent_attached_to_threads : Bool
  pub dsos : Table

-- TLS of monitor.c.
pub record Offline : Type 0 where
  pub started : Bool
  pub finished : Bool
  pub sent_data : Bool

-- The variables of the process. collector.c and monitor.c each have a `connected_to_mrnet`: the
-- latter's is static.
pub record Process : Type 0 where
  pub num_threads : ℕ
  pub connected_to_mrnet : Bool
  pub monitor_connected_to_mrnet : Bool
  pub mpi_init_done : Bool

pub record State : Type 0 where
  pub thread : Thread
  pub offline : Offline
  pub process : Process

-- What the system and libmonitor answer during one operation: the rank, if there is one, the number
-- of the thread, the time, who the thread is, whether the collector holds samples that it has not
-- sent, and the objects that CBTF_GetDLInfo finds.
pub record Env : Type 0 where
  pub rank : Option ℕ
  pub thread_num : ℕ
  pub now : ℕ
  pub identity : Identity
  pub name : ℕ
  pub unsent : Bool
  pub objects : List Mapped

pub data Action : Type 0 where
  collector_start : DataHeader → Action
  collector_stop collector_pause collector_resume : Action
  mrnet_connect : Option ℕ → Action
  send_attached : List ThreadName → Action
  send_state_changed : List ThreadName → Action
  send_perf_data wait_for_shutdown : Action
  write_data set_send_to_file : Action
  send_objects : ThreadName → List LinkedObject → Action
  write_objects : EventHeader → List LinkedObject → Action
  get_dl_info : ℕ → ℕ → ℕ → Action
  raise_segv : Action

abbrev pub Effect : Type 0
Effect = State × List Action
