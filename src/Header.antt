-- ===== src/Header.antt =====
-- The header of a performance data blob (messages/src/base/DataHeader.x) and its initialisation,
-- services/src/data/InitializeDataHeader.c and InitializeEventHeader.c.
use cbtf_krell.Prelude.{ℕ, Option, none, some}

-- CBTF_DataHeader. Texts are their numbers in an enumeration of texts, since they are only copied; a
-- rank of -1 is `none`.
pub record DataHeader : Type 0 where
  pub experiment : ℕ
  pub collector : ℕ
  pub id : ℕ
  pub host : ℕ
  pub pid : ℕ
  pub posix_tid : ℕ
  pub rank : Option ℕ
  pub omp_tid : ℕ
  pub time_begin : ℕ
  pub time_end : ℕ
  pub addr_begin : ℕ
  pub addr_end : ℕ

-- What the system says of the calling thread. `canonical_name` is the name that getaddrinfo gives
-- for the host, if it gives one.
pub record Identity : Type 0 where
  pub host_name : ℕ
  pub canonical_name : Option ℕ
  pub process_id : ℕ
  pub thread_id : ℕ

-- A header that `memset` has zeroed.
abbrev pub zero_header : DataHeader
zero_header = record {
  experiment = 0;
  collector = 0;
  id = 0;
  host = 0;
  pid = 0;
  posix_tid = 0;
  rank = some 0;
  omp_tid = 0;
  time_begin = 0;
  time_end = 0;
  addr_begin = 0;
  addr_end = 0;
}

abbrev pub host_of : Identity → ℕ
host_of s = elim s.canonical_name [ none ↦ s.host_name | some n ↦ n ]

-- CBTF_InitializeDataHeader in the build without CBTF_OFFLINE_SERVICE, where the host's canonical
-- name replaces its own.
unfoldable pub initialize_data_header : ℕ → ℕ → Identity → DataHeader
initialize_data_header experiment collector s = record zero_header {
  experiment = experiment;
  collector = collector;
  host = host_of s;
  pid = s.process_id;
  posix_tid = s.thread_id;
  rank = none;
}

-- CBTF_EventHeader
pub record EventHeader : Type 0 where
  pub host : ℕ
  pub pid : ℕ
  pub posix_tid : ℕ
  pub rank : Option ℕ
  pub omp_tid : ℕ

-- CBTF_InitializeEventHeader, in the same build.
unfoldable pub initialize_event_header : Identity → EventHeader
initialize_event_header s = record {
  host = host_of s;
  pid = s.process_id;
  posix_tid = s.thread_id;
  rank = none;
  omp_tid = 0;
}
