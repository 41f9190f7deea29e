-- ===== src/Trace/Types.antt =====
-- The record of a thread of the tracing collectors, and what they send: core/collectors/io/collector.c
-- built for traces, that is without PROFILE and EXTENDEDTRACE.
use cbtf_krell.Prelude.{
  ℕ, ◌+◌, ◌-◌, ◌%◌, ◌^◌, Bool, false, ◌||◌, List, [], ◌∷◌, Option, ltb, ◌==◌, if◌then◌else◌,
}
use cbtf_krell.Header.{DataHeader}

-- CBTF_io_event, CBTF_mem_event and so on. The collectors write the index of the stack trace only, and
-- that of the path name, which CBTF_iot_event alone has; `call` stands for the rest, which the wrappers
-- fill in.
pub record Event : Type 0 where
  pub call : ℕ
  pub stacktrace : ℕ
  pub pathindex : ℕ

abbrev pub zero_event : Event
zero_event = record { call = 0; stacktrace = 0; pathindex = 0 }

-- TLS. The pointers of the blob to the arrays of the buffer are fixed, and left out. `traced` has the
-- names of the string of that name, which colons and commas part.
pub record Tls : Type 0 where
  pub header : DataHeader
  pub stacktraces : List ℕ
  pub stacktraces_len : ℕ
  pub events : List Event
  pub events_len : ℕ
  pub traced : List ℕ
  pub nesting_depth : ℕ
  pub do_trace : Bool
  pub defer_sampling : Bool

-- CBTF_io_trace_data as it is sent: the arrays up to their lengths.
pub record Blob : Type 0 where
  pub header : DataHeader
  pub stacks : List ℕ
  pub events : List Event

-- StackTraceBufferSize and EventBufferSize, the text that names the collector, and whether it leaves
-- out the writing of a frame that is 0.
pub record Setup : Type 0 where
  pub stack_size : ℕ
  pub event_size : ℕ
  pub unique_id : ℕ
  pub skips_zero : Bool

-- What recording an event may read: the rank, and the times for one sending and for another, each time
-- that of the end and that of the new beginning.
pub record Env : Type 0 where
  pub rank : Option ℕ
  pub ended : ℕ
  pub begun : ℕ
  pub ended' : ℕ
  pub begun' : ℕ

-- An unsigned depth.
abbrev pub depth_range : ℕ
depth_range = 2 ^ 32

abbrev pub increment : ℕ → ℕ
increment depth = (depth + 1) % depth_range

abbrev pub decrement : ℕ → ℕ
decrement depth = (depth + depth_range - 1) % depth_range

-- The first frame becomes the address of the traced function.
abbrev pub with_function : ℕ → List ℕ → List ℕ
with_function function [] = []
with_function function (_ ∷ fs) = function ∷ fs

abbrev pub names : ℕ → List ℕ → Bool
names f [] = false
names f (g ∷ gs) = (g == f) || names f gs

-- For a call that is not traced a depth above 1 is lowered.
abbrev pub skip : Tls → Tls × Bool
skip t =
    ((if ltb 1 t.nesting_depth then record t { nesting_depth = t.nesting_depth - 1 } else t), false)
