-- ===== src/Usertime/Types.antt =====
-- core/collectors/usertime/collector.c: the record of a thread, what is sent, and what is asked of the
-- timer, of the signals and of the unwinder.
use cbtf_krell.Prelude.{ℕ, Bool, List}
use cbtf_krell.Header.{DataHeader}

-- TLS. The pointers of the blob to the arrays of the buffer are fixed, and left out, as is the place of
-- the jump.
pub record Tls : Type 0 where
  pub header : DataHeader
  pub stacktraces_len : ℕ
  pub count_len : ℕ
  pub interval : ℕ
  pub stacktraces : List ℕ
  pub count : List ℕ
  pub thread_idle : Bool
  pub thread_wait_barrier : Bool
  pub thread_barrier : Bool
  pub defer_sampling : Bool
  pub is_unwinding : Bool
  pub unwind_segvcount : ℕ
  pub sample_count : ℕ

-- CBTF_usertime_data as it is sent: the arrays up to their lengths.
pub record Blob : Type 0 where
  pub header : DataHeader
  pub stacks : List ℕ
  pub counts : List ℕ
  pub interval : ℕ

pub data Action : Type 0 where
  send : Blob → Action
  start_timer : ℕ → Action
  stop_timer block_signal unblock_signal install_segv_handler : Action

-- What unwinding the interrupted thread gives: the addresses of its frames from the innermost on, or a
-- fault, after which the handler of the fault has jumped back.
pub data Unwound : Type 0 where
  walked : List ℕ → Unwound
  faulted : Unwound

-- The addresses of the functions that stand for a thread's OpenMP states, and the words of memory
-- that follow the array of stack traces.
pub record Layout : Type 0 where
  pub idle : ℕ
  pub wait_barrier : ℕ
  pub barrier : ℕ
  pub past : ℕ → ℕ
