-- ===== src/Trace/Whole.antt =====
-- Whole runs of the tracing collectors.
use cbtf_krell.Prelude.{ℕ, ◌<◌, ◌≤◌, ◌^◌, Bool, List, ◌++◌, ◌≡◌, ap, ◌∙◌, length, arith}
use cbtf_krell.Header.{DataHeader}
use cbtf_krell.Trace.Types.{Tls, Setup, Env, depth_range}
use cbtf_krell.Trace.Held.{sent_calls, sent_calls-append, AreGood, AreGood-append}
use cbtf_krell.Trace.Run.{Operations, Request, serve_all, whole, Nests, outermost}
use cbtf_krell.Trace.Interface.{Laws}
use cbtf_krell.Trace.Serve.{serve_all-Moved}
use cbtf_krell.Trace.Laws.Io.{io_operations, io-Laws}
use cbtf_krell.Trace.Laws.Mpi.{mpi_operations, mpi-Laws}
use cbtf_krell.Trace.Laws.Mem.{mem_operations, mem-Laws}
use cbtf_krell.Trace.Laws.Pthreads.{pthreads_operations, pthreads-Laws}

-- A collector: that of io and that of mem start at once or not, that of mpi knows its thread's number.
pub data Collector : Type 0 where
  io mem : Bool → Collector
  mpi : ℕ → Collector
  pthreads : Collector

abbrev pub operations : Collector → Operations
operations (io ready) = io_operations ready
operations (mem ready) = mem_operations ready
operations (mpi thread_num) = mpi_operations thread_num
operations pthreads = pthreads_operations

pub laws :
    (k : Collector) (unwind : ℕ → List ℕ) (u : Setup)
    → u.stack_size ≤ 2 ^ 16
    → Laws (operations k) unwind u
laws (io ready) unwind u small = io-Laws unwind u small ready
laws (mem ready) unwind u small = mem-Laws unwind u small ready
laws (mpi thread_num) unwind u small = mpi-Laws unwind u small thread_num
laws pthreads unwind u small = pthreads-Laws unwind u small

-- For each of the four tracing collectors, from its start on, whatever the thread's record was before,
-- as long as its arrays have their sizes and the index of a stack trace fits 16 bits: where the calls
-- nest, no wrapper asks inside a nested call, and every stack trace has two frames or more (none of
-- them 0) and fits, what is sent until the collector has stopped has the calls that no other call
-- encloses, each once and in the order of their ends, and each event's index is a place of its own
-- blob, inside it, from which on the frames of the call's stack trace stand, the first one excepted.
pub whole_trace_sends_all :
    (k : Collector) (unwind : ℕ → List ℕ) (u : Setup) (header : DataHeader) (functions : List ℕ)
    (now later : ℕ) (rs : List Request) (env : Env) (time : ℕ) (t : Tls)
    → u.stack_size ≤ 2 ^ 16
    → length t.stacktraces ≡ u.stack_size
    → length t.events ≡ u.event_size
    → 0 < u.stack_size
    → 0 < u.event_size
    → length rs < depth_range
    → Nests u unwind 0 rs
    → let sent = whole (operations k) u unwind header functions now later rs env time t in
      (sent_calls sent ≡ outermost 0 rs) × AreGood unwind sent
unfolding whole
whole_trace_sends_all k unwind u header functions now later rs env time t small a b c d e n =
    let o = operations k in
    let l = laws k unwind u small in
    let t' = o.collector_start header functions now later t in
    let (v, empty, at_zero, none_held) = l.starts header functions now later t a b c in
    let m =
      serve_all-Moved o unwind u l rs 0 t' (omega arith) n
        (record { valid = v; room = omega arith }) at_zero in
    let p = serve_all o u unwind rs t' in
    let (good, left) = l.stops env time p.0 m.valid d in
    (
      sent_calls-append p.1 (o.collector_stop u env time p.0).1
          ∙ ap (λ xs. sent_calls p.1 ++ xs) left
          ∙ m.all_there
          ∙ ap (λ xs. xs ++ outermost 0 rs) none_held,
      AreGood-append unwind p.1 (o.collector_stop u env time p.0).1 m.good good,
    )
