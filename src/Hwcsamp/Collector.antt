-- ===== src/Hwcsamp/Collector.antt =====
-- core/collectors/hwcsamp/collector.c, after the start: the handler of the timer, pausing, resuming
-- and stopping. The static variables are part of the state of the one thread that is modelled.
use cbtf_krell.Prelude.{
  zeroed, ℕ, Bool, true, false, List, [], ◌∷◌, map, Option, none, some, ltb, if◌then◌else◌, take,
}
use cbtf_krell.Header.{DataHeader}
use cbtf_krell.PcData.{HwcPcData, update_hwcpc_data}
use cbtf_krell.Pcsamp.Collector.{Blame, max_address}
use cbtf_krell.Hwcsamp.Papi.{Reading, cbtf_stop, cbtf_hwc_accum}

-- TLS. The pointers of the blob to the arrays of the buffer are fixed, and left out.
pub record Tls : Type 0 where
  pub header : DataHeader
  pub pc_len : ℕ
  pub count_len : ℕ
  pub events_len : ℕ
  pub interval : ℕ
  pub clock_mhz : ℕ
  pub buffer : HwcPcData
  pub thread_idle : Bool
  pub thread_wait_barrier : Bool
  pub thread_barrier : Bool
  pub defer_sampling : Bool
  pub event_set : Option ℕ

-- The record of the thread, with `hwcsamp_papi_init_done` and `evalues`.
pub record State : Type 0 where
  pub tls : Tls
  pub papi_init_done : Bool
  pub evalues : List ℕ

-- CBTF_hwcsamp_data as it is sent: the arrays up to their lengths.
pub record Blob : Type 0 where
  pub header : DataHeader
  pub interval : ℕ
  pub pcs : List ℕ
  pub counts : List ℕ
  pub events : List (List ℕ)
  pub clock_mhz : ℕ

pub data Action : Type 0 where
  send : Blob → Action
  init_papi : Action
  create_eventset : Action
  assign_eventset_component : Option ℕ → Action
  set_multiplex : Option ℕ → Action
  add_event : Option ℕ → List ℕ → Action
  start_counters stop_counters : Option ℕ → Action
  start_timer : ℕ → Action
  stop_timer block_signal unblock_signal : Action

-- `initialize_data`. The arrays `pc` and `count` keep what they hold.
unfoldable pub initialize_data : ℕ → State → State
initialize_data now s =
    let t : Tls = s.tls in
    record s {
      tls = record t {
        header = record t.header {
          time_begin = now;
          time_end = 0;
          addr_begin = max_address;
          addr_end = 0;
        };
        pc_len = 0;
        count_len = 0;
        events_len = t.buffer.samples.len;
        buffer = record {
          samples = record t.buffer.samples {
            addr_begin = max_address;
            addr_end = 0;
            len = 0;
            hash_table = zeroed t.buffer.samples.hash_table;
          };
          hwccounts = map zeroed t.buffer.hwccounts;
        };
      };
      evalues = zeroed s.evalues;
    }

-- The header and the lengths are filled in for a send.
abbrev pub filled_in : ℕ → Option ℕ → Tls → Tls
filled_in now rank t = record t {
  header = record t.header {
    time_end = now;
    addr_begin = t.buffer.samples.addr_begin;
    addr_end = t.buffer.samples.addr_end;
    rank = rank;
  };
  pc_len = t.buffer.samples.len;
  count_len = t.buffer.samples.len;
  events_len = t.buffer.samples.len;
}

abbrev pub blob_of : Tls → Blob
blob_of t = record {
  header = t.header;
  interval = t.interval;
  pcs = take t.pc_len t.buffer.samples.pc;
  counts = take t.count_len t.buffer.samples.count;
  events = take t.events_len t.buffer.hwccounts;
  clock_mhz = t.clock_mhz;
}

-- `send_samples`: the blob is sent, and the buffer begins anew. `now` and `later` are the two times
-- read.
unfoldable pub send_samples : ℕ → ℕ → Option ℕ → State → State × List Action
unfolding initialize_data
send_samples now later rank s =
    let t = filled_in now rank s.tls in
    (initialize_data later (record s { tls = t }), send (blob_of t) ∷ [])

-- The address that a sample is charged to.
unfoldable pub charged_to : Blame → Tls → ℕ → ℕ
charged_to f t pc =
    if t.thread_idle
    then f.idle
    else if t.thread_wait_barrier
    then f.wait_barrier
    else if t.thread_barrier
    then f.barrier
    else pc

-- `evalues` is cleared.
abbrev pub cleared : State × List Action → State × List Action
cleared (s, acts) = (record s { evalues = zeroed s.evalues }, acts)

-- The rest of the handler, once the buffer is updated.
abbrev pub recorded : ℕ → ℕ → Option ℕ → State → HwcPcData → Bool → State × List Action
unfolding send_samples
recorded now later rank s buffer full =
    let s' : State = record s { tls = record s.tls { buffer = buffer } } in
    cleared (if full then send_samples now later rank s' else (s', []))

-- `hwcsampTimerHandler` at the address `pc` of the interrupted thread, with what PAPI_accum has
-- counted; `none` if the search in the buffer does not end.
unfoldable pub hwcsamp_timer_handler :
    ℕ → ℕ → Blame → ℕ → ℕ → Option ℕ → ℕ → List ℕ → State → Option (State × List Action)
unfolding charged_to cbtf_hwc_accum
hwcsamp_timer_handler cap hsize f now later rank pc counted s =
    let evalues = cbtf_hwc_accum s.tls.event_set counted s.evalues in
    if s.tls.defer_sampling
    then some (s, [])
    else elim (update_hwcpc_data cap hsize (charged_to f s.tls pc) evalues s.tls.buffer) [
      | none ↦ none
      | some (buffer, full) ↦
          some (recorded now later rank (record s { evalues = evalues }) buffer full)
    ]

unfoldable pub collector_pause : Reading → State → State × List Action
unfolding cbtf_stop
collector_pause reading s =
    let s' : State = record s { tls = record s.tls { defer_sampling = true } } in
    if s.papi_init_done
    then (
      record s' { evalues = cbtf_stop s.tls.event_set reading s.evalues },
      block_signal ∷ stop_counters s.tls.event_set ∷ [],
    )
    else (s', block_signal ∷ [])

unfoldable pub collector_resume : State → State × List Action
collector_resume s =
    let s' : State = record s { tls = record s.tls { defer_sampling = false } } in
    if s.papi_init_done
    then (s', unblock_signal ∷ start_counters s.tls.event_set ∷ [])
    else (s', unblock_signal ∷ [])

-- `cbtf_collector_stop` with an event set: what is left in the buffer is sent.
unfoldable pub stopped : ℕ → ℕ → ℕ → Option ℕ → Reading → State → State × List Action
unfolding send_samples cbtf_stop
stopped ended now later rank reading s =
    let s' : State = record s {
      evalues = cbtf_stop s.tls.event_set reading s.evalues;
      tls = record s.tls { header = record s.tls.header { time_end = ended } };
    } in
    let (s'', acts) =
      if ltb 0 s.tls.buffer.samples.len then send_samples now later rank s' else (s', []) in
    (s'', stop_counters s.tls.event_set ∷ stop_timer ∷ acts)

abbrev pub is_papi_null : Option ℕ → Bool
is_papi_null none = true
is_papi_null (some _) = false

unfoldable pub collector_stop : ℕ → ℕ → ℕ → Option ℕ → Reading → State → State × List Action
collector_stop ended now later rank reading s =
    if is_papi_null s.tls.event_set then (s, []) else stopped ended now later rank reading s

-- OMPT_THREAD_IDLE, OMPT_THREAD_BARRIER and OMPT_THREAD_WAIT_BARRIER.
unfoldable pub ompt_thread_idle : Bool → State → State
ompt_thread_idle flag s = record s { tls = record s.tls { thread_idle = flag } }

unfoldable pub ompt_thread_barrier : Bool → State → State
ompt_thread_barrier flag s = record s { tls = record s.tls { thread_barrier = flag } }

unfoldable pub ompt_thread_wait_barrier : Bool → State → State
ompt_thread_wait_barrier flag s = record s { tls = record s.tls { thread_wait_barrier = flag } }
