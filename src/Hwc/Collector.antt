-- ===== src/Hwc/Collector.antt =====
-- core/collectors/hwc/collector.c. The fields, the initialisation of the data, what is filled in for a
-- send, and the address that is charged are word for word those of the pcsamp collector, and are
-- taken from there; the counter and what PAPI is asked for are this collector's own.
use cbtf_krell.Prelude.{
  ℕ, ◌*◌, Bool, true, false, List, [], ◌∷◌, ◌++◌, Option, none, some, ltb, if◌then◌else◌,
}
use cbtf_krell.Header.{DataHeader}
use cbtf_krell.PcData.{update_pc_data}
use cbtf_krell.Pcsamp.Collector.{Tls, Blob, Blame, initialize_data, filled_in, blob_of, charged_to}
use cbtf_krell.Hwcsamp.Papi.{cbtf_create_eventset}
use cbtf_krell.Hwcsamp.Collector.{is_papi_null}

-- TLS, whose fields but the event set are in `tls`, and the static `hwc_papi_init_done`.
pub record State : Type 0 where
  pub tls : Tls
  pub event_set : Option ℕ
  pub papi_init_done : Bool

-- An event is added by its code; an overflow is asked for with its code and the threshold.
pub data Action : Type 0 where
  send : Blob → Action
  init_papi create_eventset : Action
  add_event : Option ℕ → ℕ → Action
  overflow : Option ℕ → ℕ → ℕ → Action
  start_counters stop_counters : Option ℕ → Action

-- `send_samples`; `now` and `later` are the two times read.
unfoldable pub send_samples : ℕ → ℕ → Option ℕ → State → State × List Action
unfolding initialize_data
send_samples now later rank s =
    let t = filled_in now rank s.tls in
    (record s { tls = initialize_data later t }, send (blob_of t) ∷ [])

-- The buffer takes a sample of an address, and is sent if it is full; `none` if the search in the
-- buffer does not end.
unfoldable pub take_sample : ℕ → ℕ → ℕ → ℕ → Option ℕ → ℕ → State → Option (State × List Action)
take_sample cap hsize now later rank x s = elim (update_pc_data cap hsize x s.tls.buffer) [
  | none ↦ none
  | some (buffer, full) ↦ some (
      if full
      then send_samples now later rank (record s { tls = record s.tls { buffer = buffer } })
      else (record s { tls = record s.tls { buffer = buffer } }, []))
]

-- `hwcPAPIHandler`
unfoldable pub hwc_papi_handler :
    ℕ → ℕ → Blame → ℕ → ℕ → Option ℕ → ℕ → State → Option (State × List Action)
unfolding take_sample charged_to
hwc_papi_handler cap hsize f now later rank pc s =
    if s.tls.defer_sampling
    then some (s, [])
    else take_sample cap hsize now later rank (charged_to f s.tls pc) s

abbrev pub with_deferral : Bool → State → State
with_deferral flag s = record s { tls = record s.tls { defer_sampling = flag } }

-- `collector_record_addr`
unfoldable pub collector_record_addr :
    ℕ → ℕ → ℕ → ℕ → Option ℕ → ℕ → State → Option (State × List Action)
unfolding take_sample
collector_record_addr cap hsize now later rank addr s =
    elim (take_sample cap hsize now later rank addr (with_deferral true s)) [
      | none ↦ none
      | some (s', acts) ↦ some (with_deferral false s', acts)
    ]

-- CBTF_HWC_THRESHOLD read by atoi, or twice THRESHOLD.
abbrev pub threshold_of : Option ℕ → ℕ
threshold_of none = 20000000 * 2
threshold_of (some n) = n

-- What the start finds: the threshold that is set, the times read, and what PAPI returns: the code of
-- the event, and an event set.
pub record Surroundings : Type 0 where
  pub threshold : Option ℕ
  pub thread_num : ℕ
  pub now : ℕ
  pub last : ℕ
  pub event_code : ℕ
  pub created : Option ℕ

-- The record once the counter is started; the time of the beginning is read a second time.
abbrev pub started : DataHeader → ℕ → Surroundings → State → State
unfolding initialize_data
started header name env s =
    let t : Tls = initialize_data env.now (record s.tls {
      defer_sampling = false;
      interval = threshold_of env.threshold;
      header = header;
    }) in
    record {
      tls = record t {
        header = record t.header { omp_tid = env.thread_num; id = name; time_begin = env.last };
        thread_idle = false;
        thread_wait_barrier = false;
        thread_barrier = false;
      };
      event_set = cbtf_create_eventset env.created s.event_set;
      papi_init_done = true;
    }

-- `cbtf_collector_start`
unfoldable pub collector_start : DataHeader → ℕ → Surroundings → State → State × List Action
unfolding initialize_data
collector_start header name env s = (
  started header name env s,
  (if s.papi_init_done then [] else init_papi ∷ [])
      ++ (create_eventset
          ∷ add_event env.created env.event_code
          ∷ overflow env.created env.event_code (threshold_of env.threshold)
          ∷ start_counters env.created
          ∷ []),
)

unfoldable pub collector_pause : State → State
collector_pause s = if s.papi_init_done then with_deferral true s else s

unfoldable pub collector_resume : State → State
collector_resume s = if s.papi_init_done then with_deferral false s else s

-- `cbtf_collector_stop` with an event set: what is left in the buffer is sent.
unfoldable pub stopped : ℕ → ℕ → ℕ → Option ℕ → State → State × List Action
unfolding send_samples
stopped ended now later rank s =
    let s' : State = record s {
      tls = record s.tls { header = record s.tls.header { time_end = ended } };
    } in
    let (s'', acts) = if ltb 0 s.tls.buffer.len then send_samples now later rank s' else (s', []) in
    (s'', stop_counters s.event_set ∷ acts)

unfoldable pub collector_stop : ℕ → ℕ → ℕ → Option ℕ → State → State × List Action
collector_stop ended now later rank s =
    if is_papi_null s.event_set then (s, []) else stopped ended now later rank s

-- OMPT_THREAD_IDLE, OMPT_THREAD_BARRIER and OMPT_THREAD_WAIT_BARRIER.
unfoldable pub ompt_thread_idle : Bool → State → State
ompt_thread_idle flag s = record s { tls = record s.tls { thread_idle = flag } }

unfoldable pub ompt_thread_barrier : Bool → State → State
ompt_thread_barrier flag s = record s { tls = record s.tls { thread_barrier = flag } }

unfoldable pub ompt_thread_wait_barrier : Bool → State → State
ompt_thread_wait_barrier flag s = record s { tls = record s.tls { thread_wait_barrier = flag } }

-- `hwc_collector_events_start` and `hwc_collector_events_stop`.
unfoldable pub hwc_collector_events_start : State → List Action
hwc_collector_events_start s = if s.papi_init_done then start_counters s.event_set ∷ [] else []

unfoldable pub hwc_collector_events_stop : State → List Action
hwc_collector_events_stop s = if s.papi_init_done then stop_counters s.event_set ∷ [] else []
