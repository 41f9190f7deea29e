-- ===== src/Hwctime/Collector.antt =====
-- core/collectors/hwctime/collector.c, built with HAVE_OMPT and CBTF_HANDLE_UNWIND_SEGV. The fields, the
-- buffer of stacks, and what the handler does with the frames are word for word those of the usertime
-- collector, and are taken from there; the counter and what PAPI is asked for are this collector's own.
use cbtf_krell.Prelude.{ℕ, Bool, true, false, List, [], ◌∷◌, ◌++◌, Option, ltb, if◌then◌else◌}
use cbtf_krell.Header.{DataHeader}
use cbtf_krell.Usertime.Types.{Tls, Blob, Layout, Unwound, Action as Asked}
use cbtf_krell.Usertime.Collector as Stacks
use cbtf_krell.Usertime.Collector.{initialize_data, service_timer_handler}
use cbtf_krell.Hwcsamp.Papi.{cbtf_create_eventset}
use cbtf_krell.Hwcsamp.Collector.{is_papi_null}
use cbtf_krell.Hwc.Collector.{Surroundings, threshold_of}

-- TLS, whose fields but the event set are in `tls`, and the static `hwctime_papi_init_done`.
pub record State : Type 0 where
  pub tls : Tls
  pub event_set : Option ℕ
  pub papi_init_done : Bool

-- An event is added by its code; an overflow is asked for with its code and the threshold.
pub data Action : Type 0 where
  send : Blob → Action
  install_segv_handler init_papi create_eventset : Action
  add_event : Option ℕ → ℕ → Action
  overflow : Option ℕ → ℕ → ℕ → Action
  start_counters stop_counters : Option ℕ → Action

-- The handler and a send ask for nothing but that blobs be sent.
abbrev pub sends : List Asked → List Action
sends [] = []
sends (Asked.send b ∷ acts) = send b ∷ sends acts
sends (_ ∷ acts) = sends acts

-- `send_samples`; `now` and `later` are the two times read.
unfoldable pub send_samples : ℕ → ℕ → Option ℕ → State → State × List Action
unfolding Stacks.send_samples
send_samples now later rank s =
    let (t, acts) = Stacks.send_samples now later rank s.tls in (record s { tls = t }, sends acts)

-- `hwctimePAPIHandler`
unfoldable pub hwctime_papi_handler :
    ℕ → Layout → ℕ → ℕ → Option ℕ → Unwound → State → State × List Action
unfolding service_timer_handler
hwctime_papi_handler cap y now later rank w s =
    let (t, acts) = service_timer_handler cap y now later rank w s.tls in
    (record s { tls = t }, sends acts)

-- The record once the counter is started; the time of the beginning is read a second time.
abbrev pub started : DataHeader → ℕ → Surroundings → State → State
unfolding initialize_data
started header name env s =
    let t : Tls =
      initialize_data env.now
        (record s.tls { interval = threshold_of env.threshold; header = header }) in
    record {
      tls = record t {
        header = record t.header { omp_tid = env.thread_num; id = name; time_begin = env.last };
        thread_idle = false;
        thread_wait_barrier = false;
        thread_barrier = false;
        is_unwinding = false;
        unwind_segvcount = 0;
        sample_count = 0;
        defer_sampling = false;
      };
      event_set = cbtf_create_eventset env.created s.event_set;
      papi_init_done = true;
    }

-- `cbtf_collector_start`
unfoldable pub collector_start : DataHeader → ℕ → Surroundings → State → State × List Action
unfolding initialize_data
collector_start header name env s = (
  started header name env s,
  install_segv_handler
      ∷ ((if s.papi_init_done then [] else init_papi ∷ [])
          ++ (create_eventset
              ∷ add_event env.created env.event_code
              ∷ overflow env.created env.event_code (threshold_of env.threshold)
              ∷ start_counters env.created
              ∷ [])),
)

abbrev pub with_deferral : Bool → State → State
with_deferral flag s = record s { tls = record s.tls { defer_sampling = flag } }

unfoldable pub collector_pause : State → State
collector_pause s = if s.papi_init_done then with_deferral true s else s

unfoldable pub collector_resume : State → State
collector_resume s = if s.papi_init_done then with_deferral false s else s

-- `cbtf_collector_stop` with an event set: what is left in the buffer is sent.
unfoldable pub stopped : ℕ → ℕ → ℕ → Option ℕ → State → State × List Action
unfolding send_samples
stopped ended now later rank s =
    let s' : State = record s {
      tls = record s.tls { header = record s.tls.header { time_end = ended } };
    } in
    let (s'', acts) =
      if ltb 0 s.tls.stacktraces_len then send_samples now later rank s' else (s', []) in
    (s'', stop_counters s.event_set ∷ acts)

unfoldable pub collector_stop : ℕ → ℕ → ℕ → Option ℕ → State → State × List Action
collector_stop ended now later rank s =
    if is_papi_null s.event_set then (s, []) else stopped ended now later rank s

-- OMPT_THREAD_IDLE, OMPT_THREAD_BARRIER and OMPT_THREAD_WAIT_BARRIER.
unfoldable pub ompt_thread_idle : Bool → State → State
ompt_thread_idle flag s = record s { tls = record s.tls { thread_idle = flag } }

unfoldable pub ompt_thread_barrier : Bool → State → State
ompt_thread_barrier flag s = record s { tls = record s.tls { thread_barrier = flag } }

unfoldable pub ompt_thread_wait_barrier : Bool → State → State
ompt_thread_wait_barrier flag s = record s { tls = record s.tls { thread_wait_barrier = flag } }
