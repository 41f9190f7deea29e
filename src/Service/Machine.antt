-- ===== src/Service/Machine.antt =====
-- The service as one machine: what the monitor layer, the collector and an OpenMP tool ask of it.
use cbtf_krell.Prelude.{ℕ, Bool, List, [], ◌∷◌}
use cbtf_krell.Monitor.Types.{Call}
use cbtf_krell.Service.Types.{Setup, State, Env, Effect, get_dl_info, raise_segv}
use cbtf_krell.Service.Dsos.{record_opened}
use cbtf_krell.Service.Control.{
  ◌then_do◌, collector_send, set_openmp_threadid, set_ompt_flag, set_ompt_thread_finished,
}
use cbtf_krell.Service.Offline.{
  offline_sampling_status, offline_start_sampling, offline_stop_sampling, offline_notify_event,
}

pub data Request : Type 0 where
  from_monitor : Call → Request
  collector_sends : Request
  omp_thread_id : ℕ → Request
  ompt_flag ompt_finished : Bool → Request

unfoldable pub serve_call : Setup → Env → Call → State → Effect
unfolding offline_sampling_status offline_start_sampling offline_stop_sampling offline_notify_event
serve_call u env Call.start_sampling s = offline_start_sampling u env s
serve_call u env (Call.stop_sampling finished) s = offline_stop_sampling u env finished s
serve_call u env (Call.notify_event e) s = offline_notify_event u env e s
serve_call u env (Call.sampling_control e v) s = offline_sampling_status u env e v s
serve_call u env (Call.get_dl_info name load unload) s =
    (s, get_dl_info name load unload ∷ []) then_do record_opened u env load unload env.objects
serve_call u env Call.raise_segv s = (s, raise_segv ∷ [])

unfoldable pub serve : Setup → Env → Request → State → Effect
unfolding serve_call collector_send set_openmp_threadid set_ompt_flag set_ompt_thread_finished
serve u env (from_monitor c) s = serve_call u env c s
serve u env collector_sends s = collector_send u env s
serve u env (omp_thread_id tid) s = (set_openmp_threadid u tid s, [])
serve u env (ompt_flag b) s = (set_ompt_flag b s, [])
serve u env (ompt_finished b) s = (set_ompt_thread_finished b s, [])

-- Requests in their order, each with what the system answers during it.
unfoldable pub serve_all : Setup → List (Env × Request) → State → Effect
serve_all u [] s = (s, [])
serve_all u (r ∷ rs) s = serve u r.0 r.1 s then_do serve_all u rs
