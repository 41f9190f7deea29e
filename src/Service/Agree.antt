-- ===== src/Service/Agree.antt =====
-- The service's status of a thread and the collector it controls.
use cbtf_krell.Prelude.{Bool, List, [], ◌∷◌, arith}
use cbtf_krell.Monitor.Types.{Call}
use cbtf_krell.Service.Types.{Setup, State, Env, get_dl_info}
use cbtf_krell.Service.Dsos.{record_opened}
use cbtf_krell.Service.Quiet.{record_opened-Quiet}
use cbtf_krell.Service.Machine.{
  Request, from_monitor, collector_sends, omp_thread_id, ompt_flag, ompt_finished, serve_call,
  serve, serve_all,
}
use cbtf_krell.Service.Followed.{deferred, Agrees, Follows, Follows-then_do, Follows-Quiet}
use cbtf_krell.Service.Followed.Sampling.{collector_send-Follows, start-Follows, stop-Follows}
use cbtf_krell.Service.Followed.Events.{status-Follows, notify-Follows}

serve_call-Follows : (u : Setup) (env : Env) (c : Call) → Follows (serve_call u env c)
unfolding serve_call
serve_call-Follows u env Call.start_sampling = start-Follows u env
serve_call-Follows u env (Call.stop_sampling b) = stop-Follows u env b
serve_call-Follows u env (Call.notify_event e) = notify-Follows u env e
serve_call-Follows u env (Call.sampling_control e v) = status-Follows u env e v
serve_call-Follows u env (Call.get_dl_info name load unload) =
    Follows-then_do (λ s. (s, get_dl_info name load unload ∷ []))
      (record_opened u env load unload env.objects) (λ d s a. a)
      (Follows-Quiet (record_opened u env load unload env.objects)
        (record_opened-Quiet u env load unload env.objects))
serve_call-Follows u env Call.raise_segv = λ d s a. a

serve-Follows : (u : Setup) (env : Env) (r : Request) → Follows (serve u env r)
unfolding serve
serve-Follows u env (from_monitor c) = serve_call-Follows u env c
serve-Follows u env collector_sends = collector_send-Follows u env
serve-Follows u env (omp_thread_id tid) = λ d s a. ground arith
serve-Follows u env (ompt_flag b) = λ d s a. ground arith
serve-Follows u env (ompt_finished b) = λ d s a. ground arith

-- Whatever the monitor layer, the collector and an OpenMP tool ask of the service, in whatever order:
-- if at the beginning the thread's status is Paused exactly if the collector's sampling is deferred,
-- then so it is at the end, unless the thread has finished. Pausing and resuming twice, the pause
-- round the message of attached threads, and stopping and starting again are all among the requests.
pub serve_all-Agrees :
    (u : Setup) (rs : List (Env × Request)) (d : Bool) (s : State)
    → Agrees d s
    → Agrees (deferred d (serve_all u rs s).1) (serve_all u rs s).0
unfolding serve_all
serve_all-Agrees u [] d s a = a
serve_all-Agrees u (r ∷ rs) d s a =
    Follows-then_do (serve u r.0 r.1) (serve_all u rs) (serve-Follows u r.0 r.1)
      (λ d' t. serve_all-Agrees u rs d' t) d s a
