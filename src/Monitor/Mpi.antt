-- ===== src/Monitor/Mpi.antt =====
-- Monitor.c round MPI_Init, and what happens while MPI starts.
use cbtf_krell.Prelude.{
  Bool, true, false, not, ◌&&◌, ◌||◌, List, [], ◌∷◌, ◌++◌, ◌≡◌, refl, sym, subst, some,
  if◌then◌else◌, arith, append-nil,
}
use cbtf_krell.Monitor.Types.{
  State, Effect, Call, Status, is_started, is_paused, mpi_pre_init, mpi_init,
}
use cbtf_krell.Monitor.Step.{
  Callback, on_pre_dlopen, on_dlopen, on_dlclose, on_post_dlclose, on_pre_fork, on_post_fork,
  on_mpi_pre_init, on_init_mpi, step, run,
}

-- The callbacks for what the start-up of an MPI library does: it opens and closes objects, forks.
abbrev pub in_startup : Callback → Bool
in_startup (on_pre_dlopen _) = true
in_startup (on_dlopen _ _ _ _) = true
in_startup (on_dlclose _ _) = true
in_startup on_post_dlclose = true
in_startup on_pre_fork = true
in_startup on_post_fork = true
in_startup _ = false

abbrev pub AllInStartup : List Callback → Type 0
AllInStartup [] = Unit
AllInStartup (c ∷ cs) = (in_startup c ≡ true) × AllInStartup cs

-- Between `monitor_mpi_pre_init` and `monitor_init_mpi` the callbacks
-- for opened and closed objects and for forks change nothing and call nothing.
startup-step :
    (c : Callback) (s : State)
    → in_startup c ≡ true
    → s.tls.in_mpi_pre_init ≡ true
    → step c s ≡ (s, [])
unfolding step
startup-step on_post_fork s h k = ground arith
startup-step (on_dlopen (some name) _ _ _) s h k = ground arith
startup-step _ s h k = ground arith

startup-run :
    (cs rest : List Callback) (s : State)
    → AllInStartup cs
    → s.tls.in_mpi_pre_init ≡ true
    → run (cs ++ rest) s ≡ run rest s
unfolding run
startup-run [] rest s h k = refl
startup-run (c ∷ cs) rest s h k = rw (startup-step c s h.0 k, run) (startup-run cs rest s h.1 k)

-- Whether sampling runs when MPI has started: it ran or was paused before, and MPI_Pcontrol is not
-- in charge of a program that does not start enabled.
abbrev pub runs_after_mpi : State → Bool
runs_after_mpi s =
    (is_started s.tls.sampling_status || is_paused s.tls.sampling_status)
    && not (s.tls.mpi_pcontrol && not s.tls.start_enabled)

-- The status that MPI_Init leaves behind.
abbrev pub status_after_mpi : State → Status
status_after_mpi s =
    if runs_after_mpi s
    then Status.resumed
    else if is_started s.tls.sampling_status
    then Status.paused
    else s.tls.sampling_status

-- What `monitor_mpi_pre_init` calls: a started thread is paused.
abbrev pub calls_before_mpi : State → List Call
calls_before_mpi s =
    if is_started s.tls.sampling_status
    then Call.notify_event mpi_pre_init ∷ Call.sampling_control mpi_pre_init Status.paused ∷ []
    else Call.notify_event mpi_pre_init ∷ []

-- What `monitor_init_mpi` calls.
abbrev pub calls_after_mpi : State → List Call
calls_after_mpi s =
    if runs_after_mpi s
    then Call.notify_event mpi_init ∷ Call.sampling_control mpi_init Status.resumed ∷ []
    else Call.notify_event mpi_init ∷ []

-- A run from `s` that has entered MPI_Init and not left it.
abbrev pub DuringMpi : State → Effect → Type 0
DuringMpi s r =
    (r.0.tls.sampling_status
      ≡ (if is_started s.tls.sampling_status then Status.paused else s.tls.sampling_status))
    × (r.1 ≡ calls_before_mpi s)

-- A run from `s` over the whole of MPI_Init.
abbrev pub AfterMpi : State → Effect → Type 0
AfterMpi s r =
    (r.0.tls.sampling_status ≡ status_after_mpi s)
    × (r.0.tls.in_mpi_pre_init ≡ false)
    × (r.0.globals.in_mpi_startup ≡ false)
    × (r.0.tls.dllist ≡ s.tls.dllist)
    × (r.1 ≡ calls_before_mpi s ++ calls_after_mpi s)

pre_init_lem : (s : State) → DuringMpi s (run (on_mpi_pre_init ∷ []) s)
unfolding run step
pre_init_lem s = ground arith

init_mpi_lem : (s : State) → AfterMpi s (run (on_mpi_pre_init ∷ on_init_mpi ∷ []) s)
unfolding run step
init_mpi_lem s = ground arith

in_startup-pre_init : (s : State) → (step on_mpi_pre_init s).0.tls.in_mpi_pre_init ≡ true
unfolding step
in_startup-pre_init s = ground arith

-- What MPI does while it starts up makes no difference to a run.
startup-between :
    (cs rest : List Callback) (s : State)
    → AllInStartup cs
    → run (on_mpi_pre_init ∷ cs ++ rest) s ≡ run (on_mpi_pre_init ∷ rest) s
unfolding run
startup-between cs rest s h =
    rw (startup-run cs rest (step on_mpi_pre_init s).0 h (in_startup-pre_init s)) refl

-- MPI_Init, with any openings and closings of objects and any forks while MPI starts. When MPI is
-- entered, a started thread, and only such a thread, is paused; the openings, closings and forks in
-- between call nothing and leave the status as it is then (a thread that had been resumed before
-- stays resumed). At the end the start-up flags are down, the list of objects is the one of the
-- beginning, and sampling has been resumed exactly if the thread was started or paused and is not
-- one that MPI_Pcontrol is in charge of and that does not start enabled; a started thread of the
-- latter kind is left paused. The calls of the whole are the notice of the start with the pause and
-- the notice of the end with the resumption, where there are these, and no others.
pub mpi_init_bracket :
    (cs : List Callback) (s : State)
    → AllInStartup cs
    → DuringMpi s (run (on_mpi_pre_init ∷ cs) s)
      × AfterMpi s (run (on_mpi_pre_init ∷ cs ++ (on_init_mpi ∷ [])) s)
mpi_init_bracket cs s h = (
  subst (λ (ds : List Callback). DuringMpi s (run (on_mpi_pre_init ∷ ds) s)) (append-nil cs)
      (subst (DuringMpi s) (sym (startup-between cs [] s h)) (pre_init_lem s)),
  subst (AfterMpi s) (sym (startup-between cs (on_init_mpi ∷ []) s h)) (init_mpi_lem s),
)
