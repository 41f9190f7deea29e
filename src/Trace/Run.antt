-- ===== src/Trace/Run.antt =====
-- A run of a thread under a tracing collector, from the collector's start to its stop.
use cbtf_krell.Prelude.{ℕ, suc, zero, ◌<◌, ◌≤◌, Bool, List, [], ◌∷◌, ◌++◌}
use cbtf_krell.Header.{DataHeader}
use cbtf_krell.Trace.Types.{Event, Tls, Blob, Setup, Env}
use cbtf_krell.Trace.Store.{Fits}

-- What the wrappers and the service call. Recording takes the function's address and the frames that
-- the unwinder gives, starting takes the names of the functions that are traced and two times.
pub record Operations : Type 0 where
  pub start_event : Tls → Tls × Event
  pub record_event : Setup → Env → Event → ℕ → List ℕ → Tls → Tls × List Blob
  pub do_trace : ℕ → Tls → Tls × Bool
  pub collector_start : DataHeader → List ℕ → ℕ → ℕ → Tls → Tls
  pub collector_pause : Tls → Tls
  pub collector_resume : Tls → Tls
  pub collector_stop : Setup → Env → ℕ → Tls → Tls × List Blob

-- What happens to a thread between the start and the stop. A wrapper asks whether its function is
-- traced, and if so starts an event, calls the function, and records the event; `leave` has the call
-- of the event and the address of the function.
pub data Request : Type 0 where
  enter pause resume : Request
  leave : Env → ℕ → ℕ → Request
  ask : ℕ → Request

module _ (o : Operations) (u : Setup) (unwind : ℕ → List ℕ) where
  unfoldable pub serve : Request → Tls → Tls × List Blob
  serve enter t = ((o.start_event t).0, [])
  serve pause t = (o.collector_pause t, [])
  serve resume t = (o.collector_resume t, [])
  serve (leave env c function) t =
      o.record_event u env (record { call = c; stacktrace = 0; pathindex = 0 }) function (unwind c)
        t
  serve (ask f) t = ((o.do_trace f t).0, [])

  unfoldable pub serve_all : List Request → Tls → Tls × List Blob
  unfolding serve
  serve_all [] t = (t, [])
  serve_all (r ∷ rs) t =
      let (t', sent) = serve r t in let (t'', sent') = serve_all rs t' in (t'', sent ++ sent')

  -- A whole run.
  unfoldable pub whole : DataHeader → List ℕ → ℕ → ℕ → List Request → Env → ℕ → Tls → List Blob
  unfolding serve_all
  whole header functions now later rs env time t =
      let (t', sent) = serve_all rs (o.collector_start header functions now later t) in
      sent ++ (o.collector_stop u env time t').1

module _ (u : Setup) (unwind : ℕ → List ℕ) where
  -- At the depth `d`, the wrappers' calls nest, no wrapper asks inside a nested call, and every
  -- recorded call has a stack trace that fits.
  abbrev pub Nests : ℕ → List Request → Type 0
  Nests d [] = Unit {0}
  Nests d (enter ∷ rs) = Nests (suc d) rs
  Nests d (pause ∷ rs) = Nests d rs
  Nests d (resume ∷ rs) = Nests d rs
  Nests zero (leave env c function ∷ rs) = ⊥
  Nests (suc d) (leave env c function ∷ rs) = (0 < function) × Fits u (unwind c) × Nests d rs
  Nests d (ask f ∷ rs) = (d ≤ 1) × Nests d rs

-- The calls that no other call encloses, in the order in which they end.
abbrev pub outermost : ℕ → List Request → List ℕ
outermost d [] = []
outermost d (enter ∷ rs) = outermost (suc d) rs
outermost d (pause ∷ rs) = outermost d rs
outermost d (resume ∷ rs) = outermost d rs
outermost zero (leave env c function ∷ rs) = outermost zero rs
outermost (suc zero) (leave env c function ∷ rs) = c ∷ outermost zero rs
outermost (suc (suc d)) (leave env c function ∷ rs) = outermost (suc d) rs
outermost d (ask f ∷ rs) = outermost d rs
