-- ===== src/Service/Followed.antt =====
-- How the operations of the service keep the thread's status and the collector's deferral together.
pub mod Sampling
pub mod Events
use cbtf_krell.Prelude.{
  Bool, true, false, List, [], ◌∷◌, ◌++◌, ◌≡◌, refl, sym, subst, arith, if◌then◌else◌,
}
use cbtf_krell.Monitor.Types.{is_paused, is_finished}
use cbtf_krell.Service.Types.{
  State, Action, Effect, collector_start, collector_pause, collector_resume, send_objects,
  write_objects,
}
use cbtf_krell.Service.Control.{◌then_do◌}
use cbtf_krell.Service.Quiet.{about_objects, Quiet}

-- What the calls to the collector leave of its flag `defer_sampling`.
abbrev pub deferred : Bool → List Action → Bool
deferred d [] = d
deferred d (collector_start _ ∷ acts) = deferred false acts
deferred d (collector_pause ∷ acts) = deferred true acts
deferred d (collector_resume ∷ acts) = deferred false acts
deferred d (_ ∷ acts) = deferred d acts

pub deferred-append :
    (d : Bool) (xs ys : List Action) → deferred d (xs ++ ys) ≡ deferred (deferred d xs) ys
deferred-append d [] ys = refl
deferred-append d (collector_start _ ∷ xs) ys = deferred-append false xs ys
deferred-append d (collector_pause ∷ xs) ys = deferred-append true xs ys
deferred-append d (collector_resume ∷ xs) ys = deferred-append false xs ys
deferred-append d (_ ∷ xs) ys = deferred-append d xs ys

-- Unless the thread has finished, its status is Paused exactly if the collector's sampling is deferred.
abbrev pub Agrees : Bool → State → Type 0
Agrees d s = is_finished s.thread.sampling_status ≡ false → is_paused s.thread.sampling_status ≡ d

pub either : (b : Bool) (P : Effect → Type 0) (r q : Effect) → P r → P q → P (if b then r else q)
either true P r q h k = h
either false P r q h k = k

-- Whatever state and flag an operation begins with, if they agree, they agree when it ends.
abbrev pub Follows : (State → Effect) → Type 0
Follows f = (d : Bool) (s : State) → Agrees d s → Agrees (deferred d (f s).1) (f s).0

pub Follows-then_do : (f g : State → Effect) → Follows f → Follows g → Follows (λ s. f s then_do g)
Follows-then_do f g h k d s a = rw (deferred-append d (f s).1 (g (f s).0).1) (k _ _ (h d s a))

pub about_objects-deferred :
    (d b : Bool) (acts : List Action) → about_objects b acts ≡ true → deferred d acts ≡ d
about_objects-deferred d b [] h = refl
about_objects-deferred d b (send_objects n os ∷ acts) h =
    about_objects-deferred d b acts (ground arith)
about_objects-deferred d b (write_objects n os ∷ acts) h = about_objects-deferred d b acts h
about_objects-deferred d b (_ ∷ acts) h = absurd (ground arith)

pub Follows-Quiet : (f : State → Effect) → ((s : State) → Quiet s (f s)) → Follows f
Follows-Quiet f h d s a =
    let q = h s in
    let same = about_objects-deferred d s.process.connected_to_mrnet (f s).1 q.about in
    rw same (subst (λ v. is_finished v ≡ false → is_paused v ≡ d) (sym q.status) a)

pub Follows-if :
    (b : State → Bool) (f g : State → Effect)
    → Follows f
    → Follows g
    → Follows (λ s. if b s then f s else g s)
Follows-if b f g h k d s a =
    either (b s) (λ (r : Effect). Agrees (deferred d r.1) r.0) (f s) (g s) (h d s a) (k d s a)

pub Follows-nothing : Follows (λ s. (s, []))
Follows-nothing d s a = a
