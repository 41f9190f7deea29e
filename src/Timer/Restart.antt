-- ===== src/Timer/Restart.antt =====
-- Enabling a timer in a thread that has one.
use cbtf_krell.Prelude.{
  ℕ, ◌<◌, true, false, List, [], ◌∷◌, ◌++◌, none, some, ◌≡◌, ◌==◌, if◌then◌else◌, arith,
}
use cbtf_krell.Timer.Handler.{Shared, Thread, System, Action, create_timer, delete_timer, set_timer}

abbrev without : ℕ → List ℕ → List ℕ
without n [] = []
without n (m ∷ ms) = if m == n then without n ms else m ∷ without n ms

-- The POSIX timers of a thread that are there after the actions.
abbrev pub live : List ℕ → List Action → List ℕ
live ns [] = ns
live ns (create_timer n ∷ acts) = live (n ∷ ns) acts
live ns (delete_timer n ∷ acts) = live (without n ns) acts
live ns (_ ∷ acts) = live ns acts

-- A thread whose one timer is `n`, and whose record says so, is given a new timer, without a removal
-- in between, where the system makes the timer `m`: with POSIX timers the old timer is there still,
-- and a removal afterwards deletes the new one only.
pub restart_keeps_old :
    (y : System) (interval handler n m : ℕ) (s : Shared) (t : Thread)
    → 0 < interval
    → 0 < n
    → 0 < m
    → (m == n) ≡ false
    → y.have_posix_timers ≡ true
    → s.init_timer_signal ≡ true
    → s.use_posix_timer ≡ true
    → y.created ≡ some m
    → let r = set_timer y interval (some handler) s t in
      let r' = set_timer y 0 none r.0 r.1 in
      (live (n ∷ []) r.2 ≡ m ∷ n ∷ []) × (live (n ∷ []) (r.2 ++ r'.2) ≡ n ∷ [])
unfolding set_timer
restart_keeps_old y interval handler n m s t a b c d e f g h = ground arith
