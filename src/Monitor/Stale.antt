-- ===== src/Monitor/Stale.antt =====
-- Monitor.c's search for a closed object starts at `cbtf_dllist_curr`, which the search before it
-- has moved: two openings closed in the order of the openings.
use cbtf_krell.Prelude.{
  ℕ, zero, suc, ◌+◌, List, ◌∷◌, ◌≡◌, ◌≢◌, refl, some, length, get_elem?, arith,
}
use cbtf_krell.Monitor.Types.{DlInfo, State}
use cbtf_krell.Monitor.Objects.{close_object, close_from}
use cbtf_krell.Monitor.Step.{on_dlopen, on_dlclose, step}
use cbtf_krell.Monitor.Loaded.{IsOpen, opened, dlopen-Opened, dlclose-Closed, loop_of-Opened}

close_from_one :
    (k h t : ℕ) (d : DlInfo) (ds : List DlInfo)
    → k ≡ 1
    → get_elem? (close_from k h t (d ∷ ds)).0 0 ≡ some d
unfolding close_from
close_from_one zero h t d ds e = absurd (omega arith)
close_from_one (suc k) h t d ds e = refl

module _ (name h now later name' h' now' later' t t' : ℕ) (s : State) where
  abbrev one_open : State
  one_open = (step (on_dlopen (some name) h now later) s).0

  abbrev both_open : State
  both_open = (step (on_dlopen (some name') h' now' later') one_open).0

  abbrev one_closed : State
  one_closed = (step (on_dlclose h t) both_open).0

  abbrev pub both_closed : State
  both_closed = (step (on_dlclose h' t') one_closed).0

  -- The first closing leaves the pointer behind the second object's node.
  one_closed_lem :
      IsOpen s
      → h ≢ h'
      → (one_closed.tls.dllist_curr ≡ length s.tls.dllist + 1)
        × (one_closed.tls.dllist
            ≡ opened name' h' now' later'
              ∷ record (opened name h now later) { unload_time = t }
              ∷ s.tls.dllist)
        × IsOpen one_closed
  unfolding close_object
  one_closed_lem o n =
      let p = dlopen-Opened name h now later s o in
      let q = dlopen-Opened name' h' now' later' one_open p.open_still in
      let l = loop_of-Opened name' h' now' later' h t one_open both_open q in
      let c = dlclose-Closed h t both_open q.open_still in
      ground (arith, p.chain, l, c.place, c.chain, c.open_still)

  -- Of two objects with different handles that are opened one after the other and closed in that
  -- same order, outside the start-up of MPI and before the thread has finished, the second closing
  -- is not recorded: the entry at the head of the list, which is the second object's, keeps the
  -- provisional unload time of its opening.
  pub second_close_lost :
      IsOpen s → h ≢ h' → get_elem? both_closed.tls.dllist 0 ≡ some (opened name' h' now' later')
  second_close_lost o n =
      let (at, chain, still) = one_closed_lem o n in
      let c = dlclose-Closed h' t' one_closed still in
      rw (c.chain, chain, at) (close_from_one _ h' t' _ _ (omega arith))
