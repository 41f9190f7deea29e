-- ===== src/Monitor/Loaded.antt =====
-- Monitor.c's list of objects opened at run time: the chain, the pointer into it, and which closings
-- are recorded.
use cbtf_krell.Prelude.{
  ℕ, zero, suc, ◌+◌, ◌-◌, ◌≤◌, false, List, [], ◌∷◌, ◌≡◌, refl, Option, none, some, length, arith,
}
use cbtf_krell.Monitor.Types.{DlInfo, State, Call, is_finished}
use cbtf_krell.Monitor.Objects.{close_object, close_from}
use cbtf_krell.Monitor.Step.{Callback, on_dlopen, on_dlclose, step}

-- `cbtf_dllist_curr` is null or points into the chain that `cbtf_dllist_head` begins.
abbrev pub PointsInto : State → Type 0
PointsInto s = s.tls.dllist_curr ≤ length s.tls.dllist

close_object_bounds :
    (h now : ℕ) (ds : List DlInfo)
    → (length (close_object h now ds).0 ≡ length ds) × ((close_object h now ds).1 ≤ length ds)
unfolding close_object
close_object_bounds h now [] = ground arith
close_object_bounds h now (d ∷ ds) = ground (arith, close_object_bounds h now ds)

close_from_bounds :
    (k h now : ℕ) (ds : List DlInfo)
    → (length (close_from k h now ds).0 ≡ length ds) × ((close_from k h now ds).1 ≤ length ds)
unfolding close_from
close_from_bounds zero h now ds = close_object_bounds h now ds
close_from_bounds (suc k) h now [] = ground arith
close_from_bounds (suc k) h now (d ∷ ds) = ground (arith, close_from_bounds k h now ds)

-- Every callback keeps the pointer into the chain.
pub step-PointsInto : (c : Callback) (s : State) → PointsInto s → PointsInto (step c s).0
unfolding step
step-PointsInto (on_dlclose h now) s p =
    ground (arith, close_from_bounds (length s.tls.dllist - s.tls.dllist_curr) h now s.tls.dllist)
step-PointsInto (on_dlopen none h now later) s p = ground arith
step-PointsInto _ s p = ground arith

abbrev pub first_call : List Call → Option Call
first_call [] = none
first_call (c ∷ cs) = some c

-- Neither finished nor in the start-up of MPI: the callbacks for objects do their work.
pub record IsOpen (s : State) : Type 0 where
  pub running : is_finished s.tls.sampling_status ≡ false
  pub outside : s.globals.in_mpi_startup ≡ false
  pub past : s.tls.in_mpi_pre_init ≡ false

abbrev pub opened : ℕ → ℕ → ℕ → ℕ → DlInfo
opened name h now later = record {
  name = name;
  load_time = now;
  unload_time = later + 1;
  handle = h;
}

-- What opening an object leaves.
pub record Opened (name h now later : ℕ) (s t : State) : Type 0 where
  pub open_still : IsOpen t
  pub chain : t.tls.dllist ≡ opened name h now later ∷ s.tls.dllist
  pub at_head : t.tls.dllist_curr ≡ length s.tls.dllist + 1

pub dlopen-Opened :
    (name h now later : ℕ) (s : State)
    → IsOpen s
    → Opened name h now later s (step (on_dlopen (some name) h now later) s).0
unfolding step
dlopen-Opened name h now later s o = ground arith

close_from-close_object :
    (k h now : ℕ) (ds : List DlInfo) → k ≡ 0 → close_from k h now ds ≡ close_object h now ds
unfolding close_from
close_from-close_object zero h now ds e = refl
close_from-close_object (suc k) h now ds e = absurd (omega arith)

-- The loop of a closing, on the state in which it is called.
abbrev pub loop_of : ℕ → ℕ → State → List DlInfo × ℕ × Option DlInfo
loop_of h t s = close_from (length s.tls.dllist - s.tls.dllist_curr) h t s.tls.dllist

-- What closing does outside MPI's start-up, in terms of that loop.
pub record Closed (h t : ℕ) (s u : State) : Type 0 where
  pub chain : u.tls.dllist ≡ (loop_of h t s).0
  pub place : u.tls.dllist_curr ≡ (loop_of h t s).1
  pub open_still : IsOpen u

pub dlclose-Closed : (h t : ℕ) (s : State) → IsOpen s → Closed h t s (step (on_dlclose h t) s).0
unfolding step
dlclose-Closed h t s o = ground arith

dlclose_reports :
    (h t : ℕ) (s : State) (d : DlInfo)
    → IsOpen s
    → (loop_of h t s).2 ≡ some d
    → first_call (step (on_dlclose h t) s).1
      ≡ some (Call.get_dl_info d.name d.load_time d.unload_time)
unfolding step
dlclose_reports h t s d o e = ground arith

-- At the head of the chain the loop sees the node just opened.
pub loop_of-Opened :
    (name h now later k t : ℕ) (s u : State)
    → Opened name h now later s u
    → loop_of k t u ≡ close_object k t (opened name h now later ∷ s.tls.dllist)
loop_of-Opened name h now later k t s u o =
    rw o.chain
      (close_from-close_object _ k t (opened name h now later ∷ s.tls.dllist) (omega arith))

-- Closing an object just after it was opened, outside the start-up of MPI and before the thread has
-- finished: the first call reports its name with the time of the opening and that of the closing,
-- and the entry at the head of the list has the time of the closing as its unload time.
pub dlclose-dlopen :
    (name h now later t : ℕ) (s : State)
    → IsOpen s
    → let r = step (on_dlclose h t) (step (on_dlopen (some name) h now later) s).0 in
      (first_call r.1 ≡ some (Call.get_dl_info name now t))
      × (r.0.tls.dllist
          ≡ record { name = name; load_time = now; unload_time = t; handle = h } ∷ s.tls.dllist)
unfolding close_object
dlclose-dlopen name h now later t s o =
    let u = (step (on_dlopen (some name) h now later) s).0 in
    let p = dlopen-Opened name h now later s o in
    let l = loop_of-Opened name h now later h t s u p in
    (
      dlclose_reports h t u (record (opened name h now later) { unload_time = t }) p.open_still
          (ground (arith, l)),
      ground (arith, l, dlclose-Closed h t u p.open_still),
    )
