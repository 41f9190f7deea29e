-- ===== src/Trace/Wrappers/Program.antt =====
-- A program that calls the allocator through the wrappers, and what it should see and what should be
-- recorded: the real functions, and the calls that are to be traced.
mod Calls
pub mod Whole
mod Tests
use cbtf_krell.Prelude.{ℕ, Bool, true, not, ◌&&◌, List, [], ◌∷◌, ◌++◌, ◌==◌, if◌then◌else◌}
use cbtf_krell.Trace.Types.{Tls, Blob, names}
use cbtf_krell.Trace.Mem.{is_first}
use cbtf_krell.Trace.Wrappers.{
  MemType, Filled, Real, Site, Moment, Outcome, filled, int_bits, int_extended, malloc_wrapper,
  calloc_wrapper, realloc_wrapper, posix_memalign_wrapper, memalign_wrapper, free_wrapper,
}

pub data Call : Type 0 where
  malloc free : ℕ → Call
  calloc realloc memalign : ℕ → ℕ → Call
  posix_memalign : ℕ → ℕ → ℕ → Call

module _ {H : Type 0} (real : Real H) where
  unfoldable pub serve_call : Site → Moment → Call → Tls → H → Outcome H
  unfolding malloc_wrapper calloc_wrapper realloc_wrapper posix_memalign_wrapper memalign_wrapper
      free_wrapper
  serve_call x at (malloc size) t h = malloc_wrapper x real at size t h
  serve_call x at (free ptr) t h = free_wrapper x real at ptr t h
  serve_call x at (calloc count size) t h = calloc_wrapper x real at count size t h
  serve_call x at (realloc old size) t h = realloc_wrapper x real at old size t h
  serve_call x at (memalign blocksize bytes) t h = memalign_wrapper x real at blocksize bytes t h
  serve_call x at (posix_memalign memptr alignment size) t h =
      posix_memalign_wrapper x real at memptr alignment size t h

  -- What a program leaves: the results of its calls, and the rest.
  pub record Ran : Type 0 where
    pub results : List ℕ
    pub heap : H
    pub tls : Tls
    pub sent : List Blob

  unfoldable pub run_program : Site → List (Moment × Call) → Tls → H → Ran
  unfolding serve_call
  run_program x [] t h = record { results = []; heap = h; tls = t; sent = [] }
  run_program x (c ∷ cs) t h =
      let o = serve_call x c.0 c.1 t h in
      let r = run_program x cs o.tls o.heap in
      record { results = o.result ∷ r.results; heap = r.heap; tls = r.tls; sent = o.sent ++ r.sent }

  -- The real functions alone. The wrapper of memalign returns an int.
  abbrev pub plain : Call → H → ℕ × H
  plain (malloc size) h = real.malloc size h
  plain (free ptr) h = (0, real.free ptr h)
  plain (calloc count size) h = real.calloc count size h
  plain (realloc old size) h = real.realloc old size h
  plain (memalign blocksize bytes) h =
      let (p, h') = real.memalign blocksize bytes h in (int_bits p, h')
  plain (posix_memalign memptr alignment size) h = real.posix_memalign memptr alignment size h

  -- The event of a call, with its result and the heap after it.
  abbrev pub event_of : Moment → Call → ℕ → H → Filled
  event_of at (malloc size) r h = filled at MemType.malloc r 0 size size
  event_of at (free ptr) r h = filled at MemType.free 0 ptr 0 0
  event_of at (calloc count size) r h = filled at MemType.calloc r 0 count size
  event_of at (realloc old size) r h = filled at MemType.realloc r old size size
  event_of at (memalign blocksize bytes) r h =
      filled at MemType.memalign (int_extended r) 0 blocksize bytes
  event_of at (posix_memalign memptr alignment size) r h =
      filled at MemType.posix_memalign r (real.read memptr h) alignment size

abbrev pub kind_of : Call → MemType
kind_of (malloc _) = MemType.malloc
kind_of (free _) = MemType.free
kind_of (calloc _ _) = MemType.calloc
kind_of (realloc _ _) = MemType.realloc
kind_of (memalign _ _) = MemType.memalign
kind_of (posix_memalign _ _ _) = MemType.posix_memalign

-- Freeing NULL is not recorded.
abbrev pub is_traceable : Call → Bool
is_traceable (free ptr) = not (ptr == 0)
is_traceable _ = true

-- What a program should see and what should be recorded, with the collector's own use of the
-- allocator, which `functions` decide.
module _ {H : Type 0} (real : Real H) (x : Site) (functions : List ℕ) where
  -- The heap that a call meets: the collector has copied the names, and has freed the copy if the
  -- first of them is the call's function.
  abbrev pub copied : Call → H → H
  copied c h =
      let (copy, h') = real.malloc (x.list_size functions) h in
      if is_first (x.name (kind_of c)) functions then real.free copy h' else h'

  abbrev pub is_traced : Call → Bool
  is_traced c = names (x.name (kind_of c)) functions && is_traceable c

  -- The call after that, by the real function, and the recording of its event.
  abbrev pub seen : Call → H → ℕ × H
  seen c h = plain real c (copied c h)

  abbrev pub number_of : Moment → Call → H → ℕ
  number_of at c h = x.number (event_of real at c (seen c h).0 (seen c h).1)

  abbrev pub left : Moment → Call → H → H
  left at c h = if is_traced c then real.recording (number_of at c h) (seen c h).1 else (seen c h).1

  abbrev pub plain_results : List (Moment × Call) → H → List ℕ
  plain_results [] h = []
  plain_results (c ∷ cs) h = (seen c.1 h).0 ∷ plain_results cs (left c.0 c.1 h)

  abbrev pub plain_heap : List (Moment × Call) → H → H
  plain_heap [] h = h
  plain_heap (c ∷ cs) h = plain_heap cs (left c.0 c.1 h)

  -- The numbers of the events that should be recorded, in the order of the calls.
  abbrev pub traced_one : Moment → Call → H → List ℕ
  traced_one at c h = if is_traced c then number_of at c h ∷ [] else []

  abbrev pub traced_calls : List (Moment × Call) → H → List ℕ
  traced_calls [] h = []
  traced_calls (c ∷ cs) h = traced_one c.0 c.1 h ++ traced_calls cs (left c.0 c.1 h)
