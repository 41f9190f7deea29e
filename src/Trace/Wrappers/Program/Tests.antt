-- ===== src/Trace/Wrappers/Program/Tests.antt =====
-- A program under the memory collector, with an allocator that counts up.
use cbtf_krell.Prelude.{ℕ, ◌+◌, ◌*◌, true, false, List, [], ◌∷◌, some, ◌≡◌, refl, replicate, ◌^◌}
use cbtf_krell.Header.{zero_header}
use cbtf_krell.Trace.Types.{zero_event, Tls, Env}
use cbtf_krell.Trace.Wrappers.{MemType, Real, Site, Moment}
use cbtf_krell.Trace.Wrappers.Program.{Call, plain_results, traced_calls}

-- The heap is the last address in use; nothing is freed, and recording takes 3 words.
abbrev bump : Real ℕ
bump = record {
  malloc = λ size h. (h + 1, h + 1 + size);
  calloc = λ count size h. (h, h + count * size);
  realloc = λ old size h. (h, h + size);
  posix_memalign = λ memptr alignment size h. (0, h + size);
  memalign = λ blocksize bytes h. (h, h + bytes);
  free = λ ptr h. h;
  read = λ address h. h;
  is_found = λ k. true;
  recording = λ n h. h + 3;
}

abbrev type_number : MemType → ℕ
type_number MemType.malloc = 1
type_number MemType.calloc = 2
type_number MemType.realloc = 3
type_number MemType.free = 4
type_number MemType.memalign = 5
type_number MemType.posix_memalign = 6

abbrev unwind : ℕ → List ℕ
unwind c = 100 ∷ (200 + c) ∷ 300 ∷ []

abbrev site : Site
site = record {
  setup = record { stack_size = 12; event_size = 2; unique_id = 7; skips_zero = false };
  unwind = unwind;
  number = λ e. type_number e.mem_type + 10 * e.retval;
  name = type_number;
  address = λ k. 50 + type_number k;
  list_size = λ fs. 30;
}

abbrev times : Env
times = record { rank = some 0; ended = 10; begun = 11; ended' = 12; begun' = 13 }

abbrev at : Moment
at = record { env = times; start = 1; stop = 2 }

abbrev empty : Tls
empty = record {
  header = zero_header;
  stacktraces = replicate 12 0;
  stacktraces_len = 0;
  events = replicate 2 zero_event;
  events_len = 0;
  traced = [];
  nesting_depth = 3;
  do_trace = true;
  defer_sampling = false;
}

-- All functions but calloc are traced.
abbrev functions : List ℕ
functions = 1 ∷ 3 ∷ 4 ∷ 5 ∷ 6 ∷ []

abbrev calls : List (Moment × Call)
calls =
    (at, Call.malloc 16)
    ∷ (at, Call.calloc 2 8)
    ∷ (at, Call.free 0)
    ∷ (at, Call.free 1000)
    ∷ (at, Call.memalign 64 32)
    ∷ []

-- An address above 2^32 does not come through memalign.
truncated :
    plain_results bump site functions calls (2 ^ 32)
    ≡ (2 ^ 32 + 32) ∷ (2 ^ 32 + 82) ∷ 0 ∷ 0 ∷ 194 ∷ []
truncated = refl

three_traced : traced_calls bump site functions calls 1000 ≡ 10321 ∷ 4 ∷ 11945 ∷ []
three_traced = refl
