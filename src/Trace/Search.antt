-- ===== src/Trace/Search.antt =====
-- core/collectors/io/collector.c: the search of the tracing buffer for a stack trace, which the
-- collectors of mem, mpi and pthreads write in the same words.
use cbtf_krell.Prelude.{
  ℕ, suc, zero, ◌+◌, ◌-◌, ◌&&◌, List, Option, none, some, ltb, ◌==◌, if◌then◌else◌, length, get_or,
}

-- The inner loop, from `start` to the end of a stack trace: `n` is how far `start` is from the end of
-- the part in use.
unfoldable pub advance : ℕ → List ℕ → ℕ → ℕ
advance zero xs start = start
advance (suc n) xs start =
    let rest = advance n xs (start + 1) in if get_or xs start 0 == 0 then start else rest

-- The outer loop, for at most `n` more rounds, to the last `start` and `i`. After a mismatch `i` is set
-- to 0, and the end of the round makes it 1.
unfoldable pub search : ℕ → List ℕ → ℕ → List ℕ → ℕ → ℕ → ℕ × ℕ
unfolding advance
search zero xs len fs start i = (start, i)
search (suc n) xs len fs start i =
    let same = get_or fs i 0 == get_or xs (start + i) 0 in
    let past = advance (len - (start + i)) xs (start + i) + 1 in
    let rest = search n xs len fs (if same then start else past) (if same then i + 1 else 1) in
    if ltb i (length fs) && ltb (start + i) len then rest else (start, i)

-- Where the loop ends with all `size` frames compared, the stack trace is found.
abbrev pub place_of : ℕ → ℕ × ℕ → Option ℕ
place_of size (start, i) = if i == size then some start else none

-- The place of the stack trace, if it is found. Every round makes `start + i` larger.
unfoldable pub find_stack : List ℕ → ℕ → List ℕ → Option ℕ
unfolding search
find_stack xs len fs = place_of (length fs) (search len xs len fs 0 0)
