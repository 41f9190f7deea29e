-- ===== src/Trace/Wrappers.antt =====
-- core/collectors/mem/wrappers.c in the dynamic offline build: the functions that stand in for those of
-- the allocator, and record the calls. The heap and the real functions, which dlsym finds, are given;
-- they do not call a wrapped function. Where the collector itself copies names, the copy is taken to
-- be made: nothing tests whether it is.
mod Kept
pub mod Program
use cbtf_krell.Prelude.{
  ℕ, ◌%◌, ◌^◌, Bool, true, false, not, ◌&&◌, List, [], ltb, ◌+◌, ◌-◌, ◌==◌, if◌then◌else◌,
}
use cbtf_krell.Trace.Types.{Tls, Blob, Setup, Env}
use cbtf_krell.Trace.Mem.{is_first, mem_do_trace, mem_start_event, mem_record_event}

-- CBTF_mem_type, as far as the wrappers set it.
pub data MemType : Type 0 where
  malloc calloc realloc free memalign posix_memalign : MemType

-- What the wrappers fill in of CBTF_memt_event.
pub record Filled : Type 0 where
  pub start_time : ℕ
  pub stop_time : ℕ
  pub mem_type : MemType
  pub retval : ℕ
  pub ptr : ℕ
  pub size1 : ℕ
  pub size2 : ℕ

-- The real functions: a result and the heap after the call. `read` is the word at an address, and
-- `is_found` says of which functions dlsym has the address. `recording` is what the unwinding and the
-- sending for the event of a given number leave of the heap, which they use too.
pub record Real (H : Type 0) : Type 0 where
  pub malloc : ℕ → H → ℕ × H
  pub calloc : ℕ → ℕ → H → ℕ × H
  pub realloc : ℕ → ℕ → H → ℕ × H
  pub posix_memalign : ℕ → ℕ → ℕ → H → ℕ × H
  pub memalign : ℕ → ℕ → H → ℕ × H
  pub free : ℕ → H → H
  pub read : ℕ → H → ℕ
  pub is_found : MemType → Bool
  pub recording : ℕ → H → H

-- The collector's surroundings: the sizes, the frames of a call, the number that stands for the
-- fields of an event, the names and addresses of the functions, and the size of the string that lists
-- names.
pub record Site : Type 0 where
  pub setup : Setup
  pub unwind : ℕ → List ℕ
  pub number : Filled → ℕ
  pub name : MemType → ℕ
  pub address : MemType → ℕ
  pub list_size : List ℕ → ℕ

-- What a call reads: what recording reads, and the times before and after.
pub record Moment : Type 0 where
  pub env : Env
  pub start : ℕ
  pub stop : ℕ

pub record Outcome (H : Type 0) : Type 0 where
  pub result : ℕ
  pub heap : H
  pub tls : Tls
  pub sent : List Blob

-- An `int` result, as its 32 bits, and the uint64_t that it is converted to.
abbrev pub int_bits : ℕ → ℕ
int_bits p = p % 2 ^ 32

abbrev pub int_extended : ℕ → ℕ
int_extended p = if ltb (int_bits p) (2 ^ 31) then int_bits p else int_bits p + (2 ^ 64 - 2 ^ 32)

abbrev pub filled : Moment → MemType → ℕ → ℕ → ℕ → ℕ → Filled
filled at kind retval ptr size1 size2 = record {
  start_time = at.start;
  stop_time = at.stop;
  mem_type = kind;
  retval = retval;
  ptr = ptr;
  size1 = size1;
  size2 = size2;
}

module _ {H : Type 0} (x : Site) (real : Real H) where
  -- The heap once `mem_do_trace` has decided about a call. Where tracing is on, the names of the
  -- functions have been copied, by malloc, and the copy has been freed if the first of them is the
  -- call's function; otherwise it is lost.
  unfoldable pub asked_heap : MemType → Tls → H → H
  asked_heap kind t h =
      if t.do_trace
      then (let (copy, h') = real.malloc (x.list_size t.traced) h in
          if is_first (x.name kind) t.traced && (not (copy == 0) && real.is_found free)
          then real.free copy h'
          else h')
      else h

  -- The wrapper once it is decided whether the call is traced: `fill` has the fields of the event, from
  -- the result and the heap after the call.
  unfoldable pub carry_out :
      Moment → MemType → (H → ℕ × H) → (ℕ → H → Filled) → Bool → Tls → H → Outcome H
  unfolding mem_start_event mem_record_event
  carry_out at kind call fill false t h =
      let (r, h') = call h in record { result = r; heap = h'; tls = t; sent = [] }
  carry_out at kind call fill true t h =
      let (t', event) = mem_start_event t in
      let (r, h') = call h in
      let c = x.number (fill r h') in
      let (t'', sent) =
        mem_record_event x.setup at.env (record event { call = c }) (x.address kind) (x.unwind c)
          t' in
      record { result = r; heap = real.recording c h'; tls = t''; sent = sent }

  -- A wrapper; `traceable` is false for a call that is never recorded.
  unfoldable pub wrapped :
      Moment → MemType → Bool → (H → ℕ × H) → (ℕ → H → Filled) → Tls → H → Outcome H
  unfolding carry_out mem_do_trace asked_heap
  wrapped at kind traceable call fill t h =
      let (t', asked) = mem_do_trace (x.name kind) t in
      carry_out at kind call fill (asked && traceable) t' (asked_heap kind t h)

  -- A wrapper that returns 0, or nothing, if dlsym does not find the real function.
  abbrev pub if_found : Bool → Outcome H → Tls → H → Outcome H
  if_found found o t h = if found then o else record { result = 0; heap = h; tls = t; sent = [] }

  unfoldable pub malloc_wrapper : Moment → ℕ → Tls → H → Outcome H
  unfolding wrapped
  malloc_wrapper at size t h =
      wrapped at malloc true (real.malloc size) (λ r _. filled at malloc r 0 size size) t h

  unfoldable pub calloc_wrapper : Moment → ℕ → ℕ → Tls → H → Outcome H
  unfolding wrapped
  calloc_wrapper at count size t h =
      wrapped at calloc true (real.calloc count size) (λ r _. filled at calloc r 0 count size) t h

  unfoldable pub realloc_wrapper : Moment → ℕ → ℕ → Tls → H → Outcome H
  unfolding wrapped
  realloc_wrapper at old size t h =
      if_found (real.is_found realloc)
        (wrapped at realloc true (real.realloc old size) (λ r _. filled at realloc r old size size)
          t h)
        t h

  -- The event has the word at `memptr` after the call.
  unfoldable pub posix_memalign_wrapper : Moment → ℕ → ℕ → ℕ → Tls → H → Outcome H
  unfolding wrapped
  posix_memalign_wrapper at memptr alignment size t h =
      if_found (real.is_found posix_memalign)
        (wrapped at posix_memalign true (real.posix_memalign memptr alignment size)
          (λ r h'. filled at posix_memalign r (real.read memptr h') alignment size) t h)
        t h

  -- The real function is called as one that returns an int.
  abbrev pub int_memalign : ℕ → ℕ → H → ℕ × H
  int_memalign blocksize bytes h = let (p, h') = real.memalign blocksize bytes h in (int_bits p, h')

  unfoldable pub memalign_wrapper : Moment → ℕ → ℕ → Tls → H → Outcome H
  unfolding wrapped
  memalign_wrapper at blocksize bytes t h =
      if_found (real.is_found memalign)
        (wrapped at memalign true (int_memalign blocksize bytes)
          (λ r _. filled at memalign (int_extended r) 0 blocksize bytes) t h)
        t h

  -- A call with NULL is not recorded.
  unfoldable pub free_wrapper : Moment → ℕ → Tls → H → Outcome H
  unfolding wrapped
  free_wrapper at ptr t h =
      if_found (real.is_found free)
        (wrapped at free (not (ptr == 0)) (λ h'. (0, real.free ptr h'))
          (λ _ _. filled at free 0 ptr 0 0) t h)
        t h
