-- ===== src/Trace/Paths.antt =====
-- core/collectors/io/collector.c built with EXTENDEDTRACE, where an event has a path name: the buffer of
-- path names, and recording.
use cbtf_krell.Prelude.{
  zeroed, ℕ, ◌+◌, ◌^◌, ◌%◌, true, false, List, [], ◌∷◌, ◌++◌, Option, none, some, ltb, leb,
  if◌then◌else◌, length, set, take,
}
use cbtf_krell.Trace.Types.{Event, Tls, Blob, Setup, Env, increment, decrement, with_function}
use cbtf_krell.Trace.Search.{find_stack}
use cbtf_krell.Trace.Buffer.{send_samples, store}

-- TLS in this build. A path name is its characters.
pub record PathTls : Type 0 where
  pub trace : Tls
  pub pathnames : List ℕ
  pub pathnames_len : ℕ

-- CBTF_io_exttrace_data
pub record PathBlob : Type 0 where
  pub blob : Blob
  pub pathnames : List ℕ

-- What `initialize_data` does to the path names: the first character stays 0 and counts as used.
abbrev pub reset_paths : PathTls → PathTls
reset_paths t = record t { pathnames = zeroed t.pathnames; pathnames_len = 1 }

-- Every blob that is sent has the path names of its time; sending resets them.
unfoldable pub with_paths : PathTls → List Blob → PathTls × List PathBlob
with_paths t [] = (t, [])
with_paths t (b ∷ bs) =
    let (t', sent) = with_paths (reset_paths t) bs in
    (t', (record { blob = b; pathnames = take t.pathnames_len t.pathnames }) ∷ sent)

unfoldable pub write_chars : List ℕ → ℕ → List ℕ → List ℕ
write_chars xs k [] = xs
write_chars xs k (c ∷ cs) = write_chars (set xs k c) (k + 1) cs

-- Adding a path name at the end.
unfoldable pub append_path : List ℕ → PathTls → PathTls
unfolding write_chars
append_path path t =
    let entry = t.pathnames_len in
    record t {
      pathnames = set (write_chars t.pathnames entry path) (entry + length path) 0;
      pathnames_len = entry + (length path + 1);
    }

unfoldable pub add_path : ℕ → Setup → Env → List ℕ → PathTls → ℕ × PathTls × List PathBlob
unfolding send_samples with_paths append_path
add_path path_size u env path t =
    let (t', sent) =
      if leb path_size (t.pathnames_len + length path + 1)
      then (let (trace, blobs) = send_samples u env.rank env.ended env.begun t.trace in
          with_paths (record t { trace = trace }) blobs)
      else (t, []) in
    (t'.pathnames_len, append_path path t', sent)

-- The path names are searched by the loop that searches the stack traces.
unfoldable pub place_path_at :
    ℕ → Setup → Env → List ℕ → PathTls → Option ℕ → ℕ × PathTls × List PathBlob
unfolding add_path
place_path_at path_size u env path t (some start) = (start, t, [])
place_path_at path_size u env path t none = add_path path_size u env path t

-- `io_record_event` in this build from the lowering of the depth on, with the place of the path name
-- and what was sent for it.
unfoldable pub record_placed :
    Setup → Env → Event → ℕ → List ℕ → ℕ × PathTls × List PathBlob → PathTls × List PathBlob
unfolding store with_paths
record_placed u env e function frames (pathindex, t, sent) =
    let trace : Tls = record t.trace { nesting_depth = decrement t.trace.nesting_depth } in
    if ltb 0 trace.nesting_depth
    then (record t { trace = trace }, sent)
    else (let (trace', blobs) =
          store u env (record e { pathindex = pathindex % 2 ^ 16 }) (with_function function frames)
            (record trace { nesting_depth = decrement (increment trace.nesting_depth) }) in
        let (t', sent') =
          with_paths (record t { trace = record trace' { do_trace = true } }) blobs in
        (t', sent ++ sent'))

-- `io_record_event` in this build, at the times `env` for the path name and `env'` for the rest: the
-- path name has its place before the depth is lowered.
unfoldable pub iot_record_event :
    ℕ → Setup → Env → Env → Event → ℕ → List ℕ → List ℕ → PathTls → PathTls × List PathBlob
unfolding find_stack place_path_at record_placed
iot_record_event path_size u env env' e function frames path t =
    let t0 : PathTls = record t { trace = record t.trace { do_trace = false } } in
    record_placed u env' e function frames
      (place_path_at path_size u env path t0 (find_stack t.pathnames t.pathnames_len path))
