-- ===== src/Trace/Full.antt =====
-- When the buffer of path names is full.
use cbtf_krell.Prelude.{
  ℕ, ◌+◌, ◌-◌, ◌≤◌, true, false, List, [], ◌∷◌, Option, none, ◌≡◌, refl, ap, ◌∙◌, length, leb, take,
  arith,
}
use cbtf_krell.Trace.Types.{Event, Setup, Env, depth_range}
use cbtf_krell.Trace.Search.{find_stack}
use cbtf_krell.Trace.Buffer.{blob_of, closed, send_samples}
use cbtf_krell.Trace.Io.{io_do_trace}
use cbtf_krell.Trace.Held.{held}
use cbtf_krell.Trace.Paths.{
  PathTls, PathBlob, reset_paths, add_path, place_path_at, append_path, record_placed,
  iot_record_event,
}

-- The buffers in which a call is lost.
pub record IsLost (t : PathTls) (r : PathTls × List PathBlob) : Type 0 where
  pub none_held : held r.0.trace ≡ []
  pub wrapped : r.0.trace.nesting_depth ≡ depth_range - 1
  pub off : r.0.trace.do_trace ≡ false
  pub sends_old :
      (b : PathBlob) × (r.1 ≡ b ∷ []) × (b.blob.events ≡ take t.trace.events_len t.trace.events)

-- The record after the sending, and the blob.
abbrev after_send : Setup → Env → List ℕ → PathTls → PathTls
after_send u env path t =
    append_path path
      (record (reset_paths t) { trace = (send_samples u env.rank env.ended env.begun t.trace).0 })

abbrev old_blob : Setup → Env → PathTls → PathBlob
old_blob u env t = record {
  blob = blob_of (closed u env.rank env.ended t.trace);
  pathnames = take t.pathnames_len t.pathnames;
}

add_path_full :
    (path_size : ℕ) (u : Setup) (env : Env) (path : List ℕ) (t : PathTls)
    → leb path_size (t.pathnames_len + length path + 1) ≡ true
    → add_path path_size u env path t ≡ (1, after_send u env path t, old_blob u env t ∷ [])
unfolding add_path
add_path_full path_size u env path t full = rw full refl

place_path_full :
    (path_size : ℕ) (u : Setup) (env : Env) (path : List ℕ) (t : PathTls)
    → find_stack t.pathnames t.pathnames_len path ≡ none
    → leb path_size (t.pathnames_len + length path + 1) ≡ true
    → place_path_at path_size u env path t (find_stack t.pathnames t.pathnames_len path)
      ≡ (1, after_send u env path t, old_blob u env t ∷ [])
unfolding place_path_at
place_path_full path_size u env path t missing full =
    ap (λ (o : Option ℕ). place_path_at path_size u env path t o) missing
    ∙ add_path_full path_size u env path t full

iot_record_event_full :
    (path_size : ℕ) (u : Setup) (env env' : Env) (e : Event) (function : ℕ) (frames path : List ℕ)
    (t : PathTls)
    → find_stack t.pathnames t.pathnames_len path ≡ none
    → leb path_size (t.pathnames_len + length path + 1) ≡ true
    → let t0 : PathTls = record t { trace = record t.trace { do_trace = false } } in
      let t1 = after_send u env path t0 in
      iot_record_event path_size u env env' e function frames path t ≡ (
        record t1 { trace = record t1.trace { nesting_depth = depth_range - 1 } },
        old_blob u env t0 ∷ [],
      )
unfolding iot_record_event record_placed append_path send_samples
iot_record_event_full path_size u env env' e function frames path t missing full =
    let t0 : PathTls = record t { trace = record t.trace { do_trace = false } } in
    ap (λ (p : ℕ × PathTls × List PathBlob). record_placed u env' e function frames p)
      (place_path_full path_size u env path t0 missing full)

-- Where the path name of a call is not found and there is no room for it, in whatever depth: what was
-- held before is sent, the call itself is neither sent nor held, the depth has wrapped, and
-- `do_trace` is off, so that no further function is traced.
pub full_paths_end_tracing :
    (path_size : ℕ) (u : Setup) (env env' : Env) (e : Event) (function : ℕ) (frames path : List ℕ)
    (t : PathTls)
    → find_stack t.pathnames t.pathnames_len path ≡ none
    → path_size ≤ t.pathnames_len + length path + 1
    → let r = iot_record_event path_size u env env' e function frames path t in
      IsLost t r × ((f : ℕ) → (io_do_trace f r.0.trace).1 ≡ false)
unfolding append_path send_samples io_do_trace
full_paths_end_tracing path_size u env env' e function frames path t missing full =
    let e' =
      iot_record_event_full path_size u env env' e function frames path t missing
        (ground (arith, full)) in
    rw e' (
      record { none_held = refl; wrapped = refl; off = refl; sends_old = (_, refl, refl) },
      λ f. refl,
    )
