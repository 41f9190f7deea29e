-- ===== src/Trace/Held.antt =====
-- The invariant of a tracing thread, over what the unwinder gives for each call.
use cbtf_krell.Prelude.{
  length-zeroed, ℕ, suc, ◌+◌, ◌<◌, ◌≤◌, List, [], ◌∷◌, ◌++◌, append-nil, append_assoc, Option, ◌≡◌,
  refl, sym, ap, ◌∙◌, map, length, length-take, take, arith,
}
use cbtf_krell.Trace.Types.{Event, Tls, Blob, Setup}
use cbtf_krell.Trace.Buffer.{zeroed_events, initialize_data, send_samples, closed}
use cbtf_krell.Trace.Table.{IsTable}
use cbtf_krell.Trace.Append.{Agrees, Agrees-take, Stands-Agrees}
use cbtf_krell.Trace.Matched.{IsPlace}

abbrev pub call_of : Event → ℕ
call_of e = e.call

-- The calls of the events that a thread holds, and of those that were sent, in order.
abbrev pub held : Tls → List ℕ
held t = map call_of (take t.events_len t.events)

abbrev pub sent_calls : List Blob → List ℕ
sent_calls [] = []
sent_calls (b ∷ bs) = map call_of b.events ++ sent_calls bs

pub IsPlace-Agrees :
    (n m : ℕ) (xs ys fs : List ℕ) (p : ℕ)
    → Agrees n xs ys
    → n ≤ m
    → IsPlace xs n fs p
    → IsPlace ys m fs p
IsPlace-Agrees n m xs ys [] p a h i = record { stands = tt; inside = omega (arith, i.inside) }
IsPlace-Agrees n m xs ys (f ∷ fs) p a h i = record {
  stands = Stands-Agrees n xs ys (p + 1) fs a (omega (arith, i.inside)) i.stands;
  inside = omega (arith, i.inside);
}

pub length-zeroed_events : (es : List Event) → length (zeroed_events es) ≡ length es
length-zeroed_events [] = refl
length-zeroed_events (e ∷ es) = ap suc (length-zeroed_events es)

pub map-append {ℓ κ} :
    {A : Type ℓ} {B : Type κ} (f : A → B) (xs ys : List A) → map f (xs ++ ys) ≡ map f xs ++ map f ys
map-append f [] ys = refl
map-append f (x ∷ xs) ys = ap (λ zs. f x ∷ zs) (map-append f xs ys)

pub sent_calls-append : (ds bs : List Blob) → sent_calls (ds ++ bs) ≡ sent_calls ds ++ sent_calls bs
sent_calls-append [] bs = refl
sent_calls-append (a ∷ ds) bs =
    ap (λ cs. map call_of a.events ++ cs) (sent_calls-append ds bs)
    ∙ sym (append_assoc (map call_of a.events) (sent_calls ds) (sent_calls bs))

module _ (unwind : ℕ → List ℕ) where
  -- Every event is placed at its call's stack.
  abbrev pub ArePlaced : List ℕ → ℕ → List Event → Type 0
  ArePlaced xs n [] = Unit {0}
  ArePlaced xs n (e ∷ es) = IsPlace xs n (unwind e.call) e.stacktrace × ArePlaced xs n es

  abbrev pub AreGood : List Blob → Type 0
  AreGood [] = Unit {0}
  AreGood (b ∷ bs) = ArePlaced b.stacks (length b.stacks) b.events × AreGood bs

  pub record IsValid (u : Setup) (t : Tls) : Type 0 where
    pub stack_size : length t.stacktraces ≡ u.stack_size
    pub event_size : length t.events ≡ u.event_size
    pub stacks : List (List ℕ)
    pub table : IsTable t.stacktraces 0 t.stacktraces_len stacks
    pub stack_room : t.stacktraces_len < u.stack_size
    pub events_le : t.events_len ≤ u.event_size
    pub placed : ArePlaced t.stacktraces t.stacktraces_len (take t.events_len t.events)

  -- From `t` to `t'`, with `sent` sent, the calls `cs` were added, and there is room for an event.
  pub record Moved (u : Setup) (t t' : Tls) (sent : List Blob) (cs : List ℕ) : Type 0 where
    pub valid : IsValid u t'
    pub room : t'.events_len < u.event_size
    pub good : AreGood sent
    pub all_there : sent_calls sent ++ held t' ≡ held t ++ cs

  pub ArePlaced-Agrees :
      (n m : ℕ) (xs ys : List ℕ) (es : List Event)
      → Agrees n xs ys
      → n ≤ m
      → ArePlaced xs n es
      → ArePlaced ys m es
  ArePlaced-Agrees n m xs ys [] a h p = tt
  ArePlaced-Agrees n m xs ys (e ∷ es) a h p = (
    IsPlace-Agrees n m xs ys (unwind e.call) e.stacktrace a h p.0,
    ArePlaced-Agrees n m xs ys es a h p.1,
  )

  pub ArePlaced-append :
      (xs : List ℕ) (n : ℕ) (es : List Event) (e : Event)
      → ArePlaced xs n es
      → IsPlace xs n (unwind e.call) e.stacktrace
      → ArePlaced xs n (es ++ (e ∷ []))
  ArePlaced-append xs n [] e p i = (i, tt)
  ArePlaced-append xs n (d ∷ es) e p i = (p.0, ArePlaced-append xs n es e p.1 i)

  pub AreGood-append : (ds bs : List Blob) → AreGood ds → AreGood bs → AreGood (ds ++ bs)
  AreGood-append [] bs g h = h
  AreGood-append (a ∷ ds) bs g h = (g.0, AreGood-append ds bs g.1 h)

  -- An empty buffer of the declared sizes.
  pub initialize_data-IsValid :
      (u : Setup) (now : ℕ) (t : Tls)
      → length t.stacktraces ≡ u.stack_size
      → length t.events ≡ u.event_size
      → 0 < u.stack_size
      → IsValid u (initialize_data now t)
  unfolding initialize_data
  initialize_data-IsValid u now t a b h = record {
    stack_size = length-zeroed t.stacktraces ∙ a;
    event_size = length-zeroed_events t.events ∙ b;
    stacks = [];
    table = record { stands = tt; ends = omega arith; stacks = tt };
    stack_room = h;
    events_le = omega arith;
    placed = tt;
  }

  -- Sending sends what is held, each event with its stack trace, and leaves nothing.
  pub send_samples-Moved :
      (u : Setup) (rank : Option ℕ) (ended begun : ℕ) (t : Tls)
      → IsValid u t
      → 0 < u.event_size
      → Moved u t (send_samples u rank ended begun t).0 (send_samples u rank ended begun t).1 []
  unfolding send_samples initialize_data
  send_samples-Moved u rank ended begun t v h =
      let n = t.stacktraces_len in
      let all : n ≤ length (take n t.stacktraces) =
        omega (arith, length-take {0} n t.stacktraces, v.stack_room, v.stack_size) in
      record {
        valid =
            initialize_data-IsValid u begun (closed u rank ended t) v.stack_size v.event_size
              (omega (arith, v.stack_room));
        room = h;
        good = (
          ArePlaced-Agrees n (length (take n t.stacktraces)) t.stacktraces (take n t.stacktraces)
              (take t.events_len t.events) (Agrees-take n t.stacktraces) all v.placed,
          tt,
        );
        all_there = append-nil (held t ++ []);
      }

  -- One move after another.
  pub Moved-join :
      (u : Setup) (t t' t'' : Tls) (ds es : List Blob) (cs bs : List ℕ)
      → Moved u t t' ds cs
      → Moved u t' t'' es bs
      → Moved u t t'' (ds ++ es) (cs ++ bs)
  Moved-join u t t' t'' ds es cs bs m n = record {
    valid = n.valid;
    room = n.room;
    good = AreGood-append ds es m.good n.good;
    all_there =
        ap (λ xs. xs ++ held t'') (sent_calls-append ds es)
        ∙ append_assoc (sent_calls ds) (sent_calls es) (held t'')
        ∙ ap (λ xs. sent_calls ds ++ xs) n.all_there
        ∙ sym (append_assoc (sent_calls ds) (held t') bs)
        ∙ ap (λ xs. xs ++ bs) m.all_there
        ∙ append_assoc (held t) cs bs;
  }
