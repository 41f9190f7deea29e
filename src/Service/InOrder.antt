-- ===== src/Service/InOrder.antt =====
-- The order of the messages that the operations of the service send to MRNet.
pub mod Sampling
pub mod Events
use cbtf_krell.Prelude.{
  Bool, true, false, ◌&&◌, List, [], ◌∷◌, ◌++◌, ◌≡◌, refl, sym, ◌∙◌, arith, if◌then◌else◌,
}
use cbtf_krell.Service.Types.{
  State, Action, Effect, mrnet_connect, send_attached, send_state_changed, send_perf_data,
  send_objects, write_objects,
}
use cbtf_krell.Service.Control.{◌then_do◌}
use cbtf_krell.Service.Quiet.{about_objects, Quiet}

-- What MRNet has seen of the process and of the thread.
pub record Seen : Type 0 where
  pub connected : Bool
  pub attached : Bool

abbrev pub seen_one : Seen → Action → Seen
seen_one k (mrnet_connect _) = record k { connected = true }
seen_one k (send_attached _) = record k { attached = true }
seen_one k _ = k

abbrev pub seen : Seen → List Action → Seen
seen k [] = k
seen k (a ∷ acts) = seen (seen_one k a) acts

-- The messages of attached threads and of linked objects need the connection; data and the change of
-- state need both.
abbrev pub may : Seen → Action → Bool
may k (send_attached _) = k.connected
may k (send_objects _ _) = k.connected
may k (send_state_changed _) = k.connected && k.attached
may k send_perf_data = k.connected && k.attached
may k _ = true

abbrev pub in_order : Seen → List Action → Bool
in_order k [] = true
in_order k (a ∷ acts) = may k a && in_order (seen_one k a) acts

pub seen-append : (k : Seen) (xs ys : List Action) → seen k (xs ++ ys) ≡ seen (seen k xs) ys
seen-append k [] ys = refl
seen-append k (a ∷ xs) ys = seen-append (seen_one k a) xs ys

pub in_order-append :
    (k : Seen) (xs ys : List Action)
    → in_order k (xs ++ ys) ≡ (in_order k xs && in_order (seen k xs) ys)
in_order-append k [] ys = refl
in_order-append k (a ∷ xs) ys = ground (arith, in_order-append (seen_one k a) xs ys)

-- The service's flags claim no more than MRNet has seen.
pub record Knows (k : Seen) (s : State) : Type 0 where
  pub linked : s.process.connected_to_mrnet ≡ true → k.connected ≡ true
  pub told : s.thread.sent_attached_to_threads ≡ true → k.attached ≡ true

pub record Ordered (k : Seen) (r : Effect) : Type 0 where
  pub order : in_order k r.1 ≡ true
  pub knows : Knows (seen k r.1) r.0

abbrev pub Orders : (State → Effect) → Type 0
Orders f = (k : Seen) (s : State) → Knows k s → Ordered k (f s)

pub Ordered-then_do :
    (k : Seen) (r : Effect) (g : State → Effect)
    → Ordered k r
    → Ordered (seen k r.1) (g r.0)
    → Ordered k (r then_do g)
Ordered-then_do k r g one two = record {
  order = rw (in_order-append k r.1 (g r.0).1) (ground (arith, one.order, two.order));
  knows = rw (seen-append k r.1 (g r.0).1) two.knows;
}

pub Orders-then_do : (f g : State → Effect) → Orders f → Orders g → Orders (λ s. f s then_do g)
Orders-then_do f g h l k s a =
    let one = h k s a in Ordered-then_do k (f s) g one (l (seen k (f s).1) (f s).0 one.knows)

pub Ordered-if :
    (b : Bool) (k : Seen) (r q : Effect)
    → Ordered k r
    → Ordered k q
    → Ordered k (if b then r else q)
Ordered-if true k r q h l = h
Ordered-if false k r q h l = l

pub Orders-if :
    (b : State → Bool) (f g : State → Effect)
    → Orders f
    → Orders g
    → Orders (λ s. if b s then f s else g s)
Orders-if b f g h l k s a = Ordered-if (b s) k (f s) (g s) (h k s a) (l k s a)

pub Orders-nothing : Orders (λ s. (s, []))
Orders-nothing k s a = record { order = refl; knows = a }

-- Messages about objects only, over the connection that there is.
pub about_objects-in_order :
    (k : Seen) (b : Bool) (acts : List Action)
    → (b ≡ true → k.connected ≡ true)
    → about_objects b acts ≡ true
    → (in_order k acts ≡ true) × (seen k acts ≡ k)
about_objects-in_order k b [] h q = (refl, refl)
about_objects-in_order k b (send_objects n os ∷ acts) h q =
    let rest = about_objects-in_order k b acts h (ground arith) in
    (ground (arith, rest.0, h), rest.1)
about_objects-in_order k b (write_objects n os ∷ acts) h q = about_objects-in_order k b acts h q
about_objects-in_order k b (_ ∷ acts) h q = absurd (ground arith)

pub Orders-Quiet : (f : State → Effect) → ((s : State) → Quiet s (f s)) → Orders f
Orders-Quiet f h k s a =
    let q = h s in
    let (order, same) =
      about_objects-in_order k s.process.connected_to_mrnet (f s).1 a.linked q.about in
    record {
      order = order;
      knows = record {
        linked = λ e. rw same (a.linked (sym q.linked ∙ e));
        told = λ e. rw same (a.told (sym q.told ∙ e));
      };
    }
