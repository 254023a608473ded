-- ===== src/Cookies/Deferred.antt =====
-- The deferred data of a socket cookie (Kext/cookie.cpp): in which order they are sent, and that none is kept.
use watchfirewall.Prelude.{
  ℕ, zero, suc, ◌<◌, ◌≡◌, ◌≢◌, refl, sym, subst, ap, ◌∙◌, List, [], ◌∷◌, ◌++◌, Bool, true, false,
  Option, some, arith, length, length-append, Fresh, ◌==◌, ==-ne,
}
use mathlib.Core.List.{append_assoc}
use watchfirewall.Links.{Ptr, null}
use watchfirewall.Links.Segment.{Seg}
use watchfirewall.Queue.{Queue, enqueue, detach}
use watchfirewall.Queue.Contents.{IsQueue, items, enqueue-IsQueue, items-enqueue}
use watchfirewall.Cookies.{
  DeferredData, Action, inject_out, free_mbuf, deref, sent, add_deferred_data, send_deferred_data,
  clear_deferred_data,
}

-- What is done for each of some data, in their order.
abbrev pub for_each : (DeferredData → List Action) → List DeferredData → List Action
for_each f [] = []
for_each f (d ∷ ds) = f d ++ for_each f ds

for_each-append :
    (f : DeferredData → List Action) (xs ys : List DeferredData)
    → for_each f (xs ++ ys) ≡ for_each f xs ++ for_each f ys
for_each-append f [] ys = refl
for_each-append f (x ∷ xs) ys =
    rw (for_each-append f xs ys) (sym (append_assoc (f x) (for_each f xs) (for_each f ys)))

abbrev pub both_freed : DeferredData → List Action
both_freed d = free_mbuf d.packet ∷ free_mbuf d.control ∷ []

send-Seg :
    (fails : DeferredData → Bool) (fuel : ℕ) (q : Queue DeferredData) (nodes : List Ptr)
    → Seg q.next q.head nodes null
    → length nodes < fuel
    → send_deferred_data fails fuel q ≡ some (for_each (sent fails) (items q nodes), detach q)
unfolding send_deferred_data detach
send-Seg fails zero q nodes s h = absurd (omega arith)
send-Seg fails (suc fuel) q [] s h =
    let stop : (q.head == null) ≡ true = rw s refl in rw (send_deferred_data, stop) refl
send-Seg fails (suc fuel) q (x ∷ xs) s h =
    let on : (q.head == null) ≡ false = ==-ne q.head null (λ e. s.1 (sym s.0 ∙ e)) in
    let rest =
      send-Seg fails fuel (record q { head = q.next q.head }) xs
        (subst (λ p. Seg q.next (q.next p) xs null) (sym s.0) s.2) (omega arith) in
    rw (send_deferred_data, on, rest)
      (ap (λ p. some (sent fails (q.item p) ++ for_each (sent fails) (items q xs), detach q)) s.0)

pub clear-Seg :
    (fuel : ℕ) (q : Queue DeferredData) (nodes : List Ptr)
    → Seg q.next q.head nodes null
    → length nodes < fuel
    → clear_deferred_data fuel q ≡ some (for_each both_freed (items q nodes), detach q)
unfolding clear_deferred_data detach
clear-Seg zero q nodes s h = absurd (omega arith)
clear-Seg (suc fuel) q [] s h =
    let stop : (q.head == null) ≡ true = rw s refl in rw (clear_deferred_data, stop) refl
clear-Seg (suc fuel) q (x ∷ xs) s h =
    let on : (q.head == null) ≡ false = ==-ne q.head null (λ e. s.1 (sym s.0 ∙ e)) in
    let rest =
      clear-Seg fuel (record q { head = q.next q.head }) xs
        (subst (λ p. Seg q.next (q.next p) xs null) (sym s.0) s.2) (omega arith) in
    rw (clear_deferred_data, on, rest)
      (ap (λ p. some (both_freed (q.item p) ++ for_each both_freed (items q xs), detach q)) s.0)

-- What AddDeferredData keeps of its arguments.
abbrev pub kept : Option Ptr → Option Ptr → ℕ → List ℕ → DeferredData
kept m control flags sa = record {
  packet = deref m;
  control = deref control;
  flags = flags;
  direction = false;
  socket_address = some sa;
}

-- Data that are held back for a socket address, in whichever direction they go, are put behind
-- the data that wait, where a node can be allocated; SendDeferredData then sends those that
-- waited, in order, and after them the new data, which go to sock_inject_data_out, since AddDeferredData does
-- not keep the direction, and SendDeferredData takes false for outwards, where the comment in Kext/cookie.h says that
-- false is inwards. The queue is empty afterwards. Fuel for more than the data is
-- enough.
pub add_deferred_data-send_deferred_data :
    (fails : DeferredData → Bool) (fuel : ℕ) (node : Ptr) (direction : Bool)
    (m control : Option Ptr) (flags : ℕ) (sa : List ℕ) (q : Queue DeferredData) (nodes : List Ptr)
    → IsQueue q nodes
    → node ≢ null
    → Fresh node nodes
    → suc (length nodes) < fuel
    → (q' : Queue DeferredData) × (add_deferred_data node direction m control flags (some sa) q
        ≡ some (true, q'))
      × (send_deferred_data fails fuel q'
          ≡ some (
            for_each (sent fails) (items q nodes) ++ inject_out (kept m control flags sa) ∷ [],
            detach q',
          ))
unfolding add_deferred_data
add_deferred_data-send_deferred_data fails fuel node direction m control flags sa q nodes is n f h =
    let d = kept m control flags sa in
    let long = length-append nodes (node ∷ []) in
    (
      enqueue node d q,
      rw (==-ne node null n) refl,
      send-Seg fails fuel (enqueue node d q) (nodes ++ node ∷ [])
            (enqueue-IsQueue node d q n nodes f is).chain (omega (arith, long))
          ∙ ap
              (λ (ds : List DeferredData).
                some (for_each (sent fails) ds, detach (enqueue node d q)))
              (items-enqueue node d q n nodes f)
          ∙ ap (λ (done : List Action). some (done, detach (enqueue node d q)))
              (for_each-append (sent fails) (items q nodes) (d ∷ [])),
    )

-- ClearDeferredData frees the two mbufs of each of the data that wait, in order, and leaves
-- the queue empty. Fuel for more than the data is enough.
pub clear_deferred_data_lem :
    (fuel : ℕ) (q : Queue DeferredData) (nodes : List Ptr)
    → IsQueue q nodes
    → length nodes < fuel
    → clear_deferred_data fuel q ≡ some (for_each both_freed (items q nodes), detach q)
clear_deferred_data_lem fuel q nodes is h = clear-Seg fuel q nodes is.chain h
