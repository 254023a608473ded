-- ===== src/Client/Thread/Nodes.antt =====
-- What the thread of a client (Kext/client.cpp) does with the nodes that it took, and ClearQueue with the rest.
use watchfirewall.Prelude.{
  ℕ, zero, suc, ◌<◌, ◌≡◌, ◌≢◌, refl, sym, subst, ap, ◌∙◌, Bool, true, false, List, [], ◌∷◌, ◌++◌,
  some, none, map, All, Distinct, update, arith, length, ◌==◌, ==-ne, inl, inr, Option-cases,
}
use watchfirewall.Links.{Ptr, null}
use watchfirewall.Links.Segment.{Seg}
use watchfirewall.Queue.{Queue}
use watchfirewall.Queue.Contents.{items}
use watchfirewall.Messages.{Message}
use watchfirewall.Client.Thread.{
  Pc, at_node, after, clearing, leaving, clear_queue, deleted, rest_of,
}
use watchfirewall.Client.Thread.Holds.{Flight, offered, Holds, alive-deleted}

clear_queue-on :
    (fuel : ℕ) (p : Ptr) (q : Queue Message) (nodes : List Ptr)
    → p ≢ null
    → clear_queue fuel (q.next p) q ≡ some nodes
    → clear_queue (suc fuel) p q ≡ some (p ∷ nodes)
unfolding clear_queue
clear_queue-on fuel p q nodes n e = rw (clear_queue, ==-ne p null n, e) refl

-- ClearQueue deletes the nodes of the chain, and ends with fuel for more than them.
pub clear_queue-Seg :
    (fuel : ℕ) (p : Ptr) (q : Queue Message) (nodes : List Ptr)
    → Seg q.next p nodes null
    → length nodes < fuel
    → clear_queue fuel p q ≡ some nodes
unfolding clear_queue
clear_queue-Seg zero p q nodes s h = absurd (omega arith)
clear_queue-Seg (suc fuel) p q [] s h =
    let stop : (p == null) ≡ true = rw s refl in rw (clear_queue, stop) refl
clear_queue-Seg (suc fuel) p q (x ∷ xs) s h =
    clear_queue-on fuel p q xs (λ e. s.1 (sym s.0 ∙ e))
      (clear_queue-Seg fuel (q.next p) q xs
        (subst (λ y. Seg q.next (q.next y) xs null) (sym s.0) s.2) (omega arith))
    ∙ ap (λ y. some (y ∷ xs)) s.0

-- Whatever the fuel, what it deletes are the nodes of the chain.
clear_queue-eq :
    (fuel : ℕ) (p : Ptr) (q : Queue Message) (nodes xs : List Ptr)
    → Seg q.next p nodes null
    → clear_queue fuel p q ≡ some xs
    → xs ≡ nodes
unfolding clear_queue
clear_queue-eq zero p q nodes xs s e = absurd cc
clear_queue-eq (suc fuel) p q [] xs s e =
    let stop : (p == null) ≡ true = rw s refl in
    let now : clear_queue (suc fuel) p q ≡ some [] = rw (clear_queue, stop) refl in
    let same = sym e ∙ now in cc
clear_queue-eq (suc fuel) p q (x ∷ nodes) xs s e =
    let on : p ≢ null = λ f. s.1 (sym s.0 ∙ f) in
    elim (Option-cases (clear_queue fuel (q.next p) q)) [
      | inl f ↦
          let now : clear_queue (suc fuel) p q ≡ none = rw (clear_queue, ==-ne p null on, f) refl in
          let same = sym e ∙ now in absurd cc
      | inr (ys, f) ↦
          let rest =
            clear_queue-eq fuel (q.next p) q nodes ys
              (subst (λ y. Seg q.next (q.next y) nodes null) (sym s.0) s.2) f in
          let same = sym e ∙ clear_queue-on fuel p q ys on f in
          let eq : xs ≡ p ∷ ys = cc in eq ∙ ap (λ y. y ∷ ys) s.0 ∙ ap (λ l. x ∷ l) rest
    ]

module _ {pc : Pc} {q : Queue Message} {live : Ptr → Bool} {queued : List Ptr}
    {ms : List Message} where
  -- The thread is done with the message of its node.
  pub Holds-offer :
      (p : Ptr) (nodes : List Ptr)
      → (Flight pc q.next nodes → (p ≢ null) × Seg q.next p nodes null)
      → offered pc ≡ false
      → Holds pc q live nodes queued ms
      → (rest : List Message) × (ms ≡ q.item p ∷ rest) × Holds (after p) q live nodes queued rest
  Holds-offer p [] k o h = let f = k h.flight in absurd (f.0 f.1)
  Holds-offer p (x ∷ xs) k o h =
      let f = k h.flight in
      (
        items q xs ++ items q queued,
        h.waits
            ∙ ap (λ b. rest_of b (items q (x ∷ xs)) ++ items q queued) o
            ∙ ap (λ y. q.item y ∷ (items q xs ++ items q queued)) (sym f.1.0),
        record {
          flight = f;
          queue = h.queue;
          distinct = h.distinct;
          alive = h.alive;
          waits = refl;
        },
      )

pub Holds-advance :
    {q : Queue Message} {live : Ptr → Bool} {queued : List Ptr} {ms : List Message} (p : Ptr)
    (nodes : List Ptr)
    → Holds (after p) q live nodes queued ms
    → (rest : List Ptr) × Holds (at_node (q.next p)) q (update live p false) rest queued ms
Holds-advance p [] h = absurd (h.flight.0 h.flight.1)
Holds-advance {q} {live} {queued} p (x ∷ xs) h =
    let e = h.flight.1.0 in
    (
      xs,
      record {
        flight = subst (λ y. Seg q.next (q.next y) xs null) (sym e) h.flight.1.2;
        queue = h.queue;
        distinct = h.distinct.1;
        alive = alive-deleted live p (xs ++ queued) (rw e h.distinct.0) h.alive.1;
        waits = h.waits;
      },
    )

still_alive :
    (queued nodes : List Ptr) (l : Ptr → Bool)
    → Distinct (nodes ++ queued)
    → All (λ p. l p ≡ true) (nodes ++ queued)
    → All (λ p. deleted nodes l p ≡ true) queued
still_alive queued [] l d a = a
still_alive queued (x ∷ xs) l d a =
    still_alive queued xs (update l x false) d.1 (alive-deleted l x (xs ++ queued) d.0 a.1)

pub Holds-clear :
    {q : Queue Message} {live : Ptr → Bool} {queued : List Ptr} {ms : List Message} (o : Bool)
    (p : Ptr) (nodes xs : List Ptr) (fuel : ℕ)
    → clear_queue fuel p q ≡ some xs
    → Holds (clearing o p) q live nodes queued ms
    → (ms ≡ rest_of o (map q.item xs) ++ items q queued)
      × Holds leaving q (deleted xs live) [] queued (items q queued)
Holds-clear {q} {live} {queued} o p nodes xs fuel e h =
    let same = clear_queue-eq fuel p q nodes xs h.flight e in
    (
      h.waits ∙ ap (λ l. rest_of o (items q l) ++ items q queued) (sym same),
      record {
        flight = refl;
        queue = h.queue;
        distinct = h.queue.distinct;
        alive =
            still_alive queued xs live (subst (λ l. Distinct (l ++ queued)) (sym same) h.distinct)
              (subst (λ l. All (λ p. live p ≡ true) (l ++ queued)) (sym same) h.alive);
        waits = refl;
      },
    )
