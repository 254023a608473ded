-- ===== src/Client/Thread/Holds.antt =====
-- Which messages wait in a client's queue and in the hands of its thread (Kext/client.cpp), at each place where
-- the thread stands.
use watchfirewall.Prelude.{
  ◌≡◌, ◌≢◌, refl, sym, subst, ap, ◌∙◌, Bool, true, false, List, [], ◌∷◌, ◌++◌, All, Fresh, Distinct,
  update, last, ==-ne, ==-refl, arith, Fresh-last, Distinct-snoc, Fresh-append_left,
  Fresh-append_right,
}
use mathlib.Core.List.{append_assoc, append-nil}
use watchfirewall.Links.{Ptr, null}
use watchfirewall.Links.Segment.{Seg, Seg-update, last-ne_null}
use watchfirewall.Queue.{Queue, enqueue, detach}
use watchfirewall.Queue.Contents.{
  IsQueue, items, enqueue-IsQueue, items-enqueue, item-enqueue, map-update,
}
use watchfirewall.Messages.{Message}
use watchfirewall.Client.Thread.{
  Pc, asleep, start, awake, rested, taking, at_node, asking, testing, writing, after, clearing,
  leaving, ended, wakened, rest_of,
}

-- From the thread's node the chain of the nodes that it took.
abbrev pub Flight : Pc → (Ptr → Ptr) → List Ptr → Type 0
Flight (at_node p) next nodes = Seg next p nodes null
Flight (asking p) next nodes = (p ≢ null) × Seg next p nodes null
Flight (testing p) next nodes = (p ≢ null) × Seg next p nodes null
Flight (writing p) next nodes = (p ≢ null) × Seg next p nodes null
Flight (after p) next nodes = (p ≢ null) × Seg next p nodes null
Flight (clearing offered p) next nodes = Seg next p nodes null
Flight pc next nodes = nodes ≡ []

-- Whether the message of the first node is done with.
abbrev pub offered : Pc → Bool
offered (after p) = true
offered (clearing o p) = o
offered pc = false

-- The nodes that the thread took and those in the queue, and the messages that wait in them.
pub record Holds (pc : Pc) (q : Queue Message) (live : Ptr → Bool) (nodes queued : List Ptr)
    (waiting : List Message) : Type 0 where
  pub flight : Flight pc q.next nodes
  pub queue : IsQueue q queued
  pub distinct : Distinct (nodes ++ queued)
  pub alive : All (λ p. live p ≡ true) (nodes ++ queued)
  pub waits : waiting ≡ rest_of (offered pc) (items q nodes) ++ items q queued

Flight-wakened :
    (pc : Pc) (next : Ptr → Ptr) (nodes : List Ptr)
    → Flight pc next nodes
    → Flight (wakened pc) next nodes
Flight-wakened (asleep w) next nodes f = f
Flight-wakened start next nodes f = f
Flight-wakened awake next nodes f = f
Flight-wakened rested next nodes f = f
Flight-wakened taking next nodes f = f
Flight-wakened (at_node p) next nodes f = f
Flight-wakened (asking p) next nodes f = f
Flight-wakened (testing p) next nodes f = f
Flight-wakened (writing p) next nodes f = f
Flight-wakened (after p) next nodes f = f
Flight-wakened (clearing o p) next nodes f = f
Flight-wakened leaving next nodes f = f
Flight-wakened ended next nodes f = f

offered-wakened : (pc : Pc) → offered (wakened pc) ≡ offered pc
offered-wakened (asleep w) = refl
offered-wakened pc = refl

Flight-Seg :
    (pc : Pc) (next next' : Ptr → Ptr) (nodes : List Ptr)
    → ((p : Ptr) → Seg next p nodes null → Seg next' p nodes null)
    → Flight pc next nodes
    → Flight pc next' nodes
Flight-Seg (at_node p) next next' nodes k f = k p f
Flight-Seg (asking p) next next' nodes k f = (f.0, k p f.1)
Flight-Seg (testing p) next next' nodes k f = (f.0, k p f.1)
Flight-Seg (writing p) next next' nodes k f = (f.0, k p f.1)
Flight-Seg (after p) next next' nodes k f = (f.0, k p f.1)
Flight-Seg (clearing o p) next next' nodes k f = k p f
Flight-Seg start next next' nodes k f = f
Flight-Seg (asleep w) next next' nodes k f = f
Flight-Seg awake next next' nodes k f = f
Flight-Seg rested next next' nodes k f = f
Flight-Seg taking next next' nodes k f = f
Flight-Seg leaving next next' nodes k f = f
Flight-Seg ended next next' nodes k f = f

module _ {pc pc' : Pc} {q : Queue Message} {live : Ptr → Bool} {nodes queued : List Ptr}
    {ms : List Message} where
  -- The thread moves, and holds the same nodes.
  pub Holds-move :
      (Flight pc q.next nodes → Flight pc' q.next nodes)
      → offered pc' ≡ offered pc
      → Holds pc q live nodes queued ms
      → Holds pc' q live nodes queued ms
  Holds-move k o h = record {
    flight = k h.flight;
    queue = h.queue;
    distinct = h.distinct;
    alive = h.alive;
    waits = h.waits ∙ ap (λ b. rest_of b (items q nodes) ++ items q queued) (sym o);
  }

dead-Fresh :
    (live : Ptr → Bool) (p : Ptr) (xs : List Ptr)
    → live p ≡ false
    → All (λ x. live x ≡ true) xs
    → Fresh p xs
dead-Fresh live p [] d a = tt
dead-Fresh live p (x ∷ xs) d a = (λ e. absurd (let f = ap live e in cc), dead-Fresh live p xs d a.1)

Distinct-last_of :
    (nodes : List Ptr) (x : Ptr) (xs : List Ptr)
    → Distinct (nodes ++ x ∷ xs)
    → Fresh (last x xs) nodes
Distinct-last_of [] x xs d = tt
Distinct-last_of (y ∷ nodes) x xs d = (
  λ e. Fresh-last y x xs (Fresh-append_right y nodes (x ∷ xs) d.0) (sym e),
  Distinct-last_of nodes x xs d.1,
)

-- Appending to the queue leaves the nodes that the thread took alone.
Seg-enqueue :
    (node : Ptr) (m : Message) (q : Queue Message) (nodes queued : List Ptr) (p : Ptr)
    → node ≢ null
    → Fresh node nodes
    → Distinct (nodes ++ queued)
    → IsQueue q queued
    → Seg q.next p nodes null
    → Seg (enqueue node m q).next p nodes null
unfolding enqueue
Seg-enqueue node m q nodes [] p n f d is s =
    rw is.ends (Seg-update q.next node null p nodes null f s)
Seg-enqueue node m q nodes (x ∷ xs) p n f d is s =
    let z = last-ne_null q.next q.head x xs null is.chain in
    rw (is.ends, ==-ne (last x xs) null z)
      (Seg-update (update q.next node null) (last x xs) node p nodes null
        (Distinct-last_of nodes x xs d) (Seg-update q.next node null p nodes null f s))

items-enqueue_old :
    (node : Ptr) (m : Message) (q : Queue Message) (nodes : List Ptr)
    → Fresh node nodes
    → items (enqueue node m q) nodes ≡ items q nodes
items-enqueue_old node m q nodes f = rw (item-enqueue node m q) (map-update q.item node m nodes f)

alive-update :
    (live : Ptr → Bool) (p : Ptr) (xs : List Ptr)
    → All (λ x. live x ≡ true) xs
    → All (λ x. update live p true x ≡ true) xs
alive-update live p [] a = tt
alive-update live p (x ∷ xs) a = (ground (arith, a.0), alive-update live p xs a.1)

pub alive-deleted :
    (live : Ptr → Bool) (p : Ptr) (xs : List Ptr)
    → Fresh p xs
    → All (λ x. live x ≡ true) xs
    → All (λ x. update live p false x ≡ true) xs
alive-deleted live p [] f a = tt
alive-deleted live p (x ∷ xs) f a = (rw (==-ne p x f.0) a.0, alive-deleted live p xs f.1 a.1)

All-snoc : (P : Ptr → Type 0) (xs : List Ptr) (y : Ptr) → All P xs → P y → All P (xs ++ y ∷ [])
All-snoc P [] y a b = (b, tt)
All-snoc P (x ∷ xs) y a b = (a.0, All-snoc P xs y a.1 b)

module _ {pc : Pc} {q : Queue Message} {live : Ptr → Bool} {nodes queued : List Ptr}
    {ms : List Message} where
  pub Holds-enqueue :
      (node : Ptr) (m : Message)
      → node ≢ null
      → live node ≡ false
      → Holds pc q live nodes queued ms
      → Holds
          (wakened pc)
          (enqueue node m q)
          (update live node true)
          nodes
          (queued ++ node ∷ [])
          (ms ++ m ∷ [])
  Holds-enqueue node m n d h =
      let fresh = dead-Fresh live node (nodes ++ queued) d h.alive in
      let fn = Fresh-append_left node nodes queued fresh in
      let fq = Fresh-append_right node nodes queued fresh in
      let assoc = append_assoc nodes queued (node ∷ []) in
      record {
        flight = Flight-wakened pc _ nodes (
            Flight-Seg pc q.next _ nodes
              (λ p s. Seg-enqueue node m q nodes queued p n fn h.distinct h.queue s) h.flight);
        queue = enqueue-IsQueue node m q n queued fq h.queue;
        distinct = subst Distinct assoc (Distinct-snoc node (nodes ++ queued) fresh h.distinct);
        alive = subst (All (λ p. update live node true p ≡ true)) assoc (
            All-snoc (λ p. update live node true p ≡ true) (nodes ++ queued) node
              (alive-update live node (nodes ++ queued) h.alive) (rw (==-refl node) refl));
        waits =
            rw
              (
                offered-wakened pc,
                items-enqueue_old node m q nodes fn,
                items-enqueue node m q n queued fq,
              )
              (ap (λ l. l ++ m ∷ []) h.waits
                ∙ append_assoc (rest_of (offered pc) (items q nodes)) (items q queued) (m ∷ []));
      }

  -- The thread takes all nodes of the queue.
  pub Holds-detach :
      pc ≡ taking
      → Holds pc q live nodes queued ms
      → Holds (at_node q.head) (detach q) live queued [] ms
  unfolding detach
  Holds-detach e h =
      let none_held : nodes ≡ [] = subst (λ k. Flight k q.next nodes) e h.flight in
      let back = sym (append-nil queued) in
      let start_over : nodes ++ queued ≡ queued = ap (λ l. l ++ queued) none_held in
      record {
        flight = h.queue.chain;
        queue = record { chain = refl; distinct = tt; ends = refl };
        distinct = subst Distinct (start_over ∙ back) h.distinct;
        alive = subst (All (λ p. live p ≡ true)) (start_over ∙ back) h.alive;
        waits =
            h.waits
            ∙ ap (λ k. rest_of (offered k) (items q nodes) ++ items q queued) e
            ∙ ap (λ l. items q l ++ items q queued) none_held
            ∙ sym (append-nil (items q queued));
      }

  pub Holds-wakened : Holds pc q live nodes queued ms → Holds (wakened pc) q live nodes queued ms
  Holds-wakened h = record {
    flight = Flight-wakened pc q.next nodes h.flight;
    queue = h.queue;
    distinct = h.distinct;
    alive = h.alive;
    waits =
        h.waits ∙ ap (λ b. rest_of b (items q nodes) ++ items q queued) (sym (offered-wakened pc));
  }
