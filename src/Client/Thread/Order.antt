-- ===== src/Client/Thread/Order.antt =====
-- From its start on, what a client's thread (Kext/client.cpp) has done with the messages, and which nodes it and
-- the senders may read.
use watchfirewall.Prelude.{
  ◌≡◌, ◌≢◌, refl, sym, subst, Bool, true, false, List, [], ◌∷◌, ◌++◌, All, last, update,
}
use watchfirewall.Kernel.{Atomics}
use watchfirewall.Links.{Ptr, null}
use watchfirewall.Links.Segment.{Seg}
use watchfirewall.Messages.{Message}
use watchfirewall.Client.{send}
use watchfirewall.Client.Receive.{Takes, send-Takes}
use watchfirewall.Client.Thread.{
  System, Pc, start, asleep, awake, rested, taking, at_node, asking, testing, writing, after,
  clearing, leaving, ended, Reach, Step, appends, wakened,
}
use watchfirewall.Client.Thread.Channel.{Channel, InOrder, Acts-InOrder}
use watchfirewall.Client.Thread.Holds.{Flight}
use watchfirewall.Client.Thread.Simulation.{Represents, Reach-Implements}

-- As InitWithClient leaves it: the thread is created, and the queue is empty.
pub record Started (s : System) : Type 0 where
  pub at_start : s.pc ≡ start
  pub no_head : s.client.queue.head ≡ null
  pub no_last : s.client.queue.last ≡ null
  pub none_accepted : s.accepted ≡ []
  pub none_finished : s.finished ≡ []

abbrev empty_channel : Channel
empty_channel = record { accepted = []; waiting = []; finished = [] }

Started-Represents : (s : System) → Started s → Represents s empty_channel
Started-Represents s h = record {
  nodes = [];
  queued = [];
  holds = rw h.at_start (record {
    flight = refl;
    queue = record { chain = h.no_head; distinct = tt; ends = h.no_last };
    distinct = tt;
    alive = tt;
    waits = refl;
  });
  finished_same = sym h.none_finished;
  accepted_same = sym h.none_accepted;
}

-- From the start of the thread every state that it, the senders and the closer reach is that of a channel,
-- in which no message is lost, doubled or overtaken: the accepted messages are those that the thread is done with,
-- in order, and then those in the nodes that it took or in the queue.
pub Reach-InOrder :
    (os : Atomics) (s t : System)
    → Started s
    → Reach os s t
    → (c : Channel) × Represents t c × InOrder c
Reach-InOrder os s t h x =
    let (c, acts, r) = Reach-Implements x (Started-Represents s h) in (c, r, Acts-InOrder acts refl)

-- The node in the thread's hands.
abbrev pub node_of : Pc → Ptr
node_of (at_node p) = p
node_of (asking p) = p
node_of (testing p) = p
node_of (writing p) = p
node_of (after p) = p
node_of (clearing o p) = p
node_of pc = null

-- The thread's node is the first of those that it took.
Flight-first :
    (pc : Pc) (next : Ptr → Ptr) (nodes : List Ptr)
    → Flight pc next nodes
    → node_of pc ≢ null
    → Seg next (node_of pc) nodes null
Flight-first (at_node p) next nodes f n = f
Flight-first (asking p) next nodes f n = f.1
Flight-first (testing p) next nodes f n = f.1
Flight-first (writing p) next nodes f n = f.1
Flight-first (after p) next nodes f n = f.1
Flight-first (clearing o p) next nodes f n = f
Flight-first start next nodes f n = absurd (n refl)
Flight-first (asleep w) next nodes f n = absurd (n refl)
Flight-first awake next nodes f n = absurd (n refl)
Flight-first rested next nodes f n = absurd (n refl)
Flight-first taking next nodes f n = absurd (n refl)
Flight-first leaving next nodes f n = absurd (n refl)
Flight-first ended next nodes f n = absurd (n refl)

module _ (live : Ptr → Bool) where
  first_alive :
      (next : Ptr → Ptr) (p : Ptr) (nodes queued : List Ptr)
      → p ≢ null
      → Seg next p nodes null
      → All (λ x. live x ≡ true) (nodes ++ queued)
      → live p ≡ true
  first_alive next p [] queued n f a = absurd (n f)
  first_alive next p (x ∷ xs) queued n f a = rw f.0 a.0

  last_alive :
      (x : Ptr) (xs : List Ptr) → All (λ x. live x ≡ true) (x ∷ xs) → live (last x xs) ≡ true
  last_alive x [] a = a.0
  last_alive x (y ∷ ys) a = last_alive y ys a.1

  queue_end_alive :
      (nodes queued : List Ptr)
      → last null queued ≢ null
      → All (λ x. live x ≡ true) (nodes ++ queued)
      → live (last null queued) ≡ true
  queue_end_alive [] [] n a = absurd (n refl)
  queue_end_alive [] (y ∷ ys) n a = last_alive y ys a
  queue_end_alive (x ∷ xs) queued n a = queue_end_alive xs queued n a.1

-- From the start of the thread, in every state that is reached: the node in the thread's hands is allocated, and so
-- is the last node of the queue, whose `next` field Send writes.
pub Reach-alive :
    (os : Atomics) (s t : System)
    → Started s
    → Reach os s t
    → (node_of t.pc ≢ null → t.live (node_of t.pc) ≡ true)
      × (t.client.queue.last ≢ null → t.live t.client.queue.last ≡ true)
Reach-alive os s t h x =
    let (c, r, _) = Reach-InOrder os s t h x in
    let next = t.client.queue.next in
    (
      λ n.
          first_alive t.live next (node_of t.pc) r.nodes r.queued n
            (Flight-first t.pc next r.nodes r.holds.flight n) r.holds.alive,
      λ n. rw r.holds.queue.ends (
          queue_end_alive t.live r.nodes r.queued (subst (λ p. p ≢ null) r.holds.queue.ends n)
            r.holds.alive),
    )

-- Client::Send of a message that the client takes is the step of a sender.
pub send-Step :
    (os : Atomics) (s : System) (node : Ptr) (m : Message)
    → Takes s.client node m
    → s.live node ≡ false
    → Step os s (record s {
      client = send node m s.client;
      pc = wakened s.pc;
      live = update s.live node true;
      accepted = s.accepted ++ m ∷ [];
    })
send-Step os s node m t dead = rw (send-Takes node m s.client t) (appends node m t.has_node dead)
