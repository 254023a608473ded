-- ===== src/Client/Thread/Simulation.antt =====
-- A client with its thread and those who send to it (Kext/client.cpp), compared with a channel.
use watchfirewall.Prelude.{
  ◌≡◌, ◌≢◌, refl, sym, subst, ap, ◌∙◌, true, false, List, [], ◌∷◌, ◌++◌, map,
}
use watchfirewall.Kernel.{Atomics}
use watchfirewall.Links.{Ptr, null}
use watchfirewall.Links.Segment.{Seg}
use watchfirewall.Queue.Contents.{items}
use watchfirewall.Client.{close_signal}
use watchfirewall.Client.Thread.{
  System, Fate, busy, written, Pc, start, asleep, awake, rested, taking, at_node, asking, testing,
  writing, after, clearing, leaving, ended, rest_of, all_cleared, Step, Reach, here, later, appends,
  closes, starts, wakes, wakes_to_leave, rests, rests_to_clear, goes_on, takes, sleeps, stops_at,
  asks, skips, has_space, stops_before, may_write, writes, stops_after, advances, clears, leaves,
}
use watchfirewall.Client.Thread.Channel.{
  Channel, accept, finish, Acts, none_left, one, Acts-trans, finish_all,
}
use watchfirewall.Client.Thread.Nodes.{Holds-offer, Holds-advance, Holds-clear}
use watchfirewall.Client.Thread.Holds.{
  Flight, offered, Holds, Holds-move, Holds-wakened, Holds-enqueue, Holds-detach,
}

-- A client and its thread as a channel: the messages that wait are those that the thread took and is not
-- done with, and then those in the queue.
pub record Represents (s : System) (c : Channel) : Type 0 where
  pub nodes : List Ptr
  pub queued : List Ptr
  pub holds : Holds s.pc s.client.queue s.live nodes queued c.waiting
  pub finished_same : c.finished ≡ s.finished
  pub accepted_same : c.accepted ≡ s.accepted

-- What a step of a system does to its channel.
abbrev pub Implements : Channel → System → Type 0
Implements c t = (d : Channel) × Acts c d × Represents t d

module _ {s : System} {c : Channel} (r : Represents s c) where
  -- The thread only moves.
  moves :
      (pc : Pc)
      → (Flight s.pc s.client.queue.next r.nodes → Flight pc s.client.queue.next r.nodes)
      → offered pc ≡ offered s.pc
      → (t : System) → t.pc ≡ pc
      → t.client.queue ≡ s.client.queue
      → t.live ≡ s.live
      → t.finished ≡ s.finished
      → t.accepted ≡ s.accepted
      → Implements c t
  moves pc k o t e q l f a = (
    c,
    none_left,
    record {
      nodes = r.nodes;
      queued = r.queued;
      holds = rw (e, q, l) (Holds-move k o r.holds);
      finished_same = r.finished_same ∙ sym f;
      accepted_same = r.accepted_same ∙ sym a;
    },
  )

  at :
      (pc : Pc)
      → s.pc ≡ pc
      → Flight s.pc s.client.queue.next r.nodes
      → Flight pc s.client.queue.next r.nodes
  at pc e f = subst (λ k. Flight k s.client.queue.next r.nodes) e f

  -- The thread is done with the message of its node.
  finishes :
      (p : Ptr) (f : Fate) (t : System)
      → (Flight s.pc s.client.queue.next r.nodes
          → (p ≢ null) × Seg s.client.queue.next p r.nodes null)
      → offered s.pc ≡ false
      → t ≡ record s { pc = after p; finished = s.finished ++ (s.client.queue.item p, f) ∷ [] }
      → Implements c t
  finishes p f t k o e =
      let (rest, same, holds) = Holds-offer p r.nodes k o r.holds in
      let m = s.client.queue.item p in
      (
        record c { waiting = rest; finished = c.finished ++ (m, f) ∷ [] },
        one (finish m f rest same),
        subst
            (λ (u : System).
              Represents u (record c { waiting = rest; finished = c.finished ++ (m, f) ∷ [] }))
            (sym e)
            (record {
              nodes = r.nodes;
              queued = r.queued;
              holds = holds;
              finished_same = ap (λ l. l ++ (m, f) ∷ []) r.finished_same;
              accepted_same = r.accepted_same;
            }),
      )

module _ {os : Atomics} where
  -- Each step of the thread, of a sender or of the closer does to the channel nothing, or what a channel
  -- does: it accepts a message, or is done with the first messages that wait.
  pub Step-Implements : {s t : System} {c : Channel} → Step os s t → Represents s c → Implements c t
  unfolding close_signal
  Step-Implements {s} {t} {c} (appends node m n dead) r = (
    record c { accepted = c.accepted ++ m ∷ []; waiting = c.waiting ++ m ∷ [] },
    one (accept m),
    record {
      nodes = r.nodes;
      queued = r.queued ++ node ∷ [];
      holds = Holds-enqueue node m n dead r.holds;
      finished_same = r.finished_same;
      accepted_same = ap (λ l. l ++ m ∷ []) r.accepted_same;
    },
  )
  Step-Implements {s} {t} {c} closes r = (
    c,
    none_left,
    record {
      nodes = r.nodes;
      queued = r.queued;
      holds = Holds-wakened r.holds;
      finished_same = r.finished_same;
      accepted_same = r.accepted_same;
    },
  )
  Step-Implements (starts e) r =
      moves r (asleep false) (at r start e) (ap offered (sym e)) _ refl refl refl refl refl
  Step-Implements (wakes e) r =
      moves r awake (at r (asleep true) e) (ap offered (sym e)) _ refl refl refl refl refl
  Step-Implements (wakes_to_leave e x) r =
      moves r leaving (at r awake e) (ap offered (sym e)) _ refl refl refl refl refl
  Step-Implements (rests e x) r =
      moves r rested (at r awake e) (ap offered (sym e)) _ refl refl refl refl refl
  Step-Implements {s} (rests_to_clear e x) r =
      moves r (clearing false null)
        (λ f. subst (λ l. Seg s.client.queue.next null l null) (sym (at r rested e f)) refl)
        (ap offered (sym e)) _ refl refl refl refl refl
  Step-Implements (goes_on e x) r =
      moves r taking (at r rested e) (ap offered (sym e)) _ refl refl refl refl refl
  Step-Implements {s} {t} {c} (takes e) r = (
    c,
    none_left,
    record {
      nodes = r.queued;
      queued = [];
      holds = Holds-detach e r.holds;
      finished_same = r.finished_same;
      accepted_same = r.accepted_same;
    },
  )
  Step-Implements {s} (sleeps e) r =
      moves r (asleep false) (λ f. empty r.nodes (at r (at_node null) e f)) (ap offered (sym e)) _
        refl refl refl refl refl
    where
      empty : (nodes : List Ptr) → Seg s.client.queue.next null nodes null → nodes ≡ []
      empty [] f = refl
      empty (x ∷ xs) f = absurd (f.1 (sym f.0))
  Step-Implements (stops_at p e n x) r =
      moves r (clearing false p) (at r (at_node p) e) (ap offered (sym e)) _ refl refl refl refl
        refl
  Step-Implements (asks p e n x) r =
      moves r (asking p) (λ f. (n, at r (at_node p) e f)) (ap offered (sym e)) _ refl refl refl refl
        refl
  Step-Implements (skips p size e small) r =
      finishes r p busy _ (at r (asking p) e) (ap offered e) refl
  Step-Implements (has_space p size e big) r =
      moves r (testing p) (at r (asking p) e) (ap offered (sym e)) _ refl refl refl refl refl
  Step-Implements (stops_before p e x) r =
      moves r (clearing false p) (λ f. (at r (testing p) e f).1) (ap offered (sym e)) _ refl refl
        refl refl refl
  Step-Implements (may_write p e x) r =
      moves r (writing p) (at r (testing p) e) (ap offered (sym e)) _ refl refl refl refl refl
  Step-Implements (writes p result e) r =
      finishes r p (written result) _ (at r (writing p) e) (ap offered e) refl
  Step-Implements (stops_after p e x) r =
      moves r (clearing true p) (λ f. (at r (after p) e f).1) (ap offered (sym e)) _ refl refl refl
        refl refl
  Step-Implements {s} {t} {c} (advances p e x) r =
      let (rest, holds) =
        Holds-advance p r.nodes
          (subst (λ k. Holds k s.client.queue s.live r.nodes r.queued c.waiting) e r.holds) in
      (
        c,
        none_left,
        record {
          nodes = rest;
          queued = r.queued;
          holds = holds;
          finished_same = r.finished_same;
          accepted_same = r.accepted_same;
        },
      )
  Step-Implements {s} {t} {c} (clears o p fuel xs e f) r =
      let held = subst (λ k. Holds k s.client.queue s.live r.nodes r.queued c.waiting) e r.holds in
      let (same, holds) = Holds-clear o p r.nodes xs fuel f held in
      let ms = rest_of o (map s.client.queue.item xs) in
      (
        _,
        finish_all c ms (items s.client.queue r.queued) same,
        record {
          nodes = [];
          queued = r.queued;
          holds = holds;
          finished_same = ap (λ l. l ++ all_cleared ms) r.finished_same;
          accepted_same = r.accepted_same;
        },
      )
  Step-Implements (leaves e) r =
      moves r ended (at r leaving e) (ap offered (sym e)) _ refl refl refl refl refl

  pub Reach-Implements :
      {s t : System} {c : Channel} → Reach os s t → Represents s c → Implements c t
  Reach-Implements {s} {t} {c} here r = (c, none_left, r)
  Reach-Implements (later x st) r =
      let (d, a, r') = Reach-Implements x r in
      let (e, b, r'') = Step-Implements st r' in (e, Acts-trans a b, r'')
