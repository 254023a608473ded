-- ===== src/Client/Thread.antt =====
-- Client::SendThread and ClearQueue (Kext/client.cpp): the thread of a client that hands its messages to the
-- socket, one access to what it shares with others at a time, beside those who send to the client and
-- the one who closes it. The times that it sleeps are left out.
pub mod Channel
pub mod Holds
pub mod Nodes
pub mod Simulation
pub mod Order
use watchfirewall.Prelude.{
  ℕ, zero, suc, ◌<◌, ◌≤◌, ◌≡◌, ◌≢◌, Bool, true, false, List, [], ◌∷◌, ◌++◌, map, Option, none, some,
  ◌==◌, if◌then◌else◌, update,
}
use watchfirewall.Kernel.{Atomics}
use watchfirewall.SimpleBase.{retain, release}
use watchfirewall.Links.{Ptr, null}
use watchfirewall.Queue.{Queue, enqueue, detach}
use watchfirewall.Messages.{Message}
use watchfirewall.Client.{Client, close_signal}

-- What became of a message: too little space in the socket's queue, handed to ctl_enqueuedata with its
-- result, or released by ClearQueue.
pub data Fate : Type 0 where
  busy : Fate
  written : (result : ℕ) → Fate
  cleared : Fate

-- Where the thread stands, with its `node`. At `clearing`, `offered` says whether the message of the
-- node was offered to the socket before.
pub data Pc : Type 0 where
  start : Pc
  asleep : (woken : Bool) → Pc
  awake : Pc
  rested : Pc
  taking : Pc
  at_node : (node : Ptr) → Pc
  asking : (node : Ptr) → Pc
  testing : (node : Ptr) → Pc
  writing : (node : Ptr) → Pc
  after : (node : Ptr) → Pc
  clearing : (offered : Bool) (node : Ptr) → Pc
  leaving : Pc
  ended : Pc

-- IOLockWakeup: it reaches the thread in IOLockSleep only.
abbrev pub wakened : Pc → Pc
wakened (asleep woken) = asleep true
wakened pc = pc

-- ClearQueue: the nodes that it deletes, first to last.
unfoldable pub clear_queue : ℕ → Ptr → Queue Message → Option (List Ptr)
clear_queue zero root q = none
clear_queue (suc fuel) root q = elim (root == null) [
  | true ↦ some []
  | false ↦ elim (clear_queue fuel (q.next root) q) [
    | none ↦ none
    | some nodes ↦ some (root ∷ nodes)
  ]
]

-- A client with its thread. `live` says which nodes are allocated; `accepted` and `finished` record the
-- messages that were put in the queue, and those that the thread is done with.
pub record System : Type 0 where
  pub client : Client
  pub pc : Pc
  pub live : Ptr → Bool
  pub accepted : List Message
  pub finished : List (Message × Fate)

abbrev pub deleted : List Ptr → (Ptr → Bool) → Ptr → Bool
deleted [] live = live
deleted (x ∷ xs) live = deleted xs (update live x false)

-- All but the first message where that was offered before.
abbrev pub rest_of : Bool → List Message → List Message
rest_of false ms = ms
rest_of true [] = []
rest_of true (m ∷ ms) = ms

abbrev pub all_cleared : List Message → List (Message × Fate)
all_cleared ms = map (λ m. (m, cleared)) ms

module _ (os : Atomics) where
  pub data Step (s : System) : System → Type 0 where
    -- Client::Send in another thread, past its tests: the node is what `new` gives.
    appends :
        (node : Ptr) (m : Message)
        → node ≢ null
        → s.live node ≡ false
        → Step s (record s {
          client = record (s.client) { queue = enqueue node m s.client.queue };
          pc = wakened s.pc;
          live = update s.live node true;
          accepted = s.accepted ++ m ∷ [];
        })
    -- Client::CloseSignal in another thread.
    closes : Step s (record s { client = close_signal os s.client; pc = wakened s.pc })
    starts :
        s.pc ≡ start
        → Step s (record s {
          client = record (s.client) { references = retain os s.client.references };
          pc = asleep false;
        })
    wakes : s.pc ≡ asleep true → Step s (record s { pc = awake })
    wakes_to_leave : s.pc ≡ awake → s.client.exit_state ≢ 0 → Step s (record s { pc = leaving })
    rests : s.pc ≡ awake → s.client.exit_state ≡ 0 → Step s (record s { pc = rested })
    rests_to_clear :
        s.pc ≡ rested → s.client.exit_state ≢ 0 → Step s (record s { pc = clearing false null })
    goes_on : s.pc ≡ rested → s.client.exit_state ≡ 0 → Step s (record s { pc = taking })
    takes :
        s.pc ≡ taking
        → Step s (record s {
          client = record (s.client) { queue = detach s.client.queue };
          pc = at_node s.client.queue.head;
        })
    sleeps : s.pc ≡ at_node null → Step s (record s { pc = asleep false })
    stops_at :
        (node : Ptr)
        → s.pc ≡ at_node node
        → node ≢ null
        → s.client.exit_state ≢ 0
        → Step s (record s { pc = clearing false node })
    asks :
        (node : Ptr)
        → s.pc ≡ at_node node
        → node ≢ null
        → s.client.exit_state ≡ 0
        → Step s (record s { pc = asking node })
    -- ctl_getenqueuespace gives less than the message's size. `continue` ends the do-while(false).
    skips :
        (node : Ptr) (size : ℕ)
        → s.pc ≡ asking node
        → size < (s.client.queue.item node).size
        → Step s (record s {
          pc = after node;
          finished = s.finished ++ (s.client.queue.item node, busy) ∷ [];
        })
    has_space :
        (node : Ptr) (size : ℕ)
        → s.pc ≡ asking node
        → (s.client.queue.item node).size ≤ size
        → Step s (record s { pc = testing node })
    stops_before :
        (node : Ptr)
        → s.pc ≡ testing node
        → s.client.exit_state ≢ 0
        → Step s (record s { pc = clearing false node })
    may_write :
        (node : Ptr)
        → s.pc ≡ testing node
        → s.client.exit_state ≡ 0
        → Step s (record s { pc = writing node })
    writes :
        (node : Ptr) (result : ℕ)
        → s.pc ≡ writing node
        → Step s (record s {
          pc = after node;
          finished = s.finished ++ (s.client.queue.item node, written result) ∷ [];
        })
    stops_after :
        (node : Ptr)
        → s.pc ≡ after node
        → s.client.exit_state ≢ 0
        → Step s (record s { pc = clearing true node })
    advances :
        (node : Ptr)
        → s.pc ≡ after node
        → s.client.exit_state ≡ 0
        → Step s
            (record s { pc = at_node (s.client.queue.next node); live = update s.live node false })
    clears :
        (offered : Bool) (node : Ptr) (fuel : ℕ) (nodes : List Ptr)
        → s.pc ≡ clearing offered node
        → clear_queue fuel node s.client.queue ≡ some nodes
        → Step s (record s {
          pc = leaving;
          live = deleted nodes s.live;
          finished = s.finished ++ all_cleared (rest_of offered (map s.client.queue.item nodes));
        })
    -- Release. Where it was the last reference, the client is freed, and the model ends there.
    leaves :
        s.pc ≡ leaving
        → Step s (record s {
          client = record (s.client) { references = (release os s.client.references).0 };
          pc = ended;
        })

  pub data Reach (s : System) : System → Type 0 where
    here : Reach s s
    later : {t u : System} → Reach s t → Step t u → Reach s u
