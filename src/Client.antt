-- ===== src/Client.antt =====
-- Kext/client.h and Kext/client.cpp: a connected client, its message classes and its queue. The locks
-- that guard the queue are held over each access, so an access is one step.
pub mod Classes
pub mod Receive
pub mod Thread
use watchfirewall.Prelude.{
  ℕ, ◌+◌, ◌-◌, Bool, true, false, not, Option, none, some, ◌==◌, if◌then◌else◌, bit_and,
}
use watchfirewall.Kernel.{Atomics, word}
use watchfirewall.Links.{Ptr, null}
use watchfirewall.Queue.{Queue, enqueue, detach}
use watchfirewall.Messages.{Message}
use watchfirewall.Messages.Types.{message_class_firewall, message_class_common}

pub record Client : Type 0 where
  pub unit : ℕ
  pub registred_message_clases : ℕ
  pub exit_state : ℕ
  pub references : ℕ
  pub queue : Queue Message

-- InitWithClient on an object fresh from `new`, all 0: whether each lock is allocated and the thread starts.
unfoldable pub init_with_client :
    (lock_queue lock_work_thread thread : Bool) → ℕ → Queue Message → Option Client
init_with_client lock_queue lock_work_thread thread unit empty =
    if not lock_queue
    then none
    else if not lock_work_thread
    then none
    else if not thread
    then none
    else some (record {
      unit = unit;
      registred_message_clases = message_class_firewall + message_class_common;
      exit_state = 0;
      references = 1;
      queue = record empty { head = null; last = null };
    })

-- The old classes `& classes == classes`.
unfoldable pub register_message_classes : Atomics → ℕ → Client → Bool × Client
register_message_classes os classes c =
    let (before, after) = os.or classes c.registred_message_clases in
    (bit_and before classes == classes, record c { registred_message_clases = after })

-- OSBitOrAtomic with `~classes`, the complement in 32 bits.
unfoldable pub unregister_message_classes : Atomics → ℕ → Client → Bool × Client
unregister_message_classes os classes c =
    let (before, after) = os.or (word - 1 - classes) c.registred_message_clases in
    (bit_and before classes == 0, record c { registred_message_clases = after })

unfoldable pub close_signal : Atomics → Client → Client
close_signal os c = record c { exit_state = (os.increment c.exit_state).1 }

-- Free: the queue is detached and its messages are released, before the object is deleted.
unfoldable pub free : Client → Client
free c = record c { queue = detach c.queue }

-- `node` is what `new ClientMessageNode()` gives.
unfoldable pub send : Ptr → Message → Client → Client
send node m c =
    if not (c.exit_state == 0)
    then c
    else if bit_and m.type c.registred_message_clases == 0
    then c
    else if node == null
    then c
    else record c { queue = enqueue node m c.queue }
