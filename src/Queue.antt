-- ===== src/Queue.antt =====
-- The singly linked queues with a head and a last pointer: the messages of a client
-- (Kext/client.cpp, Client::Send) and the deferred data of a socket (Kext/cookie.cpp,
-- AddDeferredData) are appended by the same statements. A node's fields are functions of its address.
pub mod Contents
use watchfirewall.Prelude.{ℕ, ◌==◌, if◌then◌else◌, update}
use watchfirewall.Links.{Ptr, null}

pub record Queue {ℓ} (A : Type ℓ) : Type ℓ where
  pub head : Ptr
  pub last : Ptr
  pub next : Ptr → Ptr
  pub item : Ptr → A

module _ {ℓ} {A : Type ℓ} where
  -- node->item = a; node->next = NULL; if(last == NULL) head = node; else last->next = node; last = node;
  unfoldable pub enqueue : Ptr → A → Queue A → Queue A
  enqueue node a q =
      let fresh : Queue A = record q {
        next = update q.next node null;
        item = update q.item node a;
        last = node;
      } in
      if q.last == null
      then record fresh { head = node }
      else record fresh { next = update fresh.next q.last node }

  -- head = NULL; last = NULL;
  unfoldable pub detach : Queue A → Queue A
  detach q = record q { head = null; last = null }
