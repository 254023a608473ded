-- ===== src/Cookies.antt =====
-- Kext/cookie.h and Kext/cookie.cpp: the list of socket cookies, and the data that a cookie holds back until
-- it is decided what becomes of the socket. `lock` is held over Add, Remove and HaveAttachedSockets,
-- so each is one step. An mbuf is an address.
pub mod Attached
pub mod Deferred
pub mod Tags
use watchfirewall.Prelude.{
  ℕ, zero, suc, ◌+◌, ◌-◌, ◌%◌, Bool, true, false, not, Option, none, some, List, [], ◌∷◌, ◌++◌,
  ◌==◌, if◌then◌else◌,
}
use watchfirewall.Kernel.{word}
use watchfirewall.Links.{Ptr, null, Links, unlink, push_front}
use watchfirewall.Queue.{Queue, enqueue, detach}

pub record SocketCookies : Type 0 where
  pub links : Links
  pub open links use *
  pub count_attached_cookies : ℕ

-- `cookie` is an object fresh from `new`, whose links are NULL.
unfoldable pub add : Ptr → SocketCookies → SocketCookies
add cookie s = record s {
  links = push_front cookie s.links;
  count_attached_cookies = (s.count_attached_cookies + 1) % word;
}

unfoldable pub remove : Ptr → SocketCookies → SocketCookies
remove cookie s = record s {
  links = unlink cookie s.links;
  count_attached_cookies = (s.count_attached_cookies + word - 1) % word;
}

unfoldable pub have_attached_sockets : SocketCookies → Bool
have_attached_sockets s = not (s.root == null)

-- `socket_address` is what GetSockAddress returns, NULL where the first byte is 0.
pub record DeferredData : Type 0 where
  pub packet : Ptr
  pub control : Ptr
  pub flags : ℕ
  pub direction : Bool
  pub socket_address : Option (List ℕ)

-- The mbuf behind a pointer that may be NULL.
abbrev pub deref : Option Ptr → Ptr
deref none = null
deref (some p) = p

-- AddDeferredData. `node` is what `new` gives, of bytes that are 0; the argument `direction` is not used.
-- `none` is the access to the address's length where the address is NULL.
unfoldable pub add_deferred_data :
    Ptr
    → (direction : Bool) → (m control : Option Ptr) → ℕ
    → Option (List ℕ)
    → Queue DeferredData
    → Option (Bool × Queue DeferredData)
add_deferred_data node direction m control flags none q = none
add_deferred_data node direction m control flags (some sa) q =
    if node == null
    then some (false, q)
    else some (
      true,
      enqueue node
          (record {
            packet = deref m;
            control = deref control;
            flags = flags;
            direction = false;
            socket_address = some sa;
          })
          q,
    )

-- What SendDeferredData has the kernel do.
pub data Action : Type 0 where
  inject_in : DeferredData → Action
  inject_out : DeferredData → Action
  free_mbuf : Ptr → Action

-- The body of the loop, for the data at its head; `fails` is the result of sock_inject_data_in.
abbrev pub sent : (DeferredData → Bool) → DeferredData → List Action
sent fails d =
    if d.direction
    then if fails d
      then inject_in d ∷ free_mbuf d.packet ∷ free_mbuf d.control ∷ []
      else inject_in d ∷ []
    else inject_out d ∷ []

unfoldable pub send_deferred_data :
    (DeferredData → Bool) → ℕ → Queue DeferredData → Option (List Action × Queue DeferredData)
send_deferred_data fails zero q = none
send_deferred_data fails (suc fuel) q = elim (q.head == null) [
  | true ↦ some ([], detach q)
  | false ↦ elim (send_deferred_data fails fuel (record q { head = q.next q.head })) [
    | none ↦ none
    | some (actions, q') ↦ some (sent fails (q.item q.head) ++ actions, q')
  ]
]

unfoldable pub clear_deferred_data :
    ℕ → Queue DeferredData → Option (List Action × Queue DeferredData)
clear_deferred_data zero q = none
clear_deferred_data (suc fuel) q = elim (q.head == null) [
  | true ↦ some ([], detach q)
  | false ↦ elim (clear_deferred_data fuel (record q { head = q.next q.head })) [
    | none ↦ none
    | some (actions, q') ↦
        some (free_mbuf (q.item q.head).packet ∷ free_mbuf (q.item q.head).control ∷ actions, q')
  ]
]
