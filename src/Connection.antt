-- ===== src/Connection.antt =====
-- Shared/ServerConnection.h and ServerConnection.cpp: the connection of a program to the extension. `syncMutex` is held over Open,
-- Close and the end of the thread, so each is one step. What recv gives is a list of results; that recv
-- waits where the list ends is the `false` of the thread's result. SendMessage only hands bytes to send, and is left out.
pub mod Receive
use watchfirewall.Prelude.{
  ℕ, zero, suc, ◌+◌, Bool, true, false, not, ◌&&◌, List, [], ◌∷◌, ◌++◌, map, Option, none, some,
  ◌==◌, ltb, if◌then◌else◌,
}
use watchfirewall.Firewall.Request.{Memory, message_size, message_type}
use watchfirewall.Messages.Types.{message_type_firewall_closing}

-- A file descriptor, or -1.
pub data Descriptor : Type 0 where
  invalid : Descriptor
  number : ℕ → Descriptor

abbrev pub is_positive : Descriptor → Bool
is_positive invalid = false
is_positive (number n) = not (n == 0)

pub record Connection : Type 0 where
  pub g_socket : Descriptor
  -- Whether receiveThread is set.
  pub receive_thread : Bool
  -- Whether each delegate is not NULL.
  pub receive_delegate : Bool
  pub closed_delegate : Bool
  -- The descriptors that were handed to close, oldest first, and how often closedDelegate was called.
  pub closes : List Descriptor
  pub closed_calls : ℕ

-- The constructor.
abbrev pub new_connection : Connection
new_connection = record {
  g_socket = invalid;
  receive_thread = false;
  receive_delegate = false;
  closed_delegate = false;
  closes = [];
  closed_calls = 0;
}

-- The results of the calls that Open makes: of socket, and whether ioctl, connect, pthread_attr_init and pthread_create
-- succeed.
pub record Calls : Type 0 where
  pub socket : Descriptor
  pub ioctl_works : Bool
  pub connect : Bool
  pub attr_init : Bool
  pub thread_starts : Bool

-- close(gSocket); gSocket = -1;
abbrev give_up : Connection → Connection
give_up c = record c { g_socket = invalid; closes = c.closes ++ c.g_socket ∷ [] }

-- Open. The result of pthread_create is stored in `relust`, while `result`, which is false, is tested.
unfoldable pub open_connection : Calls → (receive closed : Bool) → Connection → Bool × Connection
open_connection k receive closed c =
    let opened : Connection = record c { g_socket = k.socket } in
    let set : Connection = record opened { receive_delegate = receive; closed_delegate = closed } in
    if not (is_positive k.socket)
    then (false, opened)
    else if not k.ioctl_works
    then (false, give_up opened)
    else if k.connect && k.attr_init
    then (true, record set { receive_thread = if k.thread_starts then true else c.receive_thread })
    else (false, give_up set)

-- `closes_well` is whether close succeeds.
unfoldable pub close_connection : (closes_well : Bool) → Connection → Bool × Connection
close_connection closes_well c =
    if is_positive c.g_socket
    then (closes_well, record c { closes = c.closes ++ c.g_socket ∷ [] })
    else (false, c)

-- The inner loop of ReceiveThread over `n` bytes: at which offsets there are messages, and whether the last of them
-- announces that the extension closes. `none` means that the fuel ran out.
unfoldable pub receive_loop : Memory → (n fuel k : ℕ) → Option (List ℕ × Bool)
receive_loop mem n zero k = none
receive_loop mem n (suc fuel) k =
    let rest = receive_loop mem n fuel (k + message_size mem k) in
    if not (ltb k n)
    then some ([], false)
    else if message_type mem k == message_type_firewall_closing
    then some (k ∷ [], true)
    else elim rest [ none ↦ none | some (ks, closing) ↦ some (k ∷ ks, closing) ]

-- What recv gives: 0, -1, or a number of bytes in the buffer.
pub data Receipt : Type 0 where
  nothing_left failed : Receipt
  bytes : (mem : Memory) (n : ℕ) → Receipt

abbrev with_message : List ℕ → Option (List (List ℕ) × Bool) → Option (List (List ℕ) × Bool)
with_message ks none = none
with_message ks (some (kss, ended)) = some (ks ∷ kss, ended)

-- The outer loop: the offsets at which receiveDelegate is called with a message, for each buffer, and whether the thread
-- goes on to `close`.
unfoldable pub receive_all : (fuel : ℕ) → List Receipt → Option (List (List ℕ) × Bool)
receive_all fuel [] = some ([], false)
receive_all fuel (nothing_left ∷ rs) = some ([], true)
receive_all fuel (failed ∷ rs) = some ([], true)
receive_all fuel (bytes mem n ∷ rs) =
    let rest = receive_all fuel rs in
    elim (receive_loop mem n fuel 0) [
      | none ↦ none
      | some (ks, closing) ↦ if closing then some (ks ∷ [], true) else with_message ks rest
    ]

-- `close:` of ReceiveThread.
unfoldable pub end_thread : Connection → Connection
end_thread c = record c {
  closes = if is_positive c.g_socket then c.closes ++ c.g_socket ∷ [] else c.closes;
  g_socket = invalid;
  receive_thread = false;
  closed_calls = if c.closed_delegate then c.closed_calls + 1 else c.closed_calls;
}
