-- ===== src/Tests/Connection.antt =====
-- The connection of a program (Shared/ServerConnection.cpp) at two messages, and at a refused connect.
use watchfirewall.Prelude.{
  ◌≡◌, [], ◌∷◌, true, false, some, arith, update, ◌++◌, ◌&&◌, if◌then◌else◌,
}
use watchfirewall.Firewall.Request.{Memory, message_size}
use watchfirewall.Connection.{
  number, is_positive, Calls, new_connection, open_connection, receive_loop,
}
use watchfirewall.Connection.Receive.{
  Packed, ended, message, up_to_closing, receive_loop-Packed, open_connection_lem,
}

-- Two messages of 4 bytes.
abbrev buffer : Memory
buffer = update (update (λ p. 0) 0 4) 4 4

buffer-Packed : Packed buffer 8 0 (0 ∷ 4 ∷ [])
unfolding message_size
buffer-Packed =
    message (omega arith) (omega arith) (message (omega arith) (omega arith) (ended (omega arith)))

receive_loop-Packed_example : receive_loop buffer 8 9 0 ≡ some (up_to_closing buffer (0 ∷ 4 ∷ []))
receive_loop-Packed_example =
    receive_loop-Packed buffer 8 9 0 (0 ∷ 4 ∷ []) buffer-Packed (omega arith)

abbrev refused : Calls
refused = record {
  socket = number 3;
  ioctl_works = true;
  connect = false;
  attr_init = true;
  thread_starts = true;
}

open_connection_lem_example :
    let (opened, c') = open_connection refused true true new_connection in
    (opened
      ≡ (is_positive refused.socket && refused.ioctl_works && refused.connect && refused.attr_init))
    × (if opened
        then (c'.g_socket ≡ refused.socket) × (c'.closes ≡ new_connection.closes)
        else (is_positive c'.g_socket ≡ false)
          × (c'.closes ≡ (
              if is_positive refused.socket
              then new_connection.closes ++ refused.socket ∷ []
              else new_connection.closes)))
open_connection_lem_example = open_connection_lem refused true true new_connection
