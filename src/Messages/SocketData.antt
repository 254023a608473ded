-- ===== src/Messages/SocketData.antt =====
-- CreateSocketData of Kext/messages.cpp, with RawMessageSocketData of Shared/messageType.h: the two addresses of a socket
-- behind the fields that count its traffic. The name of the process is counted, and not copied.
use watchfirewall.Prelude.{
  ℕ, ◌+◌, ◌%◌, ◌^◌, ◌≤◌, ◌≡◌, Bool, Option, none, some, List, [], ◌∷◌, ◌++◌, length, length-append,
  arith,
}
use watchfirewall.Messages.{Message, Origin, Payload, create}
use watchfirewall.Messages.Address.{
  SockAddress, copied, copied_bytes, read_address, drop, get_local, get_remote,
}
use watchfirewall.Messages.Layout.{size_of, end_of, base}
use watchfirewall.Messages.Types.{message_type_socket_data}
use watchfirewall.Messages.Debug.{accept_data}
use watchfirewall.Messages.Fits.{IsGood, length-copied_bytes, accept_round_trip}

abbrev pub socket_data_fields : List ℕ → List ℕ
socket_data_fields fs = base (1 ∷ 1 ∷ 4 ∷ 4 ∷ 4 ∷ 8 ∷ 4 ∷ 4 ∷ fs)

-- if(sa != NULL) neddedSize += sa->sa_len;
abbrev pub len_of : Option SockAddress → ℕ
len_of none = 0
len_of (some a) = a.len

-- neddedSize, an int.
unfoldable pub socket_data_size :
    Option SockAddress → Option SockAddress → (process_name_size : ℕ) → ℕ
socket_data_size from to process_name_size =
    size_of (socket_data_fields (1 ∷ 1 ∷ 1 ∷ [])) + len_of from + len_of to + process_name_size

unfoldable pub socket_data_bytes : Option SockAddress → Option SockAddress → List ℕ
socket_data_bytes from to = copied_bytes from ++ copied_bytes to

-- The size goes to Init as an UInt16.
unfoldable pub create_socket_data :
    Bool
    → (direction state_operation state_by_rule_id : ℕ) → Origin
    → (packets bytes : ℕ) → (from to : Option SockAddress) → (process_name_size : ℕ)
    → Option Message
unfolding socket_data_size socket_data_bytes
create_socket_data fits direction state_operation state_by_rule_id o packets bytes from to
      process_name_size =
    create fits (socket_data_size from to process_name_size % 2 ^ 16) message_type_socket_data (
      Payload.socket_data o state_operation direction state_by_rule_id packets bytes
        (socket_data_bytes from to))

unfoldable pub get_from_socket_address : List ℕ → SockAddress
get_from_socket_address bytes = read_address bytes

unfoldable pub get_to_socket_address : List ℕ → SockAddress
unfolding get_from_socket_address
get_to_socket_address bytes = read_address (drop (get_from_socket_address bytes).len bytes)

copied-len_of : (a : Option SockAddress) → (copied a).len ≤ len_of a + 2
unfolding copied
copied-len_of none = omega arith
copied-len_of (some a) = omega arith

-- With addresses that are as long as their first byte says: both, NULL being an unspecified one, lie within the
-- allocated bytes, and GetFromSocketAddress and GetToSocketAddress find them.
pub socket_data_round_trip :
    (from to : Option SockAddress) (process_name_size : ℕ)
    → IsGood from
    → IsGood to
    → (end_of 0 (socket_data_fields []) + length (socket_data_bytes from to)
        ≤ socket_data_size from to process_name_size)
      × (get_from_socket_address (socket_data_bytes from to) ≡ copied from)
      × (get_to_socket_address (socket_data_bytes from to) ≡ copied to)
unfolding socket_data_bytes socket_data_size get_from_socket_address get_to_socket_address
    accept_data get_local get_remote
socket_data_round_trip from to process_name_size g h =
    let (_, first, second) = accept_round_trip from to g h in
    (
      omega (
        arith,
        length-append (copied_bytes from) (copied_bytes to),
        length-copied_bytes from g,
        length-copied_bytes to h,
        copied-len_of from,
        copied-len_of to,
      ),
      first,
      second,
    )
