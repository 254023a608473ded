-- ===== src/Messages/Debug.antt =====
-- The Create functions of Kext/messages.cpp for the debug messages of the socket filter, with the Init and
-- GetNeededSize functions of Shared/messageType.h. `fits` is whether `new` succeeds.
use watchfirewall.Prelude.{ℕ, ◌+◌, ◌-◌, ◌%◌, ◌^◌, Bool, Option, none, some, List, [], ◌∷◌, ◌++◌}
use watchfirewall.Messages.{Message, Origin, Payload, create}
use watchfirewall.Messages.Address.{SockAddress, copied, copied_bytes}
use watchfirewall.Messages.Layout.{size_of, base, origin, size_of_sock_address}
use watchfirewall.Messages.Types.{
  message_type_sflt_unregistered, message_type_sflt_attach, message_type_sflt_detach,
  message_type_sflt_notify, message_type_sflt_get_peer_name, message_type_sflt_get_sock_name,
  message_type_sflt_connect_in, message_type_sflt_connect_out, message_type_sflt_bind,
  message_type_sflt_data_in, message_type_sflt_data_out, message_type_sflt_set_option,
  message_type_sflt_get_option, message_type_sflt_listen, message_type_sflt_ioctl,
  message_type_sflt_accept, message_type_socket_open, message_type_socket_closed,
}

unfoldable pub create_sflt_unregistered : Bool → Option Message
create_sflt_unregistered fits =
    create fits (size_of (base [])) message_type_sflt_unregistered Payload.nothing

unfoldable pub create_sflt_attach : Bool → Origin → ℕ → Option Message
create_sflt_attach fits o proto =
    create fits (size_of (origin (2 ∷ []))) message_type_sflt_attach
      (Payload.attach o (proto % 2 ^ 16))

unfoldable pub create_sflt_detach : Bool → Origin → Option Message
create_sflt_detach fits o =
    create fits (size_of (origin [])) message_type_sflt_detach (Payload.plain o)

unfoldable pub create_sflt_notify : Bool → Origin → ℕ → Option Message
create_sflt_notify fits o event =
    create fits (size_of (origin (2 ∷ []))) message_type_sflt_notify
      (Payload.notify o (event % 2 ^ 16))

-- sizeof(message) + (sa ? sa->len - sizeof(SockAddress) : 0), as an UInt16.
unfoldable pub needed_size : ℕ → Option SockAddress → ℕ
needed_size size none = size % 2 ^ 16
needed_size size (some sa) = (size + sa.len - size_of_sock_address) % 2 ^ 16

-- The messages that end with one address: with it alone behind the origin, or behind a protocol.
abbrev pub address_size : ℕ
address_size = size_of (origin (1 ∷ 1 ∷ []))

abbrev pub packet_size : ℕ
packet_size = size_of (origin (2 ∷ 1 ∷ 1 ∷ []))

abbrev pub create_address : ℕ → Bool → Origin → Option SockAddress → Option Message
create_address type fits o sa =
    create fits (needed_size address_size sa) type (Payload.address o (copied sa))

abbrev pub create_packet : ℕ → Bool → Origin → ℕ → Option SockAddress → Option Message
create_packet type fits o proto sa =
    create fits (needed_size packet_size sa) type (Payload.packet o (proto % 2 ^ 16) (copied sa))

unfoldable pub create_sflt_get_peer_name : Bool → Origin → Option SockAddress → Option Message
create_sflt_get_peer_name = create_address message_type_sflt_get_peer_name

unfoldable pub create_sflt_get_sock_name : Bool → Origin → Option SockAddress → Option Message
create_sflt_get_sock_name = create_address message_type_sflt_get_sock_name

unfoldable pub create_sflt_connect_in : Bool → Origin → Option SockAddress → Option Message
create_sflt_connect_in = create_address message_type_sflt_connect_in

unfoldable pub create_sflt_connect_out : Bool → Origin → Option SockAddress → Option Message
create_sflt_connect_out = create_address message_type_sflt_connect_out

unfoldable pub create_sflt_bind : Bool → Origin → Option SockAddress → Option Message
create_sflt_bind = create_address message_type_sflt_bind

unfoldable pub create_sflt_data_in : Bool → Origin → ℕ → Option SockAddress → Option Message
create_sflt_data_in = create_packet message_type_sflt_data_in

unfoldable pub create_sflt_data_out : Bool → Origin → ℕ → Option SockAddress → Option Message
create_sflt_data_out = create_packet message_type_sflt_data_out

unfoldable pub create_sflt_set_option : Bool → Origin → ℕ → Option Message
create_sflt_set_option fits o option_name =
    create fits (size_of (origin (4 ∷ []))) message_type_sflt_set_option
      (Payload.sock_option o option_name)

unfoldable pub create_sflt_get_option : Bool → Origin → ℕ → Option Message
create_sflt_get_option fits o option_name =
    create fits (size_of (origin (4 ∷ []))) message_type_sflt_get_option
      (Payload.sock_option o option_name)

unfoldable pub create_sflt_listen : Bool → Origin → Option Message
create_sflt_listen fits o =
    create fits (size_of (origin [])) message_type_sflt_listen (Payload.plain o)

unfoldable pub create_sflt_ioctl : Bool → Origin → ℕ → Option Message
create_sflt_ioctl fits o request =
    create fits (size_of (origin (4 ∷ []))) message_type_sflt_ioctl
      (Payload.ioctl o (request % 2 ^ 32))

-- RawMessageSfltAccept: pid, uid, soListen, so and `data`, of 4 bytes in the declaration.
abbrev pub accept_fields : List ℕ → List ℕ
accept_fields fs = base (4 ∷ 4 ∷ 8 ∷ 8 ∷ fs)

abbrev pub accept_size : ℕ
accept_size = size_of (accept_fields (1 ∷ 1 ∷ 1 ∷ 1 ∷ []))

unfoldable pub accept_needed_size : Option SockAddress → Option SockAddress → ℕ
unfolding copied
accept_needed_size local remote =
    (accept_size + (copied local).len + (copied remote).len - 4) % 2 ^ 16

unfoldable pub accept_data : Option SockAddress → Option SockAddress → List ℕ
unfolding copied_bytes
accept_data local remote = copied_bytes local ++ copied_bytes remote

unfoldable pub create_sflt_accept :
    Bool → Origin → ℕ → Option SockAddress → Option SockAddress → Option Message
unfolding accept_needed_size accept_data
create_sflt_accept fits o so_listen local remote =
    create fits (accept_needed_size local remote) message_type_sflt_accept
      (Payload.accept o.pid o.uid so_listen o.so (accept_data local remote))

unfoldable pub create_socket_open : Bool → ℕ → Option Message
create_socket_open fits so =
    create fits (size_of (base (8 ∷ []))) message_type_socket_open (Payload.sock so)

unfoldable pub create_socket_closed : Bool → ℕ → Option Message
create_socket_closed fits so =
    create fits (size_of (base (8 ∷ []))) message_type_socket_closed (Payload.sock so)
