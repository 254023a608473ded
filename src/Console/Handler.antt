-- ===== src/Console/Handler.antt =====
-- printfSockaddr and ReciveMessageHandler of ConsoleTest/Console.cpp: the calls of printf for a message that stands in the
-- buffer. Fields are read at the offsets of the raw messages of Shared/messageType.h.
use Prim.Native.String.{String}
use watchfirewall.Prelude.{
  ℕ, ◌+◌, ◌*◌, ◌^◌, Option, List, [], ◌∷◌, ◌++◌, ◌==◌, if◌then◌else◌, switch,
}
use watchfirewall.Firewall.Request.{Memory, read_16, read_32, message_type, c_string, bytes_from}
use watchfirewall.Messages.Layout.{round_up, end_of, base, origin}
use watchfirewall.Messages.Debug.{accept_fields}
use watchfirewall.Messages.Types.{
  message_type_text, message_type_sflt_attach, message_type_sflt_detach, message_type_sflt_notify,
  message_type_sflt_get_peer_name, message_type_sflt_get_sock_name, message_type_sflt_data_in,
  message_type_sflt_data_out, message_type_sflt_connect_in, message_type_sflt_connect_out,
  message_type_sflt_bind, message_type_sflt_set_option, message_type_sflt_get_option,
  message_type_sflt_listen, message_type_sflt_ioctl, message_type_sflt_accept,
  message_type_client_subscribed_to_info_sockets, message_type_firewall_closing,
}
use watchfirewall.Console.Names.{
  Headers, get_sock_state_name, get_option_name, get_sock_family_name,
}
use watchfirewall.Console.PortNames.{get_port_name}

-- An argument of printf: a number, a text of the program, or the bytes up to the 0 that ends them.
pub data Argument : Type 0 where
  number : ℕ → Argument
  string : String → Argument
  chars : Option (List ℕ) → Argument
  buffer : List ℕ → Argument

pub data Call : Type 0 where
  printf : (format : String) → List Argument → Call

abbrev pub read_64 : Memory → ℕ → ℕ
read_64 mem at = read_32 mem at + 2 ^ 32 * read_32 mem (at + 4)

-- The offset of a field of a width behind others.
abbrev offset : List ℕ → ℕ → ℕ
offset before width = round_up (end_of 0 before) width

-- What stands first on the line of a debug message, with pid, uid and so.
abbrev pub origin_arguments : (pid uid so : ℕ) → List Argument → List Argument
origin_arguments pid uid so rest = number pid ∷ number uid ∷ number so ∷ rest

abbrev pub origin_at : Memory → ℕ → List Argument → List Argument
origin_at mem at rest =
    origin_arguments (read_32 mem (at + offset (base []) 4))
      (read_32 mem (at + offset (base (4 ∷ [])) 4))
      (read_64 mem (at + offset (base (4 ∷ 4 ∷ [])) 8)) rest

-- The printed parts of an address: of its family, its port and the bytes of its number.
abbrev pub family_call : Headers → ℕ → Call
family_call h family =
    printf "family: %d(%s)  " (number family ∷ string (get_sock_family_name h family) ∷ [])

abbrev pub address_call : Headers → (family port : ℕ) → List ℕ → Call
address_call h family port bytes =
    printf "address: %s  port: %d(%s)  "
      (buffer (h.inet_ntop family bytes) ∷ number port ∷ string (get_port_name port) ∷ [])

-- printfSockaddr, at an address that is not NULL.
unfoldable pub printf_sockaddr : Headers → Memory → ℕ → List Call
printf_sockaddr h mem sa =
    let family = mem (sa + 1) in
    let port = h.ntohs (read_16 mem (sa + 2)) in
    if family == h.af_unspec
    then printf "undefined  " [] ∷ []
    else family_call h family
      ∷ (if family == h.af_inet
          then address_call h family port (bytes_from 4 mem (sa + 4)) ∷ []
          else if family == h.af_inet6
          then address_call h family port (bytes_from 16 mem (sa + 8)) ∷ []
          else printf "address unsuported  " [] ∷ [])

-- The formats of the lines.
abbrev pub attach_format : String
attach_format = "attach       -> pid: %-4lu  uid: %-4lu so: %-12llu  proto: %4u\n"

abbrev pub detach_format : String
detach_format = "deatch       -> pid: %-4lu  uid: %-4lu so: %-12llu\n"

abbrev pub notify_format : String
notify_format = "notify       -> pid: %-4lu  uid: %-4lu so: %-12llu  event: %u(%s)\n"

abbrev pub get_peer_name_format : String
get_peer_name_format = "get peer name-> pid: %-4lu  uid: %-4lu so: %-12llu  sa: "

abbrev pub get_sock_name_format : String
get_sock_name_format = "get sock name-> pid: %-4lu  uid: %-4lu so: %-12llu  sa: "

abbrev pub data_in_format : String
data_in_format = "data in      -> pid: %-4lu  uid: %-4lu so: %-12llu  proto: %4u  from: "

abbrev pub data_out_format : String
data_out_format = "data out     -> pid: %-4lu  uid: %-4lu so: %-12llu  proto: %4u  to  : "

abbrev pub connect_in_format : String
connect_in_format = "connect in   -> pid: %-4lu  uid: %-4lu so: %-12llu  from: "

abbrev pub connect_out_format : String
connect_out_format = "connect out  -> pid: %-4lu  uid: %-4lu so: %-12llu  to: "

abbrev pub bind_format : String
bind_format = "bind         -> pid: %-4lu  uid: %-4lu so: %-12llu  to: "

abbrev pub set_option_format : String
set_option_format = "set option   -> pid: %-4lu  uid: %-4lu so: %-12llu  opt: Ox%04x(%s) \n"

abbrev pub get_option_format : String
get_option_format = "get option   -> pid: %-4lu  uid: %-4lu so: %-12llu  opt: 0x%04x(%s) \n"

abbrev pub listen_format : String
listen_format = "listen       -> pid: %-4lu  uid: %-4lu so: %-12llu \n"

abbrev pub ioctl_format : String
ioctl_format = "ioctl        -> pid: %-4lu  uid: %-4lu so: %-12llu \n"

abbrev pub accept_format : String
accept_format = "accept       -> pid: %-4lu  uid: %-4lu so: %-12llu  soListen: %llu  local: "

abbrev pub newline : List Call
newline = printf "\n" [] ∷ []

-- The field behind pid, uid and so, of a width.
abbrev behind : ℕ → ℕ
behind width = offset (origin []) width

-- The address behind pid, uid, so, or behind a protocol too. It is aligned to 1.
abbrev pub address_line : String → Headers → Memory → ℕ → List Call
address_line format h mem at =
    printf format (origin_at mem at []) ∷ (printf_sockaddr h mem (at + behind 1) ++ newline)

abbrev pub packet_line : String → Headers → Memory → ℕ → List Call
packet_line format h mem at =
    printf format (origin_at mem at (number (read_16 mem (at + behind 2)) ∷ []))
    ∷ (printf_sockaddr h mem (at + offset (origin (2 ∷ [])) 1) ++ newline)

abbrev pub option_line : String → Headers → Memory → ℕ → List Call
option_line format h mem at =
    let name = read_32 mem (at + behind 4) in
    printf format (origin_at mem at (number name ∷ string (get_option_name h name) ∷ [])) ∷ []

abbrev pub plain_line : String → Memory → ℕ → List Call
plain_line format mem at = printf format (origin_at mem at []) ∷ []

-- pid, uid, soListen, so, and the two addresses, which GetLocal and GetRemote find.
abbrev pub accept_line : Headers → Memory → ℕ → List Call
accept_line h mem at =
    let local = at + offset (accept_fields []) 1 in
    printf accept_format (
      number (read_32 mem (at + offset (base []) 4))
      ∷ number (read_32 mem (at + offset (base (4 ∷ [])) 4))
      ∷ number (read_64 mem (at + offset (base (4 ∷ 4 ∷ 8 ∷ [])) 8))
      ∷ number (read_64 mem (at + offset (base (4 ∷ 4 ∷ [])) 8))
      ∷ [])
    ∷ (printf_sockaddr h mem local
        ++ (printf "remote: " [] ∷ (printf_sockaddr h mem (local + mem local) ++ newline)))

-- `rawMessage->actionState ? "success" : "error"`
abbrev pub subscribed_call : ℕ → Call
subscribed_call action_state =
    printf "client registred for info rule: %s"
      (string (if action_state == 0 then "error" else "success") ∷ [])

-- The cases of the switch that print. `fuel` bounds the text of a text message.
abbrev pub cases : Headers → ℕ → Memory → ℕ → List (ℕ × List Call)
cases h fuel mem at =
    (
      message_type_text,
      printf "%s \n" (chars (c_string fuel mem (at + offset (base []) 1)) ∷ []) ∷ [],
    )
    ∷ (
      message_type_client_subscribed_to_info_sockets,
      subscribed_call (read_32 mem (at + offset (base (4 ∷ 4 ∷ [])) 4)) ∷ [],
    )
    ∷ (
      message_type_sflt_attach,
      printf attach_format (origin_at mem at (number (read_16 mem (at + behind 2)) ∷ [])) ∷ [],
    )
    ∷ (message_type_sflt_detach, plain_line detach_format mem at)
    ∷ (
      message_type_sflt_notify,
      let event = read_16 mem (at + behind 2) in
          printf notify_format
            (origin_at mem at (number event ∷ string (get_sock_state_name event) ∷ []))
          ∷ [],
    )
    ∷ (message_type_sflt_get_peer_name, address_line get_peer_name_format h mem at)
    ∷ (message_type_sflt_get_sock_name, address_line get_sock_name_format h mem at)
    ∷ (message_type_sflt_data_in, packet_line data_in_format h mem at)
    ∷ (message_type_sflt_data_out, packet_line data_out_format h mem at)
    ∷ (message_type_sflt_connect_in, address_line connect_in_format h mem at)
    ∷ (message_type_sflt_connect_out, address_line connect_out_format h mem at)
    ∷ (message_type_sflt_bind, address_line bind_format h mem at)
    ∷ (message_type_sflt_set_option, option_line set_option_format h mem at)
    ∷ (message_type_sflt_get_option, option_line get_option_format h mem at)
    ∷ (message_type_sflt_listen, plain_line listen_format mem at)
    ∷ (message_type_sflt_ioctl, plain_line ioctl_format mem at)
    ∷ (message_type_sflt_accept, accept_line h mem at)
    ∷ (message_type_firewall_closing, printf "Connection Closing \n" [] ∷ [])
    ∷ []

-- ReciveMessageHandler. The cases that print nothing only name the message.
unfoldable pub receive_message_handler : Headers → ℕ → Memory → ℕ → List Call
unfolding switch
receive_message_handler h fuel mem at = switch (cases h fuel mem at) [] (message_type mem at)
