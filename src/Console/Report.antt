-- ===== src/Console/Report.antt =====
-- What the console prints of a message (ConsoleTest/Console.cpp), by the call that created it (Kext/messages.cpp).
use watchfirewall.Prelude.{ℕ, ◌%◌, ◌^◌, Option, List, [], ◌∷◌, ◌++◌, some}
use watchfirewall.Messages.{Origin}
use watchfirewall.Messages.Address.{copied, SockAddress}
use watchfirewall.Console.Names.{Headers, get_sock_state_name, get_option_name}
use watchfirewall.Console.Handler.{
  Call, printf, Argument, number, string, chars, origin_arguments, subscribed_call, newline,
  attach_format, detach_format, notify_format, get_peer_name_format, get_sock_name_format,
  data_in_format, data_out_format, connect_in_format, connect_out_format, bind_format,
  set_option_format, get_option_format, listen_format, ioctl_format, accept_format,
}
use watchfirewall.Console.Address.{report_address}
use watchfirewall.Console.Events.{
  Event, text, attach, detach, notify, get_peer_name, get_sock_name, data_in, data_out, connect_in,
  connect_out, bind, set_option, get_option, listen, ioctl, accept, subscribed_to_info_sockets,
  closing, other,
}

abbrev pub origin_of : Origin → List Argument → List Argument
origin_of o rest = origin_arguments o.pid o.uid o.so rest

abbrev pub option_of : Headers → ℕ → List Argument
option_of h name = number name ∷ string (get_option_name h name) ∷ []

abbrev pub address_of : Headers → Option SockAddress → List Call
address_of h sa = report_address h (copied sa) ++ newline

-- The calls of printf for a message, in terms of the arguments of the Create function.
abbrev pub report : Headers → Event → List Call
report h (text vsnprintf formatted) = printf "%s \n" (chars (some formatted) ∷ []) ∷ []
report h (attach o proto) = printf attach_format (origin_of o (number (proto % 2 ^ 16) ∷ [])) ∷ []
report h (detach o) = printf detach_format (origin_of o []) ∷ []
report h (notify o event) =
    let state = event % 2 ^ 16 in
    printf notify_format (origin_of o (number state ∷ string (get_sock_state_name state) ∷ [])) ∷ []
report h (get_peer_name o sa) = printf get_peer_name_format (origin_of o []) ∷ address_of h sa
report h (get_sock_name o sa) = printf get_sock_name_format (origin_of o []) ∷ address_of h sa
report h (data_in o proto sa) =
    printf data_in_format (origin_of o (number (proto % 2 ^ 16) ∷ [])) ∷ address_of h sa
report h (data_out o proto sa) =
    printf data_out_format (origin_of o (number (proto % 2 ^ 16) ∷ [])) ∷ address_of h sa
report h (connect_in o sa) = printf connect_in_format (origin_of o []) ∷ address_of h sa
report h (connect_out o sa) = printf connect_out_format (origin_of o []) ∷ address_of h sa
report h (bind o sa) = printf bind_format (origin_of o []) ∷ address_of h sa
report h (set_option o name) = printf set_option_format (origin_of o (option_of h name)) ∷ []
report h (get_option o name) = printf get_option_format (origin_of o (option_of h name)) ∷ []
report h (listen o) = printf listen_format (origin_of o []) ∷ []
report h (ioctl o request) = printf ioctl_format (origin_of o []) ∷ []
report h (accept o so_listen local remote) =
    printf accept_format (origin_of o (number so_listen ∷ []))
    ∷ (report_address h (copied local) ++ (printf "remote: " [] ∷ address_of h remote))
report h (subscribed_to_info_sockets u c a) = subscribed_call a ∷ []
report h closing = printf "Connection Closing \n" [] ∷ []
report h (other m) = []
