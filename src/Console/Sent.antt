-- ===== src/Console/Sent.antt =====
-- The messages that ConsoleTest/Console.cpp prints something of are sent whole: their size counts what Init writes.
use watchfirewall.Prelude.{
  ◌==◌, ==-ne, Fresh-last, ℕ, ◌+◌, ◌-◌, ◌<◌, ◌≤◌, ◌^◌, ◌%◌, ◌≡◌, refl, some, none, Option, [], ◌∷◌,
  length, length-append, arith,
}
use watchfirewall.Messages.{Origin, Payload, Message}
use watchfirewall.Messages.Address.{copied, copied_bytes, SockAddress}
use watchfirewall.Messages.Debug.{
  create_sflt_attach, create_sflt_detach, create_sflt_notify, create_sflt_get_peer_name,
  create_sflt_get_sock_name, create_sflt_data_in, create_sflt_data_out, create_sflt_connect_in,
  create_sflt_connect_out, create_sflt_bind, create_sflt_set_option, create_sflt_get_option,
  create_sflt_listen, create_sflt_ioctl, create_sflt_accept, needed_size, address_size, packet_size,
  accept_needed_size, accept_data,
}
use watchfirewall.Messages.Create.{
  create_client_subscribed_to_info_sockets, create_firewall_closing,
}
use watchfirewall.Messages.Fits.{IsGood, copied-IsAddress, length-copied_bytes}
use watchfirewall.Messages.Text.{create_text_whole}
use watchfirewall.Messages.Types.{
  message_type_firewall_closing, message_type_text, message_type_sflt_accept,
  message_type_sflt_bind, message_type_sflt_connect_in, message_type_sflt_connect_out,
  message_type_sflt_data_in, message_type_sflt_data_out, message_type_sflt_get_peer_name,
  message_type_sflt_get_sock_name,
}
use watchfirewall.Console.Names.{Headers}
use watchfirewall.Console.Events.{
  Event, text, attach, detach, notify, get_peer_name, get_sock_name, data_in, data_out, connect_in,
  connect_out, bind, set_option, get_option, listen, ioctl, accept, subscribed_to_info_sockets,
  closing, other, created, is_closing, IsSendable, Sent, InRange, other_types,
}

pub length-tail :
    (sa : Option SockAddress)
    → IsGood sa
    → length (copied_bytes (some (copied sa))) ≡ (copied sa).len
unfolding copied copied_bytes
length-tail none g = length-copied_bytes none g
length-tail (some a) g = length-copied_bytes (some a) g

needed_size_lem :
    (size : ℕ) (sa : Option SockAddress)
    → IsGood sa
    → size < 256
    → 2 ≤ size
    → needed_size size sa ≡ size + (copied sa).len - 2
unfolding needed_size copied
needed_size_lem size none g l m = omega arith
needed_size_lem size (some a) g l m = omega (arith, g.1)

-- A message of a type below 2 ^ 16 whose size counts what Init writes.
created-Sent_of :
    (e : Event) (m : Message)
    → created e ≡ some m
    → IsSendable m
    → (m.type == message_type_firewall_closing) ≡ is_closing e
    → Sent e
created-Sent_of e m c s t = record { sent_message = m; is_created = c; sendable = s; closes = t }

address-IsSendable :
    (type : ℕ) (o : Origin) (sa : Option SockAddress)
    → type < 2 ^ 16
    → IsGood sa
    → IsSendable (record {
      size = needed_size address_size sa;
      type = type;
      payload = Payload.address o (copied sa);
    })
address-IsSendable type o sa t g =
    let long = needed_size_lem address_size sa g (omega arith) (omega arith) in
    let good = copied-IsAddress sa g in omega (arith, long, length-tail sa g)

packet-IsSendable :
    (type proto : ℕ) (o : Origin) (sa : Option SockAddress)
    → type < 2 ^ 16
    → IsGood sa
    → IsSendable (record {
      size = needed_size packet_size sa;
      type = type;
      payload = Payload.packet o proto (copied sa);
    })
packet-IsSendable type proto o sa t g =
    let long = needed_size_lem packet_size sa g (omega arith) (omega arith) in
    let good = copied-IsAddress sa g in omega (arith, long, length-tail sa g)

accept-IsSendable :
    (pid uid so_listen so : ℕ) (local remote : Option SockAddress)
    → IsGood local
    → IsGood remote
    → IsSendable (record {
      size = accept_needed_size local remote;
      type = message_type_sflt_accept;
      payload = Payload.accept pid uid so_listen so (accept_data local remote);
    })
unfolding accept_needed_size accept_data
accept-IsSendable pid uid so_listen so local remote g k =
    let l = copied-IsAddress local g in
    let r = copied-IsAddress remote k in
    let both = length-append (copied_bytes local) (copied_bytes remote) in
    let first = length-copied_bytes local g in
    let second = length-copied_bytes remote k in omega (arith, both, first, second, l.1, r.1)

pub created-Sent : (h : Headers) (e : Event) → InRange h e → Sent e
unfolding create_sflt_attach create_sflt_detach create_sflt_notify create_sflt_get_peer_name
    create_sflt_get_sock_name create_sflt_data_in create_sflt_data_out create_sflt_connect_in
    create_sflt_connect_out create_sflt_bind create_sflt_set_option create_sflt_get_option
    create_sflt_listen create_sflt_ioctl create_sflt_accept create_client_subscribed_to_info_sockets
    create_firewall_closing
created-Sent h (text v s) i =
    created-Sent_of (text v s) _ (create_text_whole v s i.0 (omega (arith, i.1)) i.1)
      (omega (arith, length-append s (0 ∷ []))) refl
created-Sent h (attach o proto) i = created-Sent_of (attach o proto) _ refl (omega arith) refl
created-Sent h (detach o) i = created-Sent_of (detach o) _ refl (omega arith) refl
created-Sent h (notify o event) i = created-Sent_of (notify o event) _ refl (omega arith) refl
created-Sent h (set_option o name) i = created-Sent_of (set_option o name) _ refl (omega arith) refl
created-Sent h (get_option o name) i = created-Sent_of (get_option o name) _ refl (omega arith) refl
created-Sent h (listen o) i = created-Sent_of (listen o) _ refl (omega arith) refl
created-Sent h (ioctl o request) i = created-Sent_of (ioctl o request) _ refl (omega arith) refl
created-Sent h (subscribed_to_info_sockets u c a) i =
    created-Sent_of (subscribed_to_info_sockets u c a) _ refl (omega arith) refl
created-Sent h closing i = created-Sent_of closing _ refl (omega arith) refl
created-Sent h (get_peer_name o sa) i =
    created-Sent_of (get_peer_name o sa) _ refl
      (address-IsSendable message_type_sflt_get_peer_name o sa (omega arith) i.1.0) refl
created-Sent h (get_sock_name o sa) i =
    created-Sent_of (get_sock_name o sa) _ refl
      (address-IsSendable message_type_sflt_get_sock_name o sa (omega arith) i.1.0) refl
created-Sent h (connect_in o sa) i =
    created-Sent_of (connect_in o sa) _ refl
      (address-IsSendable message_type_sflt_connect_in o sa (omega arith) i.1.0) refl
created-Sent h (connect_out o sa) i =
    created-Sent_of (connect_out o sa) _ refl
      (address-IsSendable message_type_sflt_connect_out o sa (omega arith) i.1.0) refl
created-Sent h (bind o sa) i =
    created-Sent_of (bind o sa) _ refl
      (address-IsSendable message_type_sflt_bind o sa (omega arith) i.1.0) refl
created-Sent h (data_in o proto sa) i =
    created-Sent_of (data_in o proto sa) _ refl
      (packet-IsSendable message_type_sflt_data_in (proto % 2 ^ 16) o sa (omega arith) i.1.0) refl
created-Sent h (data_out o proto sa) i =
    created-Sent_of (data_out o proto sa) _ refl
      (packet-IsSendable message_type_sflt_data_out (proto % 2 ^ 16) o sa (omega arith) i.1.0) refl
created-Sent h (accept o so_listen local remote) i =
    created-Sent_of (accept o so_listen local remote) _ refl
      (accept-IsSendable o.pid o.uid so_listen o.so local remote i.2.0 i.3.0) refl
created-Sent h (other m) i = created-Sent_of (other m) m refl i.0 (
    ==-ne m.type message_type_firewall_closing
      (Fresh-last m.type message_type_text other_types i.1))
