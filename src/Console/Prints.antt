-- ===== src/Console/Prints.antt =====
-- ReciveMessageHandler (ConsoleTest/Console.cpp) on the bytes of a message of the extension (Kext/messages.cpp).
use watchfirewall.Prelude.{
  ℕ, ◌+◌, ◌-◌, ◌%◌, ◌^◌, ◌<◌, ◌≡◌, refl, subst, ap, ◌∙◌, some, none, List, [], ◌∷◌, ◌++◌, arith,
  length, switch, switch-Fresh,
}
use watchfirewall.Firewall.Request.{Memory, bytes_from}
use watchfirewall.Firewall.Reads.{Stands, Stands-left, Stands-to, read_32-Stands, joined_32}
use watchfirewall.Messages.{Message, Payload}
use watchfirewall.Messages.Debug.{
  create_sflt_attach, create_sflt_detach, create_sflt_notify, create_sflt_get_peer_name,
  create_sflt_get_sock_name, create_sflt_data_in, create_sflt_data_out, create_sflt_connect_in,
  create_sflt_connect_out, create_sflt_bind, create_sflt_set_option, create_sflt_get_option,
  create_sflt_listen, create_sflt_ioctl, create_sflt_accept, needed_size, address_size, packet_size,
  accept_needed_size,
}
use watchfirewall.Messages.Create.{
  create_client_subscribed_to_info_sockets, create_firewall_closing, response_size,
}
use watchfirewall.Messages.Layout.{size_of, origin}
use watchfirewall.Messages.Text.{create_text_whole}
use watchfirewall.Messages.Types.{
  message_type_client_subscribed_to_info_sockets, message_type_sflt_accept,
  message_type_sflt_attach, message_type_sflt_bind, message_type_sflt_connect_in,
  message_type_sflt_connect_out, message_type_sflt_data_in, message_type_sflt_data_out,
  message_type_sflt_detach, message_type_sflt_get_option, message_type_sflt_get_peer_name,
  message_type_sflt_get_sock_name, message_type_sflt_ioctl, message_type_sflt_listen,
  message_type_sflt_notify, message_type_sflt_set_option, message_type_text,
}
use watchfirewall.Wire.{u16, u32, written, fields, tail, laid, raw_bytes}
use watchfirewall.Console.Names.{Headers, get_sock_state_name}
use watchfirewall.Console.Handler.{
  Call, printf, number, string, chars, cases, receive_message_handler, subscribed_call,
  attach_format, detach_format, notify_format, get_peer_name_format, get_sock_name_format,
  data_in_format, data_out_format, connect_in_format, connect_out_format, bind_format,
  set_option_format, get_option_format, listen_format, ioctl_format,
}
use watchfirewall.Console.Fields.{laid-type}
use watchfirewall.Console.Lines.{
  plain_line-laid, origin-laid_16, option_line-laid, address_line-laid, packet_line-laid,
  accept_line-laid, c_string-Stands,
}
use watchfirewall.Console.Report.{report}
use watchfirewall.Console.Events.{
  Event, text, attach, detach, notify, get_peer_name, get_sock_name, data_in, data_out, connect_in,
  connect_out, bind, set_option, get_option, listen, ioctl, accept, subscribed_to_info_sockets,
  closing, other, InRange, event_bytes,
}

-- What Init wrote stands at the start of the message.
pub raw-written :
    (mem found : Memory) (at : ℕ) (m : Message)
    → Stands mem at (raw_bytes found m)
    → Stands mem at (written found m)
unfolding raw_bytes
raw-written mem found at m h =
    let front = written found m in
    Stands-left mem at front (bytes_from (m.size - length front) found (length front)) h

module _ (h : Headers) (fuel : ℕ) (mem found : Memory) (at : ℕ) where
  -- The type chooses the case.
  by_type :
      (m : Message) (calls : List Call)
      → m.type < 65536
      → (Stands mem at (written found m) → switch (cases h fuel mem at) [] m.type ≡ calls)
      → Stands mem at (raw_bytes found m)
      → receive_message_handler h fuel mem at ≡ calls
  unfolding receive_message_handler
  by_type m calls l k s =
      let front = raw-written mem found at m s in
      ap (switch (cases h fuel mem at) [])
        (laid-type mem found at m.size m.type (fields m.payload) (tail m.payload) front l)
      ∙ k front

  -- The console prints of a message that stands in its buffer what the call that created it was about.
  pub receive_message_handler-report :
      (e : Event)
      → InRange h e
      → 254 < fuel
      → Stands mem at (event_bytes found e)
      → receive_message_handler h fuel mem at ≡ report h e
  unfolding switch create_sflt_attach create_sflt_detach create_sflt_notify
      create_sflt_get_peer_name create_sflt_get_sock_name create_sflt_data_in create_sflt_data_out
      create_sflt_connect_in create_sflt_connect_out create_sflt_bind create_sflt_set_option
      create_sflt_get_option create_sflt_listen create_sflt_ioctl create_sflt_accept
      create_client_subscribed_to_info_sockets create_firewall_closing
  receive_message_handler-report (text v s) i l k =
      let m : Message = record {
        size = length s + 5;
        type = message_type_text;
        payload = Payload.text (s ++ 0 ∷ []);
      } in
      by_type m _ (omega arith)
        (λ t.
          let header = laid found 0 (u16 m.size ∷ u16 m.type ∷ []) in
          let buffer = Stands-to mem at header (s ++ 0 ∷ []) t (at + 4) refl in
          ap (λ o. printf "%s \n" (chars o ∷ []) ∷ [])
            (c_string-Stands fuel mem (at + 4) s [] (omega (arith, l, i.1)) i.2 buffer))
        (subst (λ o. Stands mem at (elim o [ none ↦ [] | some m ↦ raw_bytes found m ]))
          (create_text_whole v s i.0 (omega (arith, i.1)) i.1) k)
  receive_message_handler-report (attach o proto) i l k =
      by_type _ _ (omega arith)
        (λ s.
          ap (λ a. printf attach_format a ∷ [])
            (origin-laid_16 h mem found at (size_of (origin (2 ∷ []))) message_type_sflt_attach o i
              (proto % 2 ^ 16) [] (λ n. number n ∷ []) (omega arith) s))
        k
  receive_message_handler-report (notify o event) i l k =
      by_type _ _ (omega arith)
        (λ s.
          ap (λ a. printf notify_format a ∷ [])
            (origin-laid_16 h mem found at (size_of (origin (2 ∷ []))) message_type_sflt_notify o i
              (event % 2 ^ 16) [] (λ n. number n ∷ string (get_sock_state_name n) ∷ [])
              (omega arith) s))
        k
  receive_message_handler-report (detach o) i l k =
      by_type _ _ (omega arith)
        (plain_line-laid h mem found at (size_of (origin [])) message_type_sflt_detach o i
          detach_format [] [])
        k
  receive_message_handler-report (listen o) i l k =
      by_type _ _ (omega arith)
        (plain_line-laid h mem found at (size_of (origin [])) message_type_sflt_listen o i
          listen_format [] [])
        k
  receive_message_handler-report (ioctl o request) i l k =
      by_type _ _ (omega arith)
        (plain_line-laid h mem found at (size_of (origin (4 ∷ []))) message_type_sflt_ioctl o i
          ioctl_format (u32 (request % 2 ^ 32) ∷ []) [])
        k
  receive_message_handler-report (set_option o name) i l k =
      by_type _ _ (omega arith)
        (option_line-laid h mem found at (size_of (origin (4 ∷ []))) message_type_sflt_set_option o
          i.0 set_option_format name [] i.1)
        k
  receive_message_handler-report (get_option o name) i l k =
      by_type _ _ (omega arith)
        (option_line-laid h mem found at (size_of (origin (4 ∷ []))) message_type_sflt_get_option o
          i.0 get_option_format name [] i.1)
        k
  receive_message_handler-report (get_peer_name o sa) i l k =
      by_type _ _ (omega arith)
        (address_line-laid h mem found at (needed_size address_size sa)
          message_type_sflt_get_peer_name o i.0 sa i.1.0 i.1.1 get_peer_name_format)
        k
  receive_message_handler-report (get_sock_name o sa) i l k =
      by_type _ _ (omega arith)
        (address_line-laid h mem found at (needed_size address_size sa)
          message_type_sflt_get_sock_name o i.0 sa i.1.0 i.1.1 get_sock_name_format)
        k
  receive_message_handler-report (connect_in o sa) i l k =
      by_type _ _ (omega arith)
        (address_line-laid h mem found at (needed_size address_size sa) message_type_sflt_connect_in
          o i.0 sa i.1.0 i.1.1 connect_in_format)
        k
  receive_message_handler-report (connect_out o sa) i l k =
      by_type _ _ (omega arith)
        (address_line-laid h mem found at (needed_size address_size sa)
          message_type_sflt_connect_out o i.0 sa i.1.0 i.1.1 connect_out_format)
        k
  receive_message_handler-report (bind o sa) i l k =
      by_type _ _ (omega arith)
        (address_line-laid h mem found at (needed_size address_size sa) message_type_sflt_bind o i.0
          sa i.1.0 i.1.1 bind_format)
        k
  receive_message_handler-report (data_in o proto sa) i l k =
      by_type _ _ (omega arith)
        (packet_line-laid h mem found at (needed_size packet_size sa) message_type_sflt_data_in o
          i.0 sa i.1.0 i.1.1 data_in_format (proto % 2 ^ 16) (omega arith))
        k
  receive_message_handler-report (data_out o proto sa) i l k =
      by_type _ _ (omega arith)
        (packet_line-laid h mem found at (needed_size packet_size sa) message_type_sflt_data_out o
          i.0 sa i.1.0 i.1.1 data_out_format (proto % 2 ^ 16) (omega arith))
        k
  receive_message_handler-report (accept o so_listen local remote) i l k =
      by_type _ _ (omega arith)
        (accept_line-laid h mem found at (accept_needed_size local remote) message_type_sflt_accept
          o i.0 so_listen i.1 local remote i.2.0 i.2.1 i.3.0 i.3.1)
        k
  receive_message_handler-report (subscribed_to_info_sockets u c a) i l k =
      let m : Message = record {
        size = response_size;
        type = message_type_client_subscribed_to_info_sockets;
        payload = Payload.response u c a;
      } in
      by_type m _ (omega arith)
        (λ t.
          ap (λ n. subscribed_call n ∷ [])
            (read_32-Stands mem at (written found m) t 12 (omega arith) ∙ joined_32 a i))
        k
  receive_message_handler-report closing i l k = by_type _ _ (omega arith) (λ s. refl) k
  receive_message_handler-report (other m) i l k =
      by_type m _ i.0.typed (λ s. switch-Fresh (cases h fuel mem at) [] m.type i.1) k
