-- ===== src/Console/Events.antt =====
-- The messages of Kext/messages.cpp that ConsoleTest/Console.cpp prints something of, as calls of their Create functions.
use watchfirewall.Prelude.{
  Bool, true, false, ◌==◌, ℕ, ◌^◌, ◌<◌, ◌≤◌, ◌≡◌, Option, none, some, List, [], ◌∷◌, length, All,
  Fresh,
}
use watchfirewall.Kernel.{word}
use watchfirewall.Firewall.Request.{Memory}
use watchfirewall.Messages.{Origin, Message}
use watchfirewall.Messages.Address.{SockAddress, copied}
use watchfirewall.Messages.Create.{
  create_client_subscribed_to_info_sockets, create_firewall_closing,
}
use watchfirewall.Messages.Debug.{
  create_sflt_attach, create_sflt_detach, create_sflt_notify, create_sflt_get_peer_name,
  create_sflt_get_sock_name, create_sflt_data_in, create_sflt_data_out, create_sflt_connect_in,
  create_sflt_connect_out, create_sflt_bind, create_sflt_set_option, create_sflt_get_option,
  create_sflt_listen, create_sflt_ioctl, create_sflt_accept,
}
use watchfirewall.Messages.Fits.{IsGood}
use watchfirewall.Messages.Text.{Vsnprintf, Formats, create_text}
use watchfirewall.Messages.Types.{
  message_type_client_subscribed_to_info_sockets, message_type_firewall_closing,
  message_type_sflt_accept, message_type_sflt_attach, message_type_sflt_bind,
  message_type_sflt_connect_in, message_type_sflt_connect_out, message_type_sflt_data_in,
  message_type_sflt_data_out, message_type_sflt_detach, message_type_sflt_get_option,
  message_type_sflt_get_peer_name, message_type_sflt_get_sock_name, message_type_sflt_ioctl,
  message_type_sflt_listen, message_type_sflt_notify, message_type_sflt_set_option,
  message_type_text,
}
use watchfirewall.Wire.{raw_bytes}
use watchfirewall.Wire.Sizes.{written_size}
use watchfirewall.Console.Names.{Headers}
use watchfirewall.Console.Address.{IsComplete}
use watchfirewall.Console.Fields.{InOrigin}

-- A call of a Create function, which finds memory. `other` is any message of a type that the console prints nothing of.
pub data Event : Type 0 where
  text : Vsnprintf → (formatted : List ℕ) → Event
  attach : Origin → (proto : ℕ) → Event
  detach : Origin → Event
  notify : Origin → (event : ℕ) → Event
  get_peer_name : Origin → Option SockAddress → Event
  get_sock_name : Origin → Option SockAddress → Event
  data_in : Origin → (proto : ℕ) → Option SockAddress → Event
  data_out : Origin → (proto : ℕ) → Option SockAddress → Event
  connect_in : Origin → Option SockAddress → Event
  connect_out : Origin → Option SockAddress → Event
  bind : Origin → Option SockAddress → Event
  set_option : Origin → (option_name : ℕ) → Event
  get_option : Origin → (option_name : ℕ) → Event
  listen : Origin → Event
  ioctl : Origin → (request : ℕ) → Event
  accept : Origin → (so_listen : ℕ) → (local remote : Option SockAddress) → Event
  subscribed_to_info_sockets : (unit_id client_message_id action_state : ℕ) → Event
  closing : Event
  other : Message → Event

abbrev pub created : Event → Option Message
created (text vsnprintf formatted) = create_text true true vsnprintf
created (attach o proto) = create_sflt_attach true o proto
created (detach o) = create_sflt_detach true o
created (notify o event) = create_sflt_notify true o event
created (get_peer_name o sa) = create_sflt_get_peer_name true o sa
created (get_sock_name o sa) = create_sflt_get_sock_name true o sa
created (data_in o proto sa) = create_sflt_data_in true o proto sa
created (data_out o proto sa) = create_sflt_data_out true o proto sa
created (connect_in o sa) = create_sflt_connect_in true o sa
created (connect_out o sa) = create_sflt_connect_out true o sa
created (bind o sa) = create_sflt_bind true o sa
created (set_option o name) = create_sflt_set_option true o name
created (get_option o name) = create_sflt_get_option true o name
created (listen o) = create_sflt_listen true o
created (ioctl o request) = create_sflt_ioctl true o request
created (accept o so_listen local remote) = create_sflt_accept true o so_listen local remote
created (subscribed_to_info_sockets u c a) = create_client_subscribed_to_info_sockets true u c a
created closing = create_firewall_closing true
created (other m) = some m

-- A message whose size counts what Init writes, and has the width of its field.
pub record IsSendable (m : Message) : Type 0 where
  pub room : written_size m ≤ m.size
  pub positive : 0 < m.size
  pub small : m.size < 2 ^ 16
  pub typed : m.type < 2 ^ 16

abbrev InAddress : Headers → Option SockAddress → Type 0
InAddress h sa = IsGood sa × IsComplete h (copied sa)

-- The types that the console prints something of: texts, and others.
abbrev pub other_types : List ℕ
other_types =
    message_type_client_subscribed_to_info_sockets ∷ message_type_sflt_attach
    ∷ message_type_sflt_detach ∷ message_type_sflt_notify ∷ message_type_sflt_get_peer_name
    ∷ message_type_sflt_get_sock_name ∷ message_type_sflt_data_in ∷ message_type_sflt_data_out
    ∷ message_type_sflt_connect_in ∷ message_type_sflt_connect_out ∷ message_type_sflt_bind
    ∷ message_type_sflt_set_option ∷ message_type_sflt_get_option ∷ message_type_sflt_listen
    ∷ message_type_sflt_ioctl ∷ message_type_sflt_accept ∷ message_type_firewall_closing ∷ []

abbrev pub printed_types : List ℕ
printed_types = message_type_text ∷ other_types

-- The arguments have the widths of their types; addresses are as long as they say, and a text has room, with no 0 in it.
abbrev pub InRange : Headers → Event → Type 0
InRange h (text vsnprintf formatted) =
    Formats vsnprintf formatted
    × (length formatted < 254)
    × All (λ c. (0 < c) × (c < 256)) formatted
InRange h (attach o proto) = InOrigin o
InRange h (detach o) = InOrigin o
InRange h (notify o event) = InOrigin o
InRange h (get_peer_name o sa) = InOrigin o × InAddress h sa
InRange h (get_sock_name o sa) = InOrigin o × InAddress h sa
InRange h (data_in o proto sa) = InOrigin o × InAddress h sa
InRange h (data_out o proto sa) = InOrigin o × InAddress h sa
InRange h (connect_in o sa) = InOrigin o × InAddress h sa
InRange h (connect_out o sa) = InOrigin o × InAddress h sa
InRange h (bind o sa) = InOrigin o × InAddress h sa
InRange h (set_option o name) = InOrigin o × (name < word)
InRange h (get_option o name) = InOrigin o × (name < word)
InRange h (listen o) = InOrigin o
InRange h (ioctl o request) = InOrigin o
InRange h (accept o so_listen local remote) =
    InOrigin o × (so_listen < 2 ^ 64) × InAddress h local × InAddress h remote
InRange h (subscribed_to_info_sockets u c a) = a < word
InRange h closing = Unit {0}
InRange h (other m) = IsSendable m × Fresh m.type printed_types

-- Whether the message tells that the extension closes.
abbrev pub is_closing : Event → Bool
is_closing closing = true
is_closing _ = false

-- The message that a call creates.
pub record Sent (e : Event) : Type 0 where
  pub sent_message : Message
  pub is_created : created e ≡ some sent_message
  pub sendable : IsSendable sent_message
  pub closes : (sent_message.type == message_type_firewall_closing) ≡ is_closing e

-- The bytes that the extension sends for a call.
abbrev pub event_bytes : Memory → Event → List ℕ
event_bytes found e = elim (created e) [ none ↦ [] | some m ↦ raw_bytes found m ]
