-- ===== src/Messages.antt =====
-- Shared/messageType.h and Kext/messages.cpp: the messages between the extension and its clients.
pub mod Types
pub mod Layout
pub mod Address
pub mod Create
pub mod Debug
pub mod Fits
pub mod Requests
pub mod SocketData
pub mod Text
use watchfirewall.Prelude.{ℕ, List, Option, none, some, Bool, if◌then◌else◌}
use watchfirewall.Messages.Address.{SockAddress}

-- The process, user and socket that a debug message is about.
pub record Origin : Type 0 where
  pub pid : ℕ
  pub uid : ℕ
  pub so : ℕ

-- What stands behind the header of a message.
pub data Payload : Type 0 where
  nothing : Payload
  -- unitId, clientMessageId, actionState
  response : (unit_id client_message_id action_state : ℕ) → Payload
  rule_response : (unit_id client_message_id action_state rule_id : ℕ) → Payload
  attach : Origin → (proto : ℕ) → Payload
  plain : Origin → Payload
  notify : Origin → (event : ℕ) → Payload
  address : Origin → SockAddress → Payload
  packet : Origin → (proto : ℕ) → SockAddress → Payload
  sock_option : Origin → (option_name : ℕ) → Payload
  ioctl : Origin → (request : ℕ) → Payload
  -- pid, uid, soListen, so and the bytes of both addresses
  accept : (pid uid so_listen so : ℕ) → (bytes : List ℕ) → Payload
  sock : (so : ℕ) → Payload
  -- stateOperation, direction, stateByRuleId, packets, bytes, and the bytes of both addresses
  socket_data :
      Origin
      → (state_operation direction state_by_rule_id packets bytes : ℕ) → (both : List ℕ) → Payload
  -- textBuffer
  text : (text_buffer : List ℕ) → Payload

pub record Message : Type 0 where
  pub size : ℕ
  pub type : ℕ
  pub payload : Payload

-- `new(size) Message`, which may fail, and the Init of the raw message.
abbrev pub create : Bool → ℕ → ℕ → Payload → Option Message
create fits size type payload =
    if fits then some (record { size = size; type = type; payload = payload }) else none

-- `rawResponce->actionState = state`
unfoldable pub set_action_state : ℕ → Message → Message
set_action_state state m = elim m.payload [
  | response u c a ↦ record m { payload = Payload.response u c state }
  | rule_response u c a r ↦ record m { payload = Payload.rule_response u c state r }
  | _ ↦ m
]
