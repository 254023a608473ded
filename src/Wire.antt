-- ===== src/Wire.antt =====
-- The bytes of the messages of Shared/messageType.h, as the Init functions of the raw messages write them to what `new`
-- gives: the fields, each aligned to its own size, in little-endian order, as on x86_64.
pub mod Sizes
use watchfirewall.Prelude.{ℕ, ◌+◌, ◌-◌, ◌/◌, ◌%◌, ◌^◌, some, List, [], ◌∷◌, ◌++◌, length, map}
use watchfirewall.Firewall.Request.{Memory, bytes_from}
use watchfirewall.Messages.{Origin, Payload, Message}
use watchfirewall.Messages.Address.{SockAddress, copied_bytes}
use watchfirewall.Messages.Layout.{round_up}
use watchfirewall.Messages.Requests.{bytes_16, bytes_32}

pub data Field : Type 0 where
  u8 u16 u32 u64 : ℕ → Field

abbrev pub width : Field → ℕ
width (u8 v) = 1
width (u16 v) = 2
width (u32 v) = 4
width (u64 v) = 8

abbrev pub field_bytes : Field → List ℕ
field_bytes (u8 v) = v % 256 ∷ []
field_bytes (u16 v) = bytes_16 v
field_bytes (u32 v) = bytes_32 v
field_bytes (u64 v) = bytes_32 v ++ bytes_32 (v / 2 ^ 32)

-- The fields from an offset on. Between them stands what `new` found there.
abbrev pub laid : (found : Memory) → ℕ → List Field → List ℕ
laid found at [] = []
laid found at (f ∷ fs) =
    bytes_from (round_up at (width f) - at) found at
    ++ (field_bytes f ++ laid found (round_up at (width f) + width f) fs)

abbrev pub origin_fields : Origin → List Field → List Field
origin_fields o fs = u32 o.pid ∷ u32 o.uid ∷ u64 o.so ∷ fs

-- The fields behind the size and the type.
abbrev pub fields : Payload → List Field
fields Payload.nothing = []
fields (Payload.response u c a) = u32 u ∷ u32 c ∷ u32 a ∷ []
fields (Payload.rule_response u c a r) = u32 u ∷ u32 c ∷ u32 a ∷ u32 r ∷ []
fields (Payload.attach o proto) = origin_fields o (u16 proto ∷ [])
fields (Payload.plain o) = origin_fields o []
fields (Payload.notify o event) = origin_fields o (u16 event ∷ [])
fields (Payload.address o sa) = origin_fields o []
fields (Payload.packet o proto sa) = origin_fields o (u16 proto ∷ [])
fields (Payload.sock_option o name) = origin_fields o (u32 name ∷ [])
fields (Payload.ioctl o request) = origin_fields o (u32 request ∷ [])
fields (Payload.accept pid uid so_listen so both) = u32 pid ∷ u32 uid ∷ u64 so_listen ∷ u64 so ∷ []
fields (Payload.sock so) = u64 so ∷ []
fields (Payload.socket_data o state direction rule packets bytes both) =
    u8 state ∷ u8 direction ∷ u32 rule ∷ origin_fields o (u32 packets ∷ u32 bytes ∷ [])
fields (Payload.text text_buffer) = []

-- The bytes behind the fields.
abbrev pub tail : Payload → List ℕ
tail (Payload.address o sa) = copied_bytes (some sa)
tail (Payload.packet o proto sa) = copied_bytes (some sa)
tail (Payload.accept pid uid so_listen so both) = both
tail (Payload.socket_data o state direction rule packets bytes both) = both
tail (Payload.text text_buffer) = text_buffer
tail _ = []

-- What Init writes.
abbrev pub written : Memory → Message → List ℕ
written found m = laid found 0 (u16 m.size ∷ u16 m.type ∷ fields m.payload) ++ tail m.payload

-- The `size` bytes of the message. Behind what Init writes stands what `new` found there.
unfoldable pub raw_bytes : Memory → Message → List ℕ
raw_bytes found m =
    let front = written found m in front ++ bytes_from (m.size - length front) found (length front)
