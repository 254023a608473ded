-- ===== src/Firewall/Request.antt =====
-- Reading a client's message, RawMessageClientAction and its kinds in Shared/messageType.h, from the bytes of
-- the buffer that mbuf_data gives: `mem` is the byte at each offset, in little-endian order as on
-- the machines that the extension is built for.
use watchfirewall.Prelude.{
  ℕ, zero, suc, ◌+◌, ◌*◌, List, [], ◌∷◌, Option, none, some, true, false, ◌==◌, if◌then◌else◌,
}
use watchfirewall.Rule.{AddRuleMessage}

abbrev pub Memory : Type 0
Memory = ℕ → ℕ

abbrev pub read_16 : Memory → ℕ → ℕ
read_16 mem at = mem at + 256 * mem (at + 1)

abbrev pub read_32 : Memory → ℕ → ℕ
read_32 mem at = read_16 mem at + 65536 * read_16 mem (at + 2)

unfoldable pub message_size : Memory → ℕ → ℕ
message_size mem at = read_16 mem at

unfoldable pub message_type : Memory → ℕ → ℕ
message_type mem at = read_16 mem (at + 2)

unfoldable pub message_id : Memory → ℕ → ℕ
message_id mem at = read_32 mem (at + 4)

-- The rule id of the messages that delete, activate and deactivate a rule.
unfoldable pub message_rule_id : Memory → ℕ → ℕ
message_rule_id mem at = read_32 mem (at + 8)

-- The bytes up to the first 0; `none` if there is none within the fuel.
unfoldable pub c_string : ℕ → Memory → ℕ → Option (List ℕ)
c_string zero mem at = none
c_string (suc fuel) mem at = elim (mem at == 0) [
  | true ↦ some []
  | false ↦ elim (c_string fuel mem (at + 1)) [ none ↦ none | some bytes ↦ some (mem at ∷ bytes) ]
]

abbrev pub bytes_from : ℕ → Memory → ℕ → List ℕ
bytes_from zero mem at = []
bytes_from (suc n) mem at = mem at ∷ bytes_from n mem (at + 1)

-- A SockAddress at an offset from the message, NULL if the offset is 0: its first byte says how many bytes it has.
abbrev pub sock_address_at : Memory → ℕ → ℕ → Option (List ℕ)
sock_address_at mem at offset =
    if offset == 0 then none else some (bytes_from (mem (at + offset)) mem (at + offset))

-- The fields of RawMessageAddRule and what its getters return.
unfoldable pub read_add_rule : ℕ → Memory → ℕ → Option AddRuleMessage
read_add_rule fuel mem at = elim (c_string fuel mem (at + read_16 mem (at + 12))) [
  | none ↦ none
  | some process_name ↦ elim (c_string fuel mem (at + read_16 mem (at + 14))) [
    | none ↦ none
    | some file_path ↦ some (record {
      message_id = read_32 mem (at + 4);
      id = read_32 mem (at + 8);
      process_name = process_name;
      file_path = file_path;
      sock_domain = read_16 mem (at + 16);
      sock_type = read_16 mem (at + 18);
      sock_protocol = read_16 mem (at + 20);
      from_sock_address = sock_address_at mem at (read_16 mem (at + 22));
      to_sock_address = sock_address_at mem at (read_16 mem (at + 24));
      direction = mem (at + 26);
      allow = mem (at + 27);
      state = mem (at + 28);
    })
  ]
]
