-- ===== src/Messages/Requests.antt =====
-- The messages of a client that Shared/messageType.h fills with an Init, as the bytes that the client sends: in
-- little-endian order, as on the machines that the extension is built for. RawMessageAddRule has no Init.
use watchfirewall.Prelude.{ℕ, ◌/◌, ◌%◌, List, [], ◌∷◌, ◌++◌}
use watchfirewall.Messages.Layout.{size_of, base}
use watchfirewall.Messages.Types.{
  message_type_activate_firewall, message_type_activate_rule, message_type_deactivate_firewall,
  message_type_deactivate_rule, message_type_delete_rule,
  message_type_subscribe_asa_provider_of_rules, message_type_subscribe_to_info_rules,
  message_type_subscribe_to_info_sockets, message_type_unsubscribe_asa_provider_of_rules,
  message_type_unsubscribe_from_info_rules, message_type_unsubscribe_from_info_sockets,
}

pub data Request : Type 0 where
  delete_rule : (message_id rule_id : ℕ) → Request
  activate_rule : (message_id rule_id : ℕ) → Request
  deactivate_rule : (message_id rule_id : ℕ) → Request
  activate_firewall : (message_id : ℕ) → Request
  deactivate_firewall : (message_id : ℕ) → Request
  subscribe_asa_provider_of_rules : (message_id : ℕ) → Request
  unsubscribe_asa_provider_of_rules : (message_id : ℕ) → Request
  subscribe_to_info_rules : (message_id : ℕ) → Request
  unsubscribe_from_info_rules : (message_id : ℕ) → Request
  subscribe_to_info_sockets : (message_id : ℕ) → Request
  unsubscribe_from_info_sockets : (message_id : ℕ) → Request

abbrev pub bytes_16 : ℕ → List ℕ
bytes_16 v = v % 256 ∷ v / 256 % 256 ∷ []

abbrev pub bytes_32 : ℕ → List ℕ
bytes_32 v = v % 256 ∷ v / 256 % 256 ∷ v / 65536 % 256 ∷ v / 16777216 % 256 ∷ []

-- RawMessageClientAction::Init, with RawMessageBase::Init: size, type and messageId.
abbrev pub init_client_action : (size type message_id : ℕ) → List ℕ
init_client_action size type message_id = bytes_16 size ++ bytes_16 type ++ bytes_32 message_id

abbrev pub action_size : ℕ
action_size = size_of (base (4 ∷ []))

abbrev pub rule_action_size : ℕ
rule_action_size = size_of (base (4 ∷ 4 ∷ []))

abbrev init_action : (type message_id : ℕ) → List ℕ
init_action type message_id = init_client_action action_size type message_id

abbrev init_rule_action : (type message_id rule_id : ℕ) → List ℕ
init_rule_action type message_id rule_id =
    init_client_action rule_action_size type message_id ++ bytes_32 rule_id

-- The Init of each message.
abbrev pub encode : Request → List ℕ
encode (delete_rule id r) = init_rule_action message_type_delete_rule id r
encode (activate_rule id r) = init_rule_action message_type_activate_rule id r
encode (deactivate_rule id r) = init_rule_action message_type_deactivate_rule id r
encode (activate_firewall id) = init_action message_type_activate_firewall id
encode (deactivate_firewall id) = init_action message_type_deactivate_firewall id
encode (subscribe_asa_provider_of_rules id) =
    init_action message_type_subscribe_asa_provider_of_rules id
encode (unsubscribe_asa_provider_of_rules id) =
    init_action message_type_unsubscribe_asa_provider_of_rules id
encode (subscribe_to_info_rules id) = init_action message_type_subscribe_to_info_rules id
encode (unsubscribe_from_info_rules id) = init_action message_type_unsubscribe_from_info_rules id
encode (subscribe_to_info_sockets id) = init_action message_type_subscribe_to_info_sockets id
encode (unsubscribe_from_info_sockets id) =
    init_action message_type_unsubscribe_from_info_sockets id
