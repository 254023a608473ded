-- ===== src/Messages/Create.antt =====
-- The Create functions of Kext/messages.cpp for answers to clients. `fits` is whether `new` succeeds.
use watchfirewall.Prelude.{ℕ, Bool, Option, none, [], ◌∷◌}
use watchfirewall.Messages.{Message, Payload, create}
use watchfirewall.Messages.Layout.{size_of, base}
use watchfirewall.Messages.Types.{
  message_type_rule_added, message_type_rule_deleted, message_type_rule_activated,
  message_type_rule_deactivated, message_type_firewall_activated,
  message_type_client_subscribed_asa_provider_of_rules,
  message_type_client_unsubscribed_asa_provider_of_rules,
  message_type_client_subscribed_to_info_rules, message_type_client_unsubscribed_from_info_rules,
  message_type_client_subscribed_to_info_sockets,
  message_type_client_unsubscribed_from_info_sockets, message_type_firewall_closing,
}

-- RawMessageClientActionResponse, and those that carry a rule id.
abbrev pub response_size : ℕ
response_size = size_of (base (4 ∷ 4 ∷ 4 ∷ []))

abbrev pub rule_response_size : ℕ
rule_response_size = size_of (base (4 ∷ 4 ∷ 4 ∷ 4 ∷ []))

unfoldable pub create_rule_added : Bool → ℕ → ℕ → ℕ → ℕ → Option Message
create_rule_added fits unit_id client_message_id action_state rule_id =
    create fits rule_response_size message_type_rule_added
      (Payload.rule_response unit_id client_message_id action_state rule_id)

unfoldable pub create_rule_deleted : Bool → ℕ → ℕ → ℕ → ℕ → Option Message
create_rule_deleted fits unit_id client_message_id action_state rule_id =
    create fits rule_response_size message_type_rule_deleted
      (Payload.rule_response unit_id client_message_id action_state rule_id)

unfoldable pub create_rule_activated : Bool → ℕ → ℕ → ℕ → ℕ → Option Message
create_rule_activated fits unit_id client_message_id action_state rule_id =
    create fits rule_response_size message_type_rule_activated
      (Payload.rule_response unit_id client_message_id action_state rule_id)

unfoldable pub create_rule_deactivated : Bool → ℕ → ℕ → ℕ → ℕ → Option Message
create_rule_deactivated fits unit_id client_message_id action_state rule_id =
    create fits rule_response_size message_type_rule_deactivated
      (Payload.rule_response unit_id client_message_id action_state rule_id)

unfoldable pub create_firewall_activated : Bool → ℕ → ℕ → ℕ → Option Message
create_firewall_activated fits unit_id client_message_id action_state =
    create fits response_size message_type_firewall_activated
      (Payload.response unit_id client_message_id action_state)

-- The Init that it calls is that of RawMessageFirewallActivated.
unfoldable pub create_firewall_deactivated : Bool → ℕ → ℕ → ℕ → Option Message
create_firewall_deactivated fits unit_id client_message_id action_state =
    create fits response_size message_type_firewall_activated
      (Payload.response unit_id client_message_id action_state)

unfoldable pub create_client_subscribed_asa_provider_of_rules : Bool → ℕ → ℕ → ℕ → Option Message
create_client_subscribed_asa_provider_of_rules fits unit_id client_message_id action_state =
    create fits response_size message_type_client_subscribed_asa_provider_of_rules
      (Payload.response unit_id client_message_id action_state)

unfoldable pub create_client_unsubscribed_asa_provider_of_rules : Bool → ℕ → ℕ → ℕ → Option Message
create_client_unsubscribed_asa_provider_of_rules fits unit_id client_message_id action_state =
    create fits response_size message_type_client_unsubscribed_asa_provider_of_rules
      (Payload.response unit_id client_message_id action_state)

unfoldable pub create_client_subscribed_to_info_rules : Bool → ℕ → ℕ → ℕ → Option Message
create_client_subscribed_to_info_rules fits unit_id client_message_id action_state =
    create fits response_size message_type_client_subscribed_to_info_rules
      (Payload.response unit_id client_message_id action_state)

unfoldable pub create_client_unsubscribed_from_info_rules : Bool → ℕ → ℕ → ℕ → Option Message
create_client_unsubscribed_from_info_rules fits unit_id client_message_id action_state =
    create fits response_size message_type_client_unsubscribed_from_info_rules
      (Payload.response unit_id client_message_id action_state)

unfoldable pub create_client_subscribed_to_info_sockets : Bool → ℕ → ℕ → ℕ → Option Message
create_client_subscribed_to_info_sockets fits unit_id client_message_id action_state =
    create fits response_size message_type_client_subscribed_to_info_sockets
      (Payload.response unit_id client_message_id action_state)

unfoldable pub create_client_unsubscribed_from_info_sockets : Bool → ℕ → ℕ → ℕ → Option Message
create_client_unsubscribed_from_info_sockets fits unit_id client_message_id action_state =
    create fits response_size message_type_client_unsubscribed_from_info_sockets
      (Payload.response unit_id client_message_id action_state)

unfoldable pub create_firewall_closing : Bool → Option Message
create_firewall_closing fits =
    create fits (size_of (base [])) message_type_firewall_closing Payload.nothing

-- Not implemented: always NULL.
unfoldable pub create_request_rule : Option Message
create_request_rule = none
