-- ===== src/Messages/Types.antt =====
-- MessagesClass, ServerMessagesType and ClientMessagesType of Shared/messageType.h. A type is its class with a
-- number below 0x100, so `|` is `+`.
use watchfirewall.Prelude.{ℕ, ◌+◌}

abbrev pub message_class_info_rules : ℕ
message_class_info_rules = 0x0100

abbrev pub message_class_info_sockets : ℕ
message_class_info_sockets = 0x0200

abbrev pub message_class_provider_of_rules : ℕ
message_class_provider_of_rules = 0x0400

abbrev pub message_class_firewall : ℕ
message_class_firewall = 0x0800

abbrev pub message_class_client : ℕ
message_class_client = 0x1000

abbrev pub message_class_common : ℕ
message_class_common = 0x2000

abbrev pub message_type_text : ℕ
message_type_text = message_class_common + 0x01

abbrev pub message_type_sflt_unregistered : ℕ
message_type_sflt_unregistered = message_class_common + 0x02

abbrev pub message_type_sflt_attach : ℕ
message_type_sflt_attach = message_class_common + 0x03

abbrev pub message_type_sflt_detach : ℕ
message_type_sflt_detach = message_class_common + 0x04

abbrev pub message_type_sflt_notify : ℕ
message_type_sflt_notify = message_class_common + 0x05

abbrev pub message_type_sflt_get_peer_name : ℕ
message_type_sflt_get_peer_name = message_class_common + 0x06

abbrev pub message_type_sflt_get_sock_name : ℕ
message_type_sflt_get_sock_name = message_class_common + 0x07

abbrev pub message_type_sflt_data_in : ℕ
message_type_sflt_data_in = message_class_common + 0x08

abbrev pub message_type_sflt_data_out : ℕ
message_type_sflt_data_out = message_class_common + 0x09

abbrev pub message_type_sflt_connect_in : ℕ
message_type_sflt_connect_in = message_class_common + 0x0a

abbrev pub message_type_sflt_connect_out : ℕ
message_type_sflt_connect_out = message_class_common + 0x0b

abbrev pub message_type_sflt_bind : ℕ
message_type_sflt_bind = message_class_common + 0x0c

abbrev pub message_type_sflt_set_option : ℕ
message_type_sflt_set_option = message_class_common + 0x0d

abbrev pub message_type_sflt_get_option : ℕ
message_type_sflt_get_option = message_class_common + 0x0e

abbrev pub message_type_sflt_listen : ℕ
message_type_sflt_listen = message_class_common + 0x0f

abbrev pub message_type_sflt_ioctl : ℕ
message_type_sflt_ioctl = message_class_common + 0x10

abbrev pub message_type_sflt_accept : ℕ
message_type_sflt_accept = message_class_common + 0x11

abbrev pub message_type_request_rule : ℕ
message_type_request_rule = message_class_provider_of_rules + 0x01

abbrev pub message_type_rule_added : ℕ
message_type_rule_added = message_class_info_rules + 0x01

abbrev pub message_type_rule_deleted : ℕ
message_type_rule_deleted = message_class_info_rules + 0x02

abbrev pub message_type_rule_deactivated : ℕ
message_type_rule_deactivated = message_class_info_rules + 0x03

abbrev pub message_type_rule_activated : ℕ
message_type_rule_activated = message_class_info_rules + 0x04

abbrev pub message_type_socket_data : ℕ
message_type_socket_data = message_class_info_sockets + 0x07

abbrev pub message_type_socket_open : ℕ
message_type_socket_open = message_class_info_sockets + 0x08

abbrev pub message_type_socket_closed : ℕ
message_type_socket_closed = message_class_info_sockets + 0x09

abbrev pub message_type_firewall_activated : ℕ
message_type_firewall_activated = message_class_firewall + 0x01

abbrev pub message_type_firewall_deactivated : ℕ
message_type_firewall_deactivated = message_class_firewall + 0x02

abbrev pub message_type_client_subscribed_asa_provider_of_rules : ℕ
message_type_client_subscribed_asa_provider_of_rules = message_class_firewall + 0x03

abbrev pub message_type_client_unsubscribed_asa_provider_of_rules : ℕ
message_type_client_unsubscribed_asa_provider_of_rules = message_class_firewall + 0x04

abbrev pub message_type_client_subscribed_to_info_rules : ℕ
message_type_client_subscribed_to_info_rules = message_class_firewall + 0x05

abbrev pub message_type_client_unsubscribed_from_info_rules : ℕ
message_type_client_unsubscribed_from_info_rules = message_class_firewall + 0x06

abbrev pub message_type_client_subscribed_to_info_sockets : ℕ
message_type_client_subscribed_to_info_sockets = message_class_firewall + 0x07

abbrev pub message_type_client_unsubscribed_from_info_sockets : ℕ
message_type_client_unsubscribed_from_info_sockets = message_class_firewall + 0x08

abbrev pub message_type_firewall_closing : ℕ
message_type_firewall_closing = message_class_firewall + 0x09

abbrev pub message_type_add_rule : ℕ
message_type_add_rule = message_class_client + 0x01

abbrev pub message_type_delete_rule : ℕ
message_type_delete_rule = message_class_client + 0x02

abbrev pub message_type_activate_rule : ℕ
message_type_activate_rule = message_class_client + 0x03

abbrev pub message_type_deactivate_rule : ℕ
message_type_deactivate_rule = message_class_client + 0x04

abbrev pub message_type_activate_firewall : ℕ
message_type_activate_firewall = message_class_client + 0x05

abbrev pub message_type_deactivate_firewall : ℕ
message_type_deactivate_firewall = message_class_client + 0x06

abbrev pub message_type_subscribe_asa_provider_of_rules : ℕ
message_type_subscribe_asa_provider_of_rules = message_class_client + 0x07

abbrev pub message_type_unsubscribe_asa_provider_of_rules : ℕ
message_type_unsubscribe_asa_provider_of_rules = message_class_client + 0x08

abbrev pub message_type_subscribe_to_info_rules : ℕ
message_type_subscribe_to_info_rules = message_class_client + 0x09

abbrev pub message_type_unsubscribe_from_info_rules : ℕ
message_type_unsubscribe_from_info_rules = message_class_client + 0x0a

abbrev pub message_type_subscribe_to_info_sockets : ℕ
message_type_subscribe_to_info_sockets = message_class_client + 0x0b

abbrev pub message_type_unsubscribe_from_info_sockets : ℕ
message_type_unsubscribe_from_info_sockets = message_class_client + 0x0c
