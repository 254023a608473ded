-- ===== src/Firewall/KcSend.antt =====
-- Firewall::KcSend (Kext/firewall.cpp): the loop over the messages of a buffer. `pos` is
-- currentPosition, a UInt32, and `at` is the offset of `message` from the start of the data.
-- `envs` says what the kernel does while the message at each offset is handled.
use watchfirewall.Prelude.{
  ℕ, zero, suc, ◌+◌, ◌%◌, true, false, Option, none, some, ◌==◌, ◌||◌, if◌then◌else◌, ltb,
}
use watchfirewall.Kernel.{Atomics, word}
use watchfirewall.Links.{Ptr, null}
use watchfirewall.Messages.Types.{
  message_type_activate_firewall, message_type_activate_rule, message_type_add_rule,
  message_type_deactivate_firewall, message_type_deactivate_rule, message_type_delete_rule,
  message_type_subscribe_asa_provider_of_rules, message_type_subscribe_to_info_rules,
  message_type_subscribe_to_info_sockets, message_type_unsubscribe_asa_provider_of_rules,
  message_type_unsubscribe_from_info_rules, message_type_unsubscribe_from_info_sockets,
}
use watchfirewall.Firewall.{Firewall, Errno, Env}
use watchfirewall.Firewall.Request.{
  Memory, message_size, message_type, message_id, message_rule_id, read_add_rule,
}
use watchfirewall.Firewall.Handlers.{
  handle_activate_firewall, handle_activate_rule, handle_add_rule, handle_deactivate_firewall,
  handle_deactivate_rule, handle_delete_rule, handle_subscribe_asa_provider_of_rules,
  handle_subscribe_to_info_rules, handle_subscribe_to_info_sockets,
  handle_unsubscribe_asa_provider_of_rules, handle_unsubscribe_from_info_rules,
  handle_unsubscribe_from_info_sockets,
}

module _ (os : Atomics) (c : Ptr) (mem : Memory) where
  -- The switch on the type of the message at `at`; a type that is not listed does nothing.
  unfoldable pub dispatch : Env → ℕ → Firewall → Option Firewall
  dispatch env at fw =
      let type = message_type mem at in
      let id = message_id mem at in
      let rule_id = message_rule_id mem at in
      if type == message_type_delete_rule
      then handle_delete_rule os env c id rule_id fw
      else if type == message_type_add_rule
      then elim (read_add_rule env.fuel mem at) [
        | none ↦ none
        | some request ↦ handle_add_rule os env c request fw
      ]
      else if type == message_type_activate_rule
      then handle_activate_rule os env c id rule_id fw
      else if type == message_type_deactivate_rule
      then handle_deactivate_rule os env c id rule_id fw
      else if type == message_type_activate_firewall
      then handle_activate_firewall os env c id fw
      else if type == message_type_deactivate_firewall
      then handle_deactivate_firewall os env c id fw
      else if type == message_type_subscribe_asa_provider_of_rules
      then handle_subscribe_asa_provider_of_rules os env c id fw
      else if type == message_type_unsubscribe_asa_provider_of_rules
      then handle_unsubscribe_asa_provider_of_rules os env c id fw
      else if type == message_type_subscribe_to_info_rules
      then handle_subscribe_to_info_rules os env c id fw
      else if type == message_type_unsubscribe_from_info_rules
      then handle_unsubscribe_from_info_rules os env c id fw
      else if type == message_type_subscribe_to_info_sockets
      then handle_subscribe_to_info_sockets os env c id fw
      else if type == message_type_unsubscribe_from_info_sockets
      then handle_unsubscribe_from_info_sockets os env c id fw
      else some fw

  -- `fuel` bounds the rounds of the loop.
  unfoldable pub kc_send_loop : (ℕ → Env) → (data_size fuel pos at : ℕ) → Firewall → Option Firewall
  kc_send_loop envs data_size zero pos at fw = none
  kc_send_loop envs data_size (suc fuel) pos at fw = elim (ltb pos data_size) [
    | false ↦ some fw
    | true ↦ elim (dispatch (envs at) at fw) [
      | none ↦ none
      | some done ↦
          let size = message_size mem at in
          kc_send_loop envs data_size fuel ((pos + size) % word) (at + size) done
    ]
  ]

  unfoldable pub kc_send : (ℕ → Env) → (fuel data_size : ℕ) → Firewall → Option (Errno × Firewall)
  kc_send envs fuel data_size fw =
      if fw.closing || c == null
      then some (Errno.kern_terminated, fw)
      else elim (kc_send_loop envs data_size fuel 0 0 fw) [
        | none ↦ none
        | some done ↦ some (Errno.kern_success, done)
      ]
