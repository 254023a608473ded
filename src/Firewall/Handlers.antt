-- ===== src/Firewall/Handlers.antt =====
-- The cases of the switch in Firewall::KcSend (Kext/firewall.cpp), one function each. `c` is the client that sent
-- the message, and `none` means that a loop ran out of fuel.
use watchfirewall.Prelude.{
  ℕ, ◌-◌, Bool, true, false, Option, none, some, ◌==◌, if◌then◌else◌, update,
}
use watchfirewall.Kernel.{Atomics, word}
use watchfirewall.Links.{Ptr, null}
use watchfirewall.Rule.{AddRuleMessage}
use watchfirewall.Rules.{Code, add_rule, delete_rule, activate_rule, deactivate_rule, release_rule}
use watchfirewall.Messages.{Message, set_action_state}
use watchfirewall.Messages.Types.{
  message_class_provider_of_rules, message_class_info_rules, message_class_info_sockets,
}
use watchfirewall.Messages.Create.{
  create_rule_added, create_rule_deleted, create_rule_activated, create_rule_deactivated,
  create_firewall_activated, create_firewall_deactivated,
  create_client_subscribed_asa_provider_of_rules, create_client_unsubscribed_asa_provider_of_rules,
  create_client_subscribed_to_info_rules, create_client_unsubscribed_from_info_rules,
  create_client_subscribed_to_info_sockets, create_client_unsubscribed_from_info_sockets,
}
use watchfirewall.Client.{Client, register_message_classes, unregister_message_classes}
use watchfirewall.Firewall.{Firewall, Env, reply, send_all}

-- -1 as an UInt32.
abbrev pub minus_1 : ℕ
minus_1 = word - 1

module _ (os : Atomics) (env : Env) (c : Ptr) where
  -- The answer to adding, activating and deactivating: to all clients where it was done, else to
  -- the client alone, with the code as its action state.
  abbrev pub answer : Code → Message → Firewall → Option Firewall
  answer Code.minus_one m fw = some (reply env c (set_action_state minus_1 m) fw)
  answer Code.naught m fw = send_all env m fw
  answer Code.one m fw = some (reply env c (set_action_state 1 m) fw)

  -- The switch on the result of DeleteRule has the cases 0 and 1.
  abbrev pub answer_delete : Code → Message → Firewall → Option Firewall
  answer_delete Code.minus_one m fw = some fw
  answer_delete Code.naught m fw = send_all env m fw
  answer_delete Code.one m fw = some (reply env c (set_action_state minus_1 m) fw)

  unfoldable pub handle_delete_rule : (id rule_id : ℕ) → Firewall → Option Firewall
  handle_delete_rule id rule_id fw =
      elim (create_rule_deleted env.answer_fits (fw.client c).unit id 0 rule_id) [
        | none ↦ some fw
        | some m ↦ elim (delete_rule env.fuel env.now rule_id fw.rules) [
          | none ↦ none
          | some (code, rules) ↦ answer_delete code m (record fw { rules = rules })
        ]
      ]

  -- `if(rule) rule->Release();`, after the answer.
  abbrev pub drop_rule : Ptr → Option Firewall → Option Firewall
  drop_rule p none = none
  drop_rule p (some fw) =
      some (if p == null then fw else record fw { rules = release_rule os p fw.rules })

  unfoldable pub handle_add_rule : AddRuleMessage → Firewall → Option Firewall
  handle_add_rule request fw =
      elim (create_rule_added env.answer_fits (fw.client c).unit request.id 0 0) [
        | none ↦ some fw
        | some m ↦ elim (add_rule os env.fuel env.now env.rule env.memory request fw.rules) [
          | none ↦ none
          | some (code, p, rules) ↦ drop_rule p (answer code m (record fw { rules = rules }))
        ]
      ]

  unfoldable pub handle_activate_rule : (id rule_id : ℕ) → Firewall → Option Firewall
  handle_activate_rule id rule_id fw =
      elim (create_rule_activated env.answer_fits (fw.client c).unit id 0 rule_id) [
        | none ↦ some fw
        | some m ↦ elim (activate_rule env.fuel env.now rule_id fw.rules) [
          | none ↦ none
          | some (code, rules) ↦ answer code m (record fw { rules = rules })
        ]
      ]

  unfoldable pub handle_deactivate_rule : (id rule_id : ℕ) → Firewall → Option Firewall
  handle_deactivate_rule id rule_id fw =
      elim (create_rule_deactivated env.answer_fits (fw.client c).unit id 0 rule_id) [
        | none ↦ some fw
        | some m ↦ elim (deactivate_rule env.fuel env.now rule_id fw.rules) [
          | none ↦ none
          | some (code, rules) ↦ answer code m (record fw { rules = rules })
        ]
      ]

  unfoldable pub handle_activate_firewall : (id : ℕ) → Firewall → Option Firewall
  handle_activate_firewall id fw =
      elim (create_firewall_activated env.answer_fits (fw.client c).unit id 0) [
        | none ↦ some fw
        | some m ↦
            if fw.firewall_up
            then some (reply env c (set_action_state 1 m) fw)
            else send_all env m (record fw { firewall_up = true })
      ]

  unfoldable pub handle_deactivate_firewall : (id : ℕ) → Firewall → Option Firewall
  handle_deactivate_firewall id fw =
      elim (create_firewall_deactivated env.answer_fits (fw.client c).unit id 0) [
        | none ↦ some fw
        | some m ↦
            if fw.firewall_up
            then send_all env m (record fw { firewall_up = false })
            else some (reply env c (set_action_state 1 m) fw)
      ]

  -- The client with its classes changed, and the answer by the result.
  abbrev pub subscribed : Message → Bool × Client → Firewall → Firewall
  subscribed m (done, client) fw =
      reply env c (if done then m else set_action_state 1 m)
        (record fw { client = update fw.client c client })

  unfoldable pub handle_subscribe_asa_provider_of_rules : (id : ℕ) → Firewall → Option Firewall
  handle_subscribe_asa_provider_of_rules id fw =
      elim (create_client_subscribed_asa_provider_of_rules env.answer_fits (fw.client c).unit id
        0) [
          | none ↦ some fw
          | some m ↦
              let result =
                register_message_classes os message_class_provider_of_rules (fw.client c) in
              let count = fw.count_subscribers_asa_provider_of_rules in
              some (
                subscribed m result (record fw {
                  count_subscribers_asa_provider_of_rules =
                      if result.0 then (os.increment count).1 else count;
                }))
        ]

  unfoldable pub handle_unsubscribe_asa_provider_of_rules : (id : ℕ) → Firewall → Option Firewall
  handle_unsubscribe_asa_provider_of_rules id fw =
      elim (create_client_unsubscribed_asa_provider_of_rules env.answer_fits (fw.client c).unit id
        0) [
          | none ↦ some fw
          | some m ↦
              let result =
                unregister_message_classes os message_class_provider_of_rules (fw.client c) in
              let count = fw.count_subscribers_asa_provider_of_rules in
              some (
                subscribed m result (record fw {
                  count_subscribers_asa_provider_of_rules =
                      if result.0 then (os.decrement count).1 else count;
                }))
        ]

  unfoldable pub handle_subscribe_to_info_rules : (id : ℕ) → Firewall → Option Firewall
  handle_subscribe_to_info_rules id fw =
      elim (create_client_subscribed_to_info_rules env.answer_fits (fw.client c).unit id 0) [
        | none ↦ some fw
        | some m ↦
            let result = register_message_classes os message_class_info_rules (fw.client c) in
            let count = fw.count_subscribers_for_info_rules in
            some (
              subscribed m result (record fw {
                count_subscribers_for_info_rules =
                    if result.0 then (os.increment count).1 else count;
              }))
      ]

  unfoldable pub handle_unsubscribe_from_info_rules : (id : ℕ) → Firewall → Option Firewall
  handle_unsubscribe_from_info_rules id fw =
      elim (create_client_unsubscribed_from_info_rules env.answer_fits (fw.client c).unit id 0) [
        | none ↦ some fw
        | some m ↦
            let result = unregister_message_classes os message_class_info_rules (fw.client c) in
            let count = fw.count_subscribers_for_info_rules in
            some (
              subscribed m result (record fw {
                count_subscribers_for_info_rules =
                    if result.0 then (os.decrement count).1 else count;
              }))
      ]

  unfoldable pub handle_subscribe_to_info_sockets : (id : ℕ) → Firewall → Option Firewall
  handle_subscribe_to_info_sockets id fw =
      elim (create_client_subscribed_to_info_sockets env.answer_fits (fw.client c).unit id 0) [
        | none ↦ some fw
        | some m ↦
            let result = register_message_classes os message_class_info_sockets (fw.client c) in
            let count = fw.count_subscribers_for_info_sockets in
            some (
              subscribed m result (record fw {
                count_subscribers_for_info_sockets =
                    if result.0 then (os.increment count).1 else count;
              }))
      ]

  unfoldable pub handle_unsubscribe_from_info_sockets : (id : ℕ) → Firewall → Option Firewall
  handle_unsubscribe_from_info_sockets id fw =
      elim (create_client_unsubscribed_from_info_sockets env.answer_fits (fw.client c).unit id 0) [
        | none ↦ some fw
        | some m ↦
            let result = unregister_message_classes os message_class_info_sockets (fw.client c) in
            let count = fw.count_subscribers_for_info_sockets in
            some (
              subscribed m result (record fw {
                count_subscribers_for_info_sockets =
                    if result.0 then (os.decrement count).1 else count;
              }))
      ]
