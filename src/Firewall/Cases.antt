-- ===== src/Firewall/Cases.antt =====
-- The cases of the switch in Firewall::KcSend (Kext/firewall.cpp) but AddRule: each ends.
use watchfirewall.Prelude.{ℕ, ◌≤◌, refl, Bool, true, false, some, if◌then◌else◌, arith}
use watchfirewall.Kernel.{Atomics}
use watchfirewall.Links.{Ptr}
use watchfirewall.Rules.Loose.{delete_rule-Holds}
use watchfirewall.Rules.Activate.{activate_rule-Activation, deactivate_rule-Activation}
use watchfirewall.Messages.{Message, set_action_state}
use watchfirewall.Firewall.{Firewall, Env, reply, send_all}
use watchfirewall.Firewall.Handlers.{
  answer, answer_delete, handle_delete_rule, handle_activate_rule, handle_deactivate_rule,
  handle_activate_firewall, handle_deactivate_firewall, handle_subscribe_asa_provider_of_rules,
  handle_unsubscribe_asa_provider_of_rules, handle_subscribe_to_info_rules,
  handle_unsubscribe_from_info_rules, handle_subscribe_to_info_sockets,
  handle_unsubscribe_from_info_sockets,
}
use watchfirewall.Firewall.Returns.{
  Limits, Ready, Ends, with_rules, Ready-copy, reply-Ready, send_all-Ends, answer-Ends,
  answer_delete-Ends, allocated-Ends, coded_Ends, Activation-Holds,
}

module _ (os : Atomics) (b : Limits) (env : Env) (c : Ptr) (enough : b.searches ≤ env.fuel) where
  pub handle_delete_rule-Ends :
      (id rule_id : ℕ) (fw : Firewall)
      → Ready b fw
      → Ends b (handle_delete_rule os env c id rule_id fw)
  unfolding handle_delete_rule
  handle_delete_rule-Ends id rule_id fw r =
      let within = b.within in
      let (code, t, e, h) =
        delete_rule-Holds b.allowed b.rules env.fuel env.now fw.rules r.has_rules (omega arith)
          rule_id in
      allocated-Ends os b env c enough _ _ fw r (λ m.
        coded_Ends os b env c enough (answer_delete os env c) _ code t m fw e (
          answer_delete-Ends os b env c enough code m (record fw { rules = t })
            (with_rules b fw t r h)))

  pub handle_activate_rule-Ends :
      (id rule_id : ℕ) (fw : Firewall)
      → Ready b fw
      → Ends b (handle_activate_rule os env c id rule_id fw)
  unfolding handle_activate_rule
  handle_activate_rule-Ends id rule_id fw r =
      let within = b.within in
      let h = r.has_rules in
      let few = h.few in
      let (code, t, e, d) =
        activate_rule-Activation fw.rules rule_id env.now env.fuel h.list h.is_list.forward
          (omega arith) in
      allocated-Ends os b env c enough _ _ fw r (λ m.
        coded_Ends os b env c enough (answer os env c) _ code t m fw e (
          answer-Ends os b env c enough code m (record fw { rules = t })
            (with_rules b fw t r
              (Activation-Holds b.allowed b.rules fw.rules h rule_id env.now code t d))))

  pub handle_deactivate_rule-Ends :
      (id rule_id : ℕ) (fw : Firewall)
      → Ready b fw
      → Ends b (handle_deactivate_rule os env c id rule_id fw)
  unfolding handle_deactivate_rule
  handle_deactivate_rule-Ends id rule_id fw r =
      let within = b.within in
      let h = r.has_rules in
      let few = h.few in
      let (code, t, e, d) =
        deactivate_rule-Activation fw.rules rule_id env.now env.fuel h.list h.is_list.forward
          (omega arith) in
      allocated-Ends os b env c enough _ _ fw r (λ m.
        coded_Ends os b env c enough (answer os env c) _ code t m fw e (
          answer-Ends os b env c enough code m (record fw { rules = t })
            (with_rules b fw t r
              (Activation-Holds b.allowed b.rules fw.rules h rule_id env.now code t d))))

  pub handle_activate_firewall-Ends :
      (id : ℕ) (fw : Firewall) → Ready b fw → Ends b (handle_activate_firewall os env c id fw)
  unfolding handle_activate_firewall
  handle_activate_firewall-Ends id fw r =
      allocated-Ends os b env c enough _ _ fw r (λ m. split m fw.firewall_up)
    where
      split :
          (m : Message) (up : Bool)
          → Ends b (
              if up
              then some (reply env c (set_action_state 1 m) fw)
              else send_all env m (record fw { firewall_up = true }))
      split m true = (_, refl, reply-Ready os b env c enough _ fw r)
      split m false =
          send_all-Ends os b env c enough m (record fw { firewall_up = true })
            (Ready-copy b fw (record fw { firewall_up = true }) r refl refl refl refl)

  pub handle_deactivate_firewall-Ends :
      (id : ℕ) (fw : Firewall) → Ready b fw → Ends b (handle_deactivate_firewall os env c id fw)
  unfolding handle_deactivate_firewall
  handle_deactivate_firewall-Ends id fw r =
      allocated-Ends os b env c enough _ _ fw r (λ m. split m fw.firewall_up)
    where
      split :
          (m : Message) (up : Bool)
          → Ends b (
              if up
              then send_all env m (record fw { firewall_up = false })
              else some (reply env c (set_action_state 1 m) fw))
      split m true =
          send_all-Ends os b env c enough m (record fw { firewall_up = false })
            (Ready-copy b fw (record fw { firewall_up = false }) r refl refl refl refl)
      split m false = (_, refl, reply-Ready os b env c enough _ fw r)

  pub handle_subscribe_asa_provider_of_rules-Ends :
      (id : ℕ) (fw : Firewall)
      → Ready b fw
      → Ends b (handle_subscribe_asa_provider_of_rules os env c id fw)
  unfolding handle_subscribe_asa_provider_of_rules
  handle_subscribe_asa_provider_of_rules-Ends id fw r =
      allocated-Ends os b env c enough _ _ fw r (λ m.
        (_, refl, reply-Ready os b env c enough _ _ (Ready-copy b fw _ r refl refl refl refl)))

  pub handle_unsubscribe_asa_provider_of_rules-Ends :
      (id : ℕ) (fw : Firewall)
      → Ready b fw
      → Ends b (handle_unsubscribe_asa_provider_of_rules os env c id fw)
  unfolding handle_unsubscribe_asa_provider_of_rules
  handle_unsubscribe_asa_provider_of_rules-Ends id fw r =
      allocated-Ends os b env c enough _ _ fw r (λ m.
        (_, refl, reply-Ready os b env c enough _ _ (Ready-copy b fw _ r refl refl refl refl)))

  pub handle_subscribe_to_info_rules-Ends :
      (id : ℕ) (fw : Firewall) → Ready b fw → Ends b (handle_subscribe_to_info_rules os env c id fw)
  unfolding handle_subscribe_to_info_rules
  handle_subscribe_to_info_rules-Ends id fw r =
      allocated-Ends os b env c enough _ _ fw r (λ m.
        (_, refl, reply-Ready os b env c enough _ _ (Ready-copy b fw _ r refl refl refl refl)))

  pub handle_unsubscribe_from_info_rules-Ends :
      (id : ℕ) (fw : Firewall)
      → Ready b fw
      → Ends b (handle_unsubscribe_from_info_rules os env c id fw)
  unfolding handle_unsubscribe_from_info_rules
  handle_unsubscribe_from_info_rules-Ends id fw r =
      allocated-Ends os b env c enough _ _ fw r (λ m.
        (_, refl, reply-Ready os b env c enough _ _ (Ready-copy b fw _ r refl refl refl refl)))

  pub handle_subscribe_to_info_sockets-Ends :
      (id : ℕ) (fw : Firewall)
      → Ready b fw
      → Ends b (handle_subscribe_to_info_sockets os env c id fw)
  unfolding handle_subscribe_to_info_sockets
  handle_subscribe_to_info_sockets-Ends id fw r =
      allocated-Ends os b env c enough _ _ fw r (λ m.
        (_, refl, reply-Ready os b env c enough _ _ (Ready-copy b fw _ r refl refl refl refl)))

  pub handle_unsubscribe_from_info_sockets-Ends :
      (id : ℕ) (fw : Firewall)
      → Ready b fw
      → Ends b (handle_unsubscribe_from_info_sockets os env c id fw)
  unfolding handle_unsubscribe_from_info_sockets
  handle_unsubscribe_from_info_sockets-Ends id fw r =
      allocated-Ends os b env c enough _ _ fw r (λ m.
        (_, refl, reply-Ready os b env c enough _ _ (Ready-copy b fw _ r refl refl refl refl)))
