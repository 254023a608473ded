-- ===== src/Firewall/Answers.antt =====
-- Requests about rules in Firewall::KcSend (Kext/firewall.cpp): who is answered what.
use watchfirewall.Prelude.{
  ℕ, ◌<◌, ◌≡◌, refl, ap, ◌∙◌, List, Bool, true, false, some, length, ◌⊎◌, inl, inr,
}
use watchfirewall.Kernel.{Atomics}
use watchfirewall.Links.{Ptr}
use watchfirewall.Links.Edit.{IsLoose}
use watchfirewall.Rules.{Rules, Code, delete_rule, activate_rule}
use watchfirewall.Rules.Delete.{LooseDeletion, absent, removed, delete_rule-LooseDeletion}
use watchfirewall.Rules.Activate.{Activation, activate_rule-Activation}
use watchfirewall.Messages.{Message, Payload, set_action_state}
use watchfirewall.Messages.Types.{message_type_rule_deleted, message_type_rule_activated}
use watchfirewall.Messages.Create.{create_rule_deleted, create_rule_activated, rule_response_size}
use watchfirewall.Firewall.{Firewall, Env, reply}
use watchfirewall.Firewall.Broadcast.{HasClients, reached, send_all-reached}
use watchfirewall.Firewall.Handlers.{
  answer, answer_delete, minus_1, handle_delete_rule, handle_activate_rule,
}

abbrev pub rule_message : (type unit id state rule_id : ℕ) → Message
rule_message type unit id state rule_id = record {
  size = rule_response_size;
  type = type;
  payload = Payload.rule_response unit id state rule_id;
}

created_deleted :
    (fits : Bool) (unit id rule_id : ℕ)
    → fits ≡ true
    → create_rule_deleted fits unit id 0 rule_id
      ≡ some (rule_message message_type_rule_deleted unit id 0 rule_id)
unfolding create_rule_deleted
created_deleted true unit id rule_id e = refl
created_deleted false unit id rule_id e = absurd cc

created_activated :
    (fits : Bool) (unit id rule_id : ℕ)
    → fits ≡ true
    → create_rule_activated fits unit id 0 rule_id
      ≡ some (rule_message message_type_rule_activated unit id 0 rule_id)
unfolding create_rule_activated
created_activated true unit id rule_id e = refl
created_activated false unit id rule_id e = absurd cc

-- Who is offered what for the code of an activation: `m` gives the message with an action state.
abbrev pub told : Env → Ptr → List Ptr → (ℕ → Message) → Code → Firewall → Firewall
told env c xs m Code.minus_one fw = reply env c (m minus_1) fw
told env c xs m Code.naught fw = reached env (m 0) xs fw
told env c xs m Code.one fw = reply env c (m 1) fw

module _ (os : Atomics) (env : Env) (c : Ptr) (id rule_id : ℕ) (xs ys : List Ptr) (fw : Firewall)
    (is : HasClients fw xs) (rules : IsLoose fw.rules.links ys) (h : length xs < env.fuel)
    (k : length ys < env.fuel) (fits : env.answer_fits ≡ true) where
  with_rules : (t : Rules) → HasClients (record fw { rules = t }) xs
  with_rules t = record { locked = is.locked; chain = is.chain; distinct = is.distinct }

  abbrev deleted : Message
  deleted = rule_message message_type_rule_deleted (fw.client c).unit id 0 rule_id

  handle_delete_rule-answer :
      (code : Code) (t : Rules)
      → delete_rule env.fuel env.now rule_id fw.rules ≡ some (code, t)
      → handle_delete_rule os env c id rule_id fw
        ≡ answer_delete os env c code deleted (record fw { rules = t })
  unfolding handle_delete_rule
  handle_delete_rule-answer code t e =
      rw (handle_delete_rule, created_deleted env.answer_fits (fw.client c).unit id rule_id fits, e)
        refl

  -- A request to delete a rule, with well linked clients, rules whose links back are NULL or right, fuel for more than
  -- either, and an answer that can be allocated: where the rules hold the id, the first such rule is
  -- deleted, with those before it where its own link back is NULL, and each client is offered the message of it; where they do not, nothing changes and
  -- no client is answered, not even the one that asks.
  pub handle_delete_rule_lem :
      (code : Code) × (t : Rules) × LooseDeletion fw.rules ys rule_id env.now code t
      × (((code ≡ Code.naught)
            × (handle_delete_rule os env c id rule_id fw
                ≡ some (reached env deleted xs (record fw { rules = t }))))
          ⊎ ((code ≡ Code.minus_one) × (handle_delete_rule os env c id rule_id fw ≡ some fw)))
  handle_delete_rule_lem =
      let (code, t, e, d) =
        delete_rule-LooseDeletion fw.rules rule_id env.now env.fuel ys rules k in
      (code, t, d, split code t e d)
    where
      split :
          (code : Code) (t : Rules)
          → delete_rule env.fuel env.now rule_id fw.rules ≡ some (code, t)
          → LooseDeletion fw.rules ys rule_id env.now code t
          → ((code ≡ Code.naught)
              × (handle_delete_rule os env c id rule_id fw
                  ≡ some (reached env deleted xs (record fw { rules = t }))))
            ⊎ ((code ≡ Code.minus_one) × (handle_delete_rule os env c id rule_id fw ≡ some fw))
      split code t e (absent a z same) = inr (
        z,
        handle_delete_rule-answer code t e
            ∙ ap (λ (k : Code). answer_delete os env c k deleted (record fw { rules = t })) z
            ∙ ap (λ (r : Rules). some (record fw { rules = r })) same,
      )
      split code t e (removed r front back s a i z il st refs others live time) = inl (
        z,
        handle_delete_rule-answer code t e
            ∙ ap (λ (k : Code). answer_delete os env c k deleted (record fw { rules = t })) z
            ∙ send_all-reached env deleted (record fw { rules = t }) xs (with_rules t) h,
      )

  abbrev activated : (state : ℕ) → Message
  activated state = rule_message message_type_rule_activated (fw.client c).unit id state rule_id

  handle_activate_rule-answer :
      (code : Code) (t : Rules)
      → activate_rule env.fuel env.now rule_id fw.rules ≡ some (code, t)
      → handle_activate_rule os env c id rule_id fw
        ≡ answer os env c code (activated 0) (record fw { rules = t })
  unfolding handle_activate_rule
  handle_activate_rule-answer code t e =
      rw
        (
          handle_activate_rule,
          created_activated env.answer_fits (fw.client c).unit id rule_id fits,
          e,
        )
        refl

  answer-told :
      (code : Code) (t : Rules)
      → answer os env c code (activated 0) (record fw { rules = t })
        ≡ some (told env c xs activated code (record fw { rules = t }))
  unfolding set_action_state
  answer-told Code.minus_one t = refl
  answer-told Code.naught t =
      send_all-reached env (activated 0) (record fw { rules = t }) xs (with_rules t) h
  answer-told Code.one t = refl

  -- A request to activate a rule, with well linked clients, rules whose links back are NULL or right, fuel for more than either,
  -- and an answer that can be allocated, does what ActivateRule does to the first rule with the
  -- id. Each client is offered the message of it where the rule becomes active; else the client
  -- that asks is offered it alone, with action state 1 where the rule was not inactive and -1
  -- where there is no such rule.
  pub handle_activate_rule_lem :
      (code : Code) × (t : Rules) × Activation fw.rules ys rule_id env.now code t
      × (handle_activate_rule os env c id rule_id fw
          ≡ some (
              told env c xs
                (λ state.
                  rule_message message_type_rule_activated (fw.client c).unit id state rule_id)
                code
                (record fw { rules = t })))
  handle_activate_rule_lem =
      let (code, t, e, d) =
        activate_rule-Activation fw.rules rule_id env.now env.fuel ys rules.forward k in
      (code, t, d, handle_activate_rule-answer code t e ∙ answer-told code t)
