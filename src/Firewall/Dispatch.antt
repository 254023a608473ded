-- ===== src/Firewall/Dispatch.antt =====
-- The switch in Firewall::KcSend (Kext/firewall.cpp): the handling of each message ends.
use watchfirewall.Prelude.{
  ℕ, ◌≤◌, ◌≡◌, ◌≢◌, refl, Bool, true, false, Option, some, if◌then◌else◌, ==-ne,
}
use watchfirewall.Kernel.{Atomics}
use watchfirewall.Links.{Ptr}
use watchfirewall.Rule.{AddRuleMessage}
use watchfirewall.Messages.Types.{message_type_add_rule}
use watchfirewall.Firewall.{Firewall, Env}
use watchfirewall.Firewall.Request.{Memory, message_type, read_add_rule}
use watchfirewall.Firewall.Handlers.{handle_add_rule}
use watchfirewall.Firewall.Cases
use watchfirewall.Firewall.Returns.{Limits, Ready, Ends}
use watchfirewall.Firewall.KcSend.{dispatch}

if_Ends :
    (l : Limits) (b : Bool) (x y : Option Firewall)
    → Ends l x
    → Ends l y
    → Ends l (if b then x else y)
if_Ends l true x y p q = p
if_Ends l false x y p q = q

else_Ends :
    (l : Limits) (b : Bool) (x y : Option Firewall)
    → b ≡ false
    → Ends l y
    → Ends l (if b then x else y)
else_Ends l true x y e q = absurd cc
else_Ends l false x y e q = q

module _ (os : Atomics) (c : Ptr) (mem : Memory) where
  -- Every message that adds no rule is handled to its end.
  pub dispatch-Ends :
      (l : Limits) (env : Env) (at : ℕ) (fw : Firewall)
      → l.searches ≤ env.fuel
      → message_type mem at ≢ message_type_add_rule
      → Ready l fw
      → Ends l (dispatch os c mem env at fw)
  unfolding dispatch
  dispatch-Ends l env at fw h other r =
      if_Ends l _ _ _ (Cases.handle_delete_rule-Ends os l env c h _ _ fw r) (
        else_Ends l _ _ _ (==-ne (message_type mem at) message_type_add_rule other) (
          if_Ends l _ _ _ (Cases.handle_activate_rule-Ends os l env c h _ _ fw r) (
            if_Ends l _ _ _ (Cases.handle_deactivate_rule-Ends os l env c h _ _ fw r) (
              if_Ends l _ _ _ (Cases.handle_activate_firewall-Ends os l env c h _ fw r) (
                if_Ends l _ _ _ (Cases.handle_deactivate_firewall-Ends os l env c h _ fw r) (
                  if_Ends l _ _ _
                    (Cases.handle_subscribe_asa_provider_of_rules-Ends os l env c h _ fw r)
                    (if_Ends l _ _ _
                      (Cases.handle_unsubscribe_asa_provider_of_rules-Ends os l env c h _ fw r)
                      (if_Ends l _ _ _
                        (Cases.handle_subscribe_to_info_rules-Ends os l env c h _ fw r)
                        (if_Ends l _ _ _
                          (Cases.handle_unsubscribe_from_info_rules-Ends os l env c h _ fw r)
                          (if_Ends l _ _ _
                            (Cases.handle_subscribe_to_info_sockets-Ends os l env c h _ fw r)
                            (if_Ends l _ _ _
                              (Cases.handle_unsubscribe_from_info_sockets-Ends os l env c h _ fw r)
                              (fw, refl, r))))))))))))

  pub dispatch_add :
      (env : Env) (at : ℕ) (request : AddRuleMessage) (fw : Firewall)
      → message_type mem at ≡ message_type_add_rule
      → read_add_rule env.fuel mem at ≡ some request
      → dispatch os c mem env at fw ≡ handle_add_rule os env c request fw
  unfolding dispatch
  dispatch_add env at request fw e e' = rw (e, e', dispatch) refl
