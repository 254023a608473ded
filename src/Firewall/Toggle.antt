-- ===== src/Firewall/Toggle.antt =====
-- Switching the firewall on and off in Firewall::KcSend (Kext/firewall.cpp): what the clients are told.
use watchfirewall.Prelude.{ℕ, ◌<◌, ◌≡◌, refl, List, Bool, true, false, some, if◌then◌else◌, length}
use watchfirewall.Kernel.{Atomics}
use watchfirewall.Links.{Ptr}
use watchfirewall.Messages.{Message, Payload, set_action_state}
use watchfirewall.Messages.Types.{message_type_firewall_activated}
use watchfirewall.Messages.Create.{
  create_firewall_activated, create_firewall_deactivated, response_size,
}
use watchfirewall.Firewall.{Firewall, Env, reply, send_all}
use watchfirewall.Firewall.Broadcast.{HasClients, reached, send_all-reached}
use watchfirewall.Firewall.Handlers.{handle_activate_firewall, handle_deactivate_firewall}

-- The message that says the firewall is on, as an answer to `id`.
abbrev pub activated_message : (unit id state : ℕ) → Message
activated_message unit id state = record {
  size = response_size;
  type = message_type_firewall_activated;
  payload = Payload.response unit id state;
}

created_activated :
    (fits : Bool) (unit id : ℕ)
    → fits ≡ true
    → create_firewall_activated fits unit id 0 ≡ some (activated_message unit id 0)
unfolding create_firewall_activated
created_activated true unit id e = refl
created_activated false unit id e = absurd cc

created_deactivated :
    (fits : Bool) (unit id : ℕ)
    → fits ≡ true
    → create_firewall_deactivated fits unit id 0 ≡ some (activated_message unit id 0)
unfolding create_firewall_deactivated
created_deactivated true unit id e = refl
created_deactivated false unit id e = absurd cc

module _ (os : Atomics) (env : Env) (c : Ptr) (id : ℕ) (xs : List Ptr) (fw : Firewall)
    (is : HasClients fw xs) (h : length xs < env.fuel) (fits : env.answer_fits ≡ true) where
  switched : (up : Bool) → HasClients (record fw { firewall_up = up }) xs
  switched up = record { locked = is.locked; chain = is.chain; distinct = is.distinct }

  -- A request to switch the firewall on, with well linked clients, fuel for more than them and
  -- an answer that can be allocated: if it is off it is switched on, and each client is offered
  -- the message that it is on; if it is on already, the client that asks is offered it alone,
  -- with action state 1, and nothing else changes.
  pub handle_activate_firewall_lem :
      handle_activate_firewall os env c id fw
      ≡ some (
          if fw.firewall_up
          then reply env c (activated_message (fw.client c).unit id 1) fw
          else reached env
              (activated_message (fw.client c).unit id 0)
              xs
              (record fw { firewall_up = true }))
  unfolding handle_activate_firewall set_action_state
  handle_activate_firewall_lem =
      rw (handle_activate_firewall, created_activated env.answer_fits (fw.client c).unit id fits)
        (split fw.firewall_up)
    where
      split :
          (up : Bool)
          → (if up
              then some (reply env c (activated_message (fw.client c).unit id 1) fw)
              else send_all env
                  (activated_message (fw.client c).unit id 0)
                  (record fw { firewall_up = true }))
            ≡ some (
                if up
                then reply env c (activated_message (fw.client c).unit id 1) fw
                else reached env
                    (activated_message (fw.client c).unit id 0)
                    xs
                    (record fw { firewall_up = true }))
      split true = refl
      split false =
          send_all-reached env (activated_message (fw.client c).unit id 0)
            (record fw { firewall_up = true }) xs (switched true) h

  -- A request to switch the firewall off, with well linked clients, fuel for more than them and
  -- an answer that can be allocated: if it is on it is switched off, if it is off already
  -- nothing else changes. But the message that all clients, or the one that asks, are offered is
  -- the one that says the firewall was activated.
  pub handle_deactivate_firewall_lem :
      handle_deactivate_firewall os env c id fw
      ≡ some (
          if fw.firewall_up
          then reached env
              (activated_message (fw.client c).unit id 0)
              xs
              (record fw { firewall_up = false })
          else reply env c (activated_message (fw.client c).unit id 1) fw)
  unfolding handle_deactivate_firewall set_action_state
  handle_deactivate_firewall_lem =
      rw
        (handle_deactivate_firewall, created_deactivated env.answer_fits (fw.client c).unit id fits)
        (split fw.firewall_up)
    where
      split :
          (up : Bool)
          → (if up
              then send_all env
                  (activated_message (fw.client c).unit id 0)
                  (record fw { firewall_up = false })
              else some (reply env c (activated_message (fw.client c).unit id 1) fw))
            ≡ some (
                if up
                then reached env
                    (activated_message (fw.client c).unit id 0)
                    xs
                    (record fw { firewall_up = false })
                else reply env c (activated_message (fw.client c).unit id 1) fw)
      split true =
          send_all-reached env (activated_message (fw.client c).unit id 0)
            (record fw { firewall_up = false }) xs (switched false) h
      split false = refl
