-- ===== src/Firewall/Requests.antt =====
-- What KcSend (Kext/firewall.cpp) reads of the bytes that clients make (Shared/messageType.h), and the handler that a request
-- is for.
use watchfirewall.Prelude.{ℕ, ◌+◌, ◌*◌, ◌<◌, ◌≡◌, refl, ◌∙◌, List, [], ◌++◌, Option, arith, length}
use watchfirewall.Kernel.{Atomics, word}
use watchfirewall.Links.{Ptr}
use watchfirewall.Messages.Types.{
  message_type_activate_firewall, message_type_activate_rule, message_type_deactivate_firewall,
  message_type_deactivate_rule, message_type_delete_rule,
  message_type_subscribe_asa_provider_of_rules, message_type_subscribe_to_info_rules,
  message_type_subscribe_to_info_sockets, message_type_unsubscribe_asa_provider_of_rules,
  message_type_unsubscribe_from_info_rules, message_type_unsubscribe_from_info_sockets,
}
use watchfirewall.Messages.Requests.{
  Request, delete_rule, activate_rule, deactivate_rule, activate_firewall, deactivate_firewall,
  subscribe_asa_provider_of_rules, unsubscribe_asa_provider_of_rules, subscribe_to_info_rules,
  unsubscribe_from_info_rules, subscribe_to_info_sockets, unsubscribe_from_info_sockets, encode,
  bytes_32, init_client_action, action_size, rule_action_size,
}
use watchfirewall.Firewall.{Firewall, Env}
use watchfirewall.Firewall.Request.{Memory, message_size, message_type, message_id, message_rule_id}
use watchfirewall.Firewall.Handlers.{
  handle_activate_firewall, handle_activate_rule, handle_deactivate_firewall,
  handle_deactivate_rule, handle_delete_rule, handle_subscribe_asa_provider_of_rules,
  handle_subscribe_to_info_rules, handle_subscribe_to_info_sockets,
  handle_unsubscribe_asa_provider_of_rules, handle_unsubscribe_from_info_rules,
  handle_unsubscribe_from_info_sockets,
}
use watchfirewall.Firewall.Reads.{
  nth_16, Stands, read_32-Stands, message_size-Stands, message_type-Stands, joined_16, joined_32,
}
use watchfirewall.Firewall.KcSend.{dispatch}

module _ (mem : Memory) (at : ℕ) (bs : List ℕ) (h : Stands mem at bs) where
  message_id-Stands : 7 < length bs → message_id mem at ≡ nth_16 bs 4 + 65536 * nth_16 bs 6
  unfolding message_id
  message_id-Stands l = read_32-Stands mem at bs h 4 l

  message_rule_id-Stands :
      11 < length bs → message_rule_id mem at ≡ nth_16 bs 8 + 65536 * nth_16 bs 10
  unfolding message_rule_id
  message_rule_id-Stands l = read_32-Stands mem at bs h 8 l

-- The ids of a request are UInt32.
abbrev pub InRange : Request → Type 0
InRange (delete_rule id r) = (id < word) × (r < word)
InRange (activate_rule id r) = (id < word) × (r < word)
InRange (deactivate_rule id r) = (id < word) × (r < word)
InRange (activate_firewall id) = id < word
InRange (deactivate_firewall id) = id < word
InRange (subscribe_asa_provider_of_rules id) = id < word
InRange (unsubscribe_asa_provider_of_rules id) = id < word
InRange (subscribe_to_info_rules id) = id < word
InRange (unsubscribe_from_info_rules id) = id < word
InRange (subscribe_to_info_sockets id) = id < word
InRange (unsubscribe_from_info_sockets id) = id < word

-- The fields of a message are read as RawMessageClientAction::Init wrote them, whatever follows.
module _ (mem : Memory) (at size type id : ℕ) (rest : List ℕ)
    (h : Stands mem at (init_client_action size type id ++ rest)) where
  abbrev all_bytes : List ℕ
  all_bytes = init_client_action size type id ++ rest

  pub reads_size : size < 65536 → message_size mem at ≡ size
  reads_size l = message_size-Stands mem at all_bytes h (omega arith) ∙ joined_16 size l

  reads_type : type < 65536 → message_type mem at ≡ type
  reads_type l = message_type-Stands mem at all_bytes h (omega arith) ∙ joined_16 type l

  reads_id : id < word → message_id mem at ≡ id
  reads_id l = message_id-Stands mem at all_bytes h (omega arith) ∙ joined_32 id l

reads_rule_id :
    (mem : Memory) (at size type id r : ℕ)
    → Stands mem at (init_client_action size type id ++ bytes_32 r)
    → r < word
    → message_rule_id mem at ≡ r
reads_rule_id mem at size type id r h l =
    message_rule_id-Stands mem at (init_client_action size type id ++ bytes_32 r) h (omega arith)
    ∙ joined_32 r l

module _ (os : Atomics) (c : Ptr) where
  -- The handler that a request is for.
  abbrev pub run : Env → Request → Firewall → Option Firewall
  run env (delete_rule id r) fw = handle_delete_rule os env c id r fw
  run env (activate_rule id r) fw = handle_activate_rule os env c id r fw
  run env (deactivate_rule id r) fw = handle_deactivate_rule os env c id r fw
  run env (activate_firewall id) fw = handle_activate_firewall os env c id fw
  run env (deactivate_firewall id) fw = handle_deactivate_firewall os env c id fw
  run env (subscribe_asa_provider_of_rules id) fw =
      handle_subscribe_asa_provider_of_rules os env c id fw
  run env (unsubscribe_asa_provider_of_rules id) fw =
      handle_unsubscribe_asa_provider_of_rules os env c id fw
  run env (subscribe_to_info_rules id) fw = handle_subscribe_to_info_rules os env c id fw
  run env (unsubscribe_from_info_rules id) fw = handle_unsubscribe_from_info_rules os env c id fw
  run env (subscribe_to_info_sockets id) fw = handle_subscribe_to_info_sockets os env c id fw
  run env (unsubscribe_from_info_sockets id) fw =
      handle_unsubscribe_from_info_sockets os env c id fw

  pub dispatch-run :
      (mem : Memory) (env : Env) (at : ℕ) (r : Request) (fw : Firewall)
      → InRange r
      → Stands mem at (encode r)
      → dispatch os c mem env at fw ≡ run env r fw
  unfolding dispatch
  dispatch-run mem env at (delete_rule id r) fw i h =
      rw
        (
          reads_type mem at rule_action_size message_type_delete_rule id (bytes_32 r) h
              (omega arith),
          reads_id mem at rule_action_size message_type_delete_rule id (bytes_32 r) h i.0,
          reads_rule_id mem at rule_action_size message_type_delete_rule id r h i.1,
        )
        refl
  dispatch-run mem env at (activate_rule id r) fw i h =
      rw
        (
          reads_type mem at rule_action_size message_type_activate_rule id (bytes_32 r) h
              (omega arith),
          reads_id mem at rule_action_size message_type_activate_rule id (bytes_32 r) h i.0,
          reads_rule_id mem at rule_action_size message_type_activate_rule id r h i.1,
        )
        refl
  dispatch-run mem env at (deactivate_rule id r) fw i h =
      rw
        (
          reads_type mem at rule_action_size message_type_deactivate_rule id (bytes_32 r) h
              (omega arith),
          reads_id mem at rule_action_size message_type_deactivate_rule id (bytes_32 r) h i.0,
          reads_rule_id mem at rule_action_size message_type_deactivate_rule id r h i.1,
        )
        refl
  dispatch-run mem env at (activate_firewall id) fw i h =
      rw
        (
          reads_type mem at action_size message_type_activate_firewall id [] h (omega arith),
          reads_id mem at action_size message_type_activate_firewall id [] h i,
        )
        refl
  dispatch-run mem env at (deactivate_firewall id) fw i h =
      rw
        (
          reads_type mem at action_size message_type_deactivate_firewall id [] h (omega arith),
          reads_id mem at action_size message_type_deactivate_firewall id [] h i,
        )
        refl
  dispatch-run mem env at (subscribe_asa_provider_of_rules id) fw i h =
      rw
        (
          reads_type mem at action_size message_type_subscribe_asa_provider_of_rules id [] h
              (omega arith),
          reads_id mem at action_size message_type_subscribe_asa_provider_of_rules id [] h i,
        )
        refl
  dispatch-run mem env at (unsubscribe_asa_provider_of_rules id) fw i h =
      rw
        (
          reads_type mem at action_size message_type_unsubscribe_asa_provider_of_rules id [] h
              (omega arith),
          reads_id mem at action_size message_type_unsubscribe_asa_provider_of_rules id [] h i,
        )
        refl
  dispatch-run mem env at (subscribe_to_info_rules id) fw i h =
      rw
        (
          reads_type mem at action_size message_type_subscribe_to_info_rules id [] h (omega arith),
          reads_id mem at action_size message_type_subscribe_to_info_rules id [] h i,
        )
        refl
  dispatch-run mem env at (unsubscribe_from_info_rules id) fw i h =
      rw
        (
          reads_type mem at action_size message_type_unsubscribe_from_info_rules id [] h
              (omega arith),
          reads_id mem at action_size message_type_unsubscribe_from_info_rules id [] h i,
        )
        refl
  dispatch-run mem env at (subscribe_to_info_sockets id) fw i h =
      rw
        (
          reads_type mem at action_size message_type_subscribe_to_info_sockets id [] h
              (omega arith),
          reads_id mem at action_size message_type_subscribe_to_info_sockets id [] h i,
        )
        refl
  dispatch-run mem env at (unsubscribe_from_info_sockets id) fw i h =
      rw
        (
          reads_type mem at action_size message_type_unsubscribe_from_info_sockets id [] h
              (omega arith),
          reads_id mem at action_size message_type_unsubscribe_from_info_sockets id [] h i,
        )
        refl
