-- ===== src/Firewall/Subscribe.antt =====
-- Subscriptions in Firewall::KcSend and KcDisconnect (Kext/firewall.cpp): the count of the clients that
-- provide rules.
use watchfirewall.Prelude.{
  ℕ, ◌+◌, ◌-◌, ◌%◌, ◌<◌, ◌≡◌, ◌≢◌, refl, ap, ◌∙◌, List, ◌∷◌, ◌++◌, Bool, true, false, some,
  if◌then◌else◌, arith, length, last, update, ==-refl, bit_and, inl, inr, Bool-cases,
}
use watchfirewall.Prelude.Bits.{bit, bit_and-pow}
use watchfirewall.Kernel.{Atomics, word}
use watchfirewall.Links.{Ptr, null}
use watchfirewall.Messages.{Message, set_action_state}
use watchfirewall.Messages.Types.{message_class_provider_of_rules}
use watchfirewall.Client.{Client, send, register_message_classes, close_signal}
use watchfirewall.Client.Classes.{register_message_classes_lem}
use watchfirewall.Client.Receive.{send-Takes, send-refuses}
use watchfirewall.Firewall.{Firewall, Env, reply, disconnect_at, leave, kc_disconnect}
use watchfirewall.Firewall.Broadcast.{HasClients}
use watchfirewall.Firewall.Clients.{kc_disconnect-found}
use watchfirewall.Firewall.Handlers.{handle_subscribe_asa_provider_of_rules, subscribed}
use watchfirewall.Messages.Create.{create_client_subscribed_asa_provider_of_rules}

classes-send :
    (node : Ptr) (m : Message) (c : Client)
    → (send node m c).registred_message_clases ≡ c.registred_message_clases
unfolding send
classes-send node m c = elim (send-refuses node m c) [
  | inl r ↦ ap (λ (d : Client). d.registred_message_clases) r.1
  | inr t ↦ ap (λ (d : Client). d.registred_message_clases) (send-Takes node m c t)
]

classes_updated :
    (node : Ptr) (m : Message) (c : Ptr) (new : Client) (f : Ptr → Client)
    → (update (update f c new) c (send node m (update f c new c)) c).registred_message_clases
      ≡ new.registred_message_clases
classes_updated node m c new f = rw (==-refl c) (classes-send node m new)

leave-has :
    (os : Atomics) (classes count : ℕ)
    → bit 10 classes ≡ 1
    → leave os classes message_class_provider_of_rules count ≡ (count + word - 1) % word
leave-has os classes count b =
    let e : bit_and classes 1024 ≡ 1024 = bit_and-pow 10 classes ∙ rw b refl in
    rw e (ap (λ (r : ℕ × ℕ). r.1) (os.decrement_lem count))

count-disconnect_at :
    (os : Atomics) (prev c : Ptr) (fw : Firewall)
    → bit 10 (fw.client c).registred_message_clases ≡ 1
    → (disconnect_at os prev c fw).count_subscribers_asa_provider_of_rules
      ≡ (fw.count_subscribers_asa_provider_of_rules + word - 1) % word
unfolding disconnect_at close_signal
count-disconnect_at os prev c fw b = leave-has os _ _ b

created :
    (fits : Bool) (unit id : ℕ)
    → fits ≡ true
    → (m : Message) × (create_client_subscribed_asa_provider_of_rules fits unit id 0 ≡ some m)
unfolding create_client_subscribed_asa_provider_of_rules
created true unit id e = (_, refl)
created false unit id e = absurd cc

-- The extension after a client without the class has asked for it: the class is there, the count is as before.
asked_for :
    (os : Atomics) (env : Env) (c : Ptr) (id : ℕ) (fw : Firewall)
    → env.answer_fits ≡ true
    → bit 10 (fw.client c).registred_message_clases ≡ 0
    → (asked : Firewall) × (handle_subscribe_asa_provider_of_rules os env c id fw ≡ some asked)
      × (asked.count_subscribers_asa_provider_of_rules ≡ fw.count_subscribers_asa_provider_of_rules)
      × (bit 10 (asked.client c).registred_message_clases ≡ 1)
      × (asked.clients ≡ fw.clients)
      × (asked.next ≡ fw.next)
      × (asked.lock_clients_queue ≡ fw.lock_clients_queue)
unfolding handle_subscribe_asa_provider_of_rules reply
asked_for os env c id fw fits b =
    let l = register_message_classes_lem os (fw.client c) 10 10 in
    let result = register_message_classes os 1024 (fw.client c) in
    let (m, e) = created env.answer_fits (fw.client c).unit id fits in
    let count = fw.count_subscribers_asa_provider_of_rules in
    let lacks : result.0 ≡ false = elim (Bool-cases result.0) [
      | inl t ↦ absurd (let z = l.1.0 t in omega arith)
      | inr f ↦ f
    ] in
    let set : bit 10 result.1.registred_message_clases ≡ 1 = omega (arith, l.0) in
    (
      subscribed os env c m result (record fw {
        count_subscribers_asa_provider_of_rules =
            if result.0 then (os.increment count).1 else count;
      }),
      rw (handle_subscribe_asa_provider_of_rules, e) refl,
      rw lacks refl,
      ap (bit 10) (
            classes_updated (env.node c) (if result.0 then m else set_action_state 1 m) c result.1
              fw.client)
          ∙ set,
      refl,
      refl,
      refl,
    )

-- A connected client without the class of the providers of rules subscribes, with an answer
-- that can be allocated, and then disconnects: both end, and the count of those subscribers is
-- one lower than before, in 32 bits. The subscription does not raise the count, and the
-- disconnection lowers it.
pub handle_subscribe-kc_disconnect :
    (os : Atomics) (env : Env) (c : Ptr) (id fuel : ℕ) (front back : List Ptr) (fw : Firewall)
    → HasClients fw (front ++ c ∷ back)
    → c ≢ null
    → length front < fuel
    → env.answer_fits ≡ true
    → bit 10 (fw.client c).registred_message_clases ≡ 0
    → (asked : Firewall) × (done : Firewall) × (handle_subscribe_asa_provider_of_rules os env c id
          fw
        ≡ some asked)
      × (kc_disconnect os fuel c asked ≡ some done)
      × (done.count_subscribers_asa_provider_of_rules
          ≡ (fw.count_subscribers_asa_provider_of_rules + word - 1) % word)
handle_subscribe-kc_disconnect os env c id fuel front back fw is n h fits b =
    let (asked, e, count, has, clients, next, lock) = asked_for os env c id fw fits b in
    let is' : HasClients asked (front ++ c ∷ back) = record {
      locked = lock ∙ is.locked;
      chain = rw (clients, next) is.chain;
      distinct = is.distinct;
    } in
    (
      asked,
      disconnect_at os (last null front) c asked,
      e,
      kc_disconnect-found os fuel c front back asked is' n h,
      count-disconnect_at os (last null front) c asked has
          ∙ ap (λ (k : ℕ). (k + word - 1) % word) count,
    )
