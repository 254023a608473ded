-- ===== src/Tests/Firewall.antt =====
-- Kext/firewall.cpp at two clients and two rules.
use watchfirewall.Prelude.{
  ℕ, zero, suc, ◌+◌, ◌-◌, ◌%◌, ◌≡◌, ◌≢◌, refl, List, [], ◌∷◌, true, false, some, none, arith,
  update, ◌⊎◌,
}
use watchfirewall.Kernel.{plain_atomics, word}
use watchfirewall.Links.{Ptr, null}
use watchfirewall.Messages.Types.{
  message_class_firewall, message_class_common, message_type_rule_deleted,
  message_type_rule_activated,
}
use watchfirewall.Client.{Client}
use watchfirewall.Rules.{Rules, Code}
use watchfirewall.Rules.Delete.{LooseDeletion}
use watchfirewall.Rules.Activate.{Activation}
use watchfirewall.Firewall.{Firewall, Env, Errno, send_all, kc_connect, kc_disconnect}
use watchfirewall.Firewall.Request.{Memory, message_size, message_type, read_add_rule, c_string}
use watchfirewall.Firewall.Handlers.{
  handle_delete_rule, handle_activate_rule, handle_deactivate_firewall,
  handle_subscribe_asa_provider_of_rules,
}
use watchfirewall.Firewall.KcSend.{kc_send, kc_send_loop}
use watchfirewall.Firewall.Broadcast.{HasClients, reached, send_all-reached}
use watchfirewall.Firewall.Clients.{Receives, kc_connect-HasClients, kc_disconnect-HasClients}
use watchfirewall.Firewall.Returns.{Ready}
use watchfirewall.Firewall.Frames.{Frames, ended, message, adding}
use watchfirewall.Firewall.Loop.{kc_send-Ready, kc_send_loop-zero_size}
use watchfirewall.Firewall.Adds.{limits}
use watchfirewall.Firewall.Subscribe.{handle_subscribe-kc_disconnect}
use watchfirewall.Firewall.Toggle.{activated_message, handle_deactivate_firewall_lem}
use watchfirewall.Firewall.Answers.{
  rule_message, told, handle_delete_rule_lem, handle_activate_rule_lem,
}
use watchfirewall.Tests.Rules.{two_rules, two_rules-IsLoose, enough}

abbrev pub idle_client : Client
idle_client = record {
  unit = 1;
  registred_message_clases = 10240;
  exit_state = 0;
  references = 1;
  queue = record {
    head = null;
    last = null;
    next = λ p. null;
    item = λ p. activated_message 0 0 0;
  };
}

abbrev pub two_clients : Firewall
two_clients = record {
  firewall_up = false;
  closing = false;
  count_subscribers_for_info_sockets = 0;
  count_subscribers_for_info_rules = 0;
  count_subscribers_asa_provider_of_rules = 0;
  count_subscribers_for_debug = 2;
  rules = two_rules;
  lock_clients_queue = true;
  clients = 1;
  next = update (λ p. null) 1 2;
  client = λ p. idle_client;
  live = λ p. true;
}

abbrev pub kernel : Env
kernel = record {
  answer_fits = true;
  node = λ p. 100 + p;
  rule = 7;
  memory = enough;
  now = 20;
  fuel = 10;
}

pub two_clients-HasClients : HasClients two_clients (1 ∷ 2 ∷ [])
two_clients-HasClients = record {
  locked = refl;
  chain = (refl, omega arith, (refl, omega arith, refl));
  distinct = omega arith;
}

-- The kernel gives each message its own address for a rule.
abbrev kernel_at : ℕ → Env
kernel_at at = record kernel { rule = 7 + at }

two_clients-Ready :
    Ready (limits 10 2 (omega arith) (λ p. (k : ℕ) → (kernel_at k).rule ≢ p)) two_clients
two_clients-Ready = record {
  client_list = 1 ∷ 2 ∷ [];
  has_clients = two_clients-HasClients;
  few_clients = omega arith;
  has_rules = record {
    list = 1 ∷ 2 ∷ [];
    is_list = two_rules-IsLoose;
    all_in = (λ k. omega arith, (λ k. omega arith, tt));
    few = omega arith;
  };
}

-- The bytes from the start, and the others behind them.
abbrev bytes_at : List ℕ → (ℕ → ℕ) → ℕ → ℕ
bytes_at [] rest p = rest p
bytes_at (x ∷ xs) rest zero = x
bytes_at (x ∷ xs) rest (suc p) = bytes_at xs (λ q. rest (suc q)) p

-- A message of 32 bytes, AddRule with the id 6 and the process name "b", and one of 8 bytes, ActivateFirewall.
abbrev two_messages : Memory
two_messages = λ p.
    (bytes_at (32 ∷ 0 ∷ 1 ∷ 16 ∷ 5 ∷ 0 ∷ 0 ∷ 0 ∷ 6 ∷ 0 ∷ 0 ∷ 0 ∷ 29 ∷ 0 ∷ 31 ∷ 0 ∷ [])
      (update (update (update (update (λ q. 0) 29 98) 32 8) 34 5) 35 16) p)
    % 256

two_messages-Frames : Frames two_messages kernel_at 40 1 0
unfolding message_size message_type read_add_rule c_string
two_messages-Frames =
    adding (omega arith) (omega arith) refl refl
      (message (omega arith) (omega arith) (omega arith) (ended (omega arith)))

kc_send-Ready_example :
    (done : Firewall) × (kc_send plain_atomics 1 two_messages kernel_at 41 40 two_clients
      ≡ some (Errno.kern_success, done))
    × Ready (limits 10 3 (omega arith) (λ p. Unit {0})) done
kc_send-Ready_example =
    kc_send-Ready plain_atomics 1 two_messages kernel_at 41 40 10 2 1 two_clients (omega arith)
      (omega arith) two_clients-Ready refl (omega arith) (omega arith) (omega arith)
      (λ p. omega arith) (λ at. omega arith) (λ j k h z. omega arith) two_messages-Frames

kc_send_loop-zero_size_example :
    kc_send_loop plain_atomics 1 (λ p. 0) (λ at. kernel) 16 1000 0 0 two_clients ≡ none
unfolding message_size
kc_send_loop-zero_size_example =
    kc_send_loop-zero_size plain_atomics 1 (λ p. 0) (λ at. kernel) 16 1000 0 0 two_clients refl
      (omega arith) (omega arith)

send_all-reached_example :
    send_all kernel (activated_message 1 5 0) two_clients
    ≡ some (reached kernel (activated_message 1 5 0) (1 ∷ 2 ∷ []) two_clients)
send_all-reached_example =
    send_all-reached kernel (activated_message 1 5 0) two_clients (1 ∷ 2 ∷ [])
      two_clients-HasClients (omega arith)

kc_connect-HasClients_example :
    let (code, done) = kc_connect plain_atomics 3 true true true 9 two_clients in
    (code ≡ Errno.kern_success)
    × HasClients done (3 ∷ 1 ∷ 2 ∷ [])
    × ((done.client 3).references ≡ 1)
    × ((done.client 3).exit_state ≡ 0)
    × ((done.client 3).unit ≡ 9)
    × (done.live 3 ≡ true)
    × Receives (message_class_firewall + message_class_common) (done.client 3)
    × ((p : Ptr) → p ≢ 3 → done.client p ≡ two_clients.client p)
    × (done.count_subscribers_for_debug ≡ (two_clients.count_subscribers_for_debug + 1) % word)
kc_connect-HasClients_example =
    kc_connect-HasClients plain_atomics 3 9 two_clients (1 ∷ 2 ∷ []) refl (omega arith)
      (omega arith) two_clients-HasClients

kc_disconnect-HasClients_example :
    (done : Firewall) × (kc_disconnect plain_atomics 10 2 two_clients ≡ some done)
    × HasClients done (1 ∷ [])
    × ((done.client 2).exit_state ≡ 1)
kc_disconnect-HasClients_example =
    kc_disconnect-HasClients plain_atomics 10 2 (1 ∷ []) [] two_clients two_clients-HasClients
      (omega arith) (omega arith)

handle_subscribe-kc_disconnect_example :
    (asked : Firewall) × (done : Firewall) × (handle_subscribe_asa_provider_of_rules plain_atomics
        kernel 2 5 two_clients
      ≡ some asked)
    × (kc_disconnect plain_atomics 10 2 asked ≡ some done)
    × (done.count_subscribers_asa_provider_of_rules ≡ word - 1)
handle_subscribe-kc_disconnect_example =
    handle_subscribe-kc_disconnect plain_atomics kernel 2 5 10 (1 ∷ []) [] two_clients
      two_clients-HasClients (omega arith) (omega arith) refl refl

handle_deactivate_firewall_lem_example :
    handle_deactivate_firewall plain_atomics kernel 2 5 (record two_clients { firewall_up = true })
    ≡ some (reached kernel (activated_message 1 5 0) (1 ∷ 2 ∷ []) two_clients)
handle_deactivate_firewall_lem_example =
    handle_deactivate_firewall_lem plain_atomics kernel 2 5 (1 ∷ 2 ∷ [])
      (record two_clients { firewall_up = true })
      (record {
        locked = refl;
        chain = two_clients-HasClients.chain;
        distinct = two_clients-HasClients.distinct;
      })
      (omega arith) refl

handle_delete_rule_lem_example :
    (code : Code) × (t : Rules) × LooseDeletion two_rules (1 ∷ 2 ∷ []) 7 20 code t
    × (((code ≡ Code.naught)
          × (handle_delete_rule plain_atomics kernel 2 5 7 two_clients
              ≡ some (
                  reached kernel
                    (rule_message message_type_rule_deleted 1 5 0 7)
                    (1 ∷ 2 ∷ [])
                    (record two_clients { rules = t }))))
        ⊎ ((code ≡ Code.minus_one)
            × (handle_delete_rule plain_atomics kernel 2 5 7 two_clients ≡ some two_clients)))
handle_delete_rule_lem_example =
    handle_delete_rule_lem plain_atomics kernel 2 5 7 (1 ∷ 2 ∷ []) (1 ∷ 2 ∷ []) two_clients
      two_clients-HasClients two_rules-IsLoose (omega arith) (omega arith) refl

handle_activate_rule_lem_example :
    (code : Code) × (t : Rules) × Activation two_rules (1 ∷ 2 ∷ []) 7 20 code t
    × (handle_activate_rule plain_atomics kernel 2 5 7 two_clients
        ≡ some (
            told kernel 2
              (1 ∷ 2 ∷ [])
              (λ state. rule_message message_type_rule_activated 1 5 state 7)
              code
              (record two_clients { rules = t })))
handle_activate_rule_lem_example =
    handle_activate_rule_lem plain_atomics kernel 2 5 7 (1 ∷ 2 ∷ []) (1 ∷ 2 ∷ []) two_clients
      two_clients-HasClients two_rules-IsLoose (omega arith) (omega arith) refl
