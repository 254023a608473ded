-- ===== src/Firewall.antt =====
-- Kext/firewall.h and Kext/firewall.cpp: the state of the extension, and the clients that are
-- connected to it. A `Client*` is an address. The loops over clients take fuel, and `none` means that
-- it ran out. The mutex `lockClientsQueue` is held over each of these loops.
pub mod Request
pub mod Reads
pub mod Handlers
pub mod KcSend
pub mod Broadcast
pub mod Clients
pub mod Returns
pub mod Cases
pub mod Adds
pub mod Dispatch
pub mod Frames
pub mod Loop
pub mod Subscribe
pub mod Toggle
pub mod Answers
pub mod Requests
pub mod Batch
use watchfirewall.Prelude.{
  ℕ, zero, suc, ◌+◌, Bool, true, false, not, Option, none, some, ◌==◌, if◌then◌else◌, bit_and,
  update,
}
use watchfirewall.Kernel.{Atomics}
use watchfirewall.SimpleBase.{release}
use watchfirewall.Links.{Ptr, null}
use watchfirewall.Rule.{InitMemory}
use watchfirewall.Rules.{Rules}
use watchfirewall.Queue.{Queue}
use watchfirewall.Messages.{Message}
use watchfirewall.Messages.Types.{
  message_class_provider_of_rules, message_class_info_rules, message_class_info_sockets,
  message_class_common,
}
use watchfirewall.Client.{Client, init_with_client, close_signal, free, send}

pub record Firewall : Type 0 where
  pub firewall_up : Bool
  pub closing : Bool
  pub count_subscribers_for_info_sockets : ℕ
  pub count_subscribers_for_info_rules : ℕ
  pub count_subscribers_asa_provider_of_rules : ℕ
  pub count_subscribers_for_debug : ℕ
  pub rules : Rules
  -- Whether lockClientsQueue is there.
  pub lock_clients_queue : Bool
  pub clients : Ptr
  pub next : Ptr → Ptr
  pub client : Ptr → Client
  -- Whether there is a client at the address: `new` makes one, Free deletes it.
  pub live : Ptr → Bool

-- What the callbacks return, and the start and the stop of the extension.
pub data Errno : Type 0 where
  kern_success kern_failure kern_terminated enomem ebusy : Errno

-- What the kernel does while one message is handled: whether the answer is allocated, the queue
-- node that each client gets for a message, the outcome of `new Rule` and of Rule::Init, and the time.
-- `fuel` bounds the loops.
pub record Env : Type 0 where
  pub answer_fits : Bool
  pub node : Ptr → Ptr
  pub rule : Ptr
  pub memory : InitMemory
  pub now : ℕ
  pub fuel : ℕ

-- client->Send(message)
unfoldable pub reply : Env → Ptr → Message → Firewall → Firewall
reply env c m fw = record fw { client = update fw.client c (send (env.node c) m (fw.client c)) }

-- for(client = clients; client; client = client->next) client->Send(message);
unfoldable pub send_loop : Env → Message → ℕ → Ptr → Firewall → Option Firewall
send_loop env m zero c fw = none
send_loop env m (suc fuel) c fw = elim (c == null) [
  | true ↦ some fw
  | false ↦ send_loop env m fuel (fw.next c) (reply env c m fw)
]

unfoldable pub send_all : Env → Message → Firewall → Option Firewall
send_all env m fw =
    if not fw.lock_clients_queue then some fw else send_loop env m env.fuel fw.clients fw

-- KcConnect: `c` is what `new Client()` gives, and the flags say what InitWithClient gets.
unfoldable pub kc_connect :
    Atomics → Ptr → (lock_queue lock_work_thread thread : Bool) → ℕ → Firewall → Errno × Firewall
kc_connect os c lock_queue lock_work_thread thread unit fw =
    if fw.closing
    then (kern_failure, fw)
    else if c == null
    then (enomem, fw)
    else elim (init_with_client lock_queue lock_work_thread thread unit (fw.client c).queue) [
      | none ↦ (enomem, fw)
      | some new ↦ (
        kern_success,
        record fw {
          next = update fw.next c fw.clients;
          clients = c;
          client = update fw.client c new;
          live = update fw.live c true;
          count_subscribers_for_debug = (os.increment fw.count_subscribers_for_debug).1;
        },
      )
    ]

-- `if(classes & class) OSDecrementAtomic(&count)`
abbrev pub leave : Atomics → ℕ → ℕ → ℕ → ℕ
leave os classes class count = if bit_and classes class == 0 then count else (os.decrement count).1

-- The body of the loop of KcDisconnect, once `curr` is found behind `prev`.
unfoldable pub disconnect_at : Atomics → Ptr → Ptr → Firewall → Firewall
disconnect_at os prev curr fw =
    let closed = close_signal os (fw.client curr) in
    let classes = closed.registred_message_clases in
    let (left, freed) = release os closed.references in
    let unlinked : Firewall =
      if prev == null
      then record fw { clients = fw.next curr }
      else record fw { next = update fw.next prev (fw.next curr) } in
    record unlinked {
      client = update fw.client curr (
          if freed
          then free (record closed { references = left })
          else record closed { references = left });
      live = if freed then update fw.live curr false else fw.live;
      count_subscribers_asa_provider_of_rules =
          leave os classes message_class_provider_of_rules
            fw.count_subscribers_asa_provider_of_rules;
      count_subscribers_for_info_rules =
          leave os classes message_class_info_rules fw.count_subscribers_for_info_rules;
      count_subscribers_for_info_sockets =
          leave os classes message_class_info_sockets fw.count_subscribers_for_info_sockets;
      count_subscribers_for_debug =
          leave os classes message_class_common fw.count_subscribers_for_debug;
    }

unfoldable pub disconnect_loop : Atomics → ℕ → Ptr → Ptr → Ptr → Firewall → Option Firewall
disconnect_loop os zero c prev curr fw = none
disconnect_loop os (suc fuel) c prev curr fw = elim (curr == null) [
  | true ↦ some fw
  | false ↦ elim (curr == c) [
    | true ↦ some (disconnect_at os prev curr fw)
    | false ↦ disconnect_loop os fuel c curr (fw.next curr) fw
  ]
]

unfoldable pub kc_disconnect : Atomics → ℕ → Ptr → Firewall → Option Firewall
kc_disconnect os fuel c fw =
    if c == null then some fw else disconnect_loop os fuel c null fw.clients fw
