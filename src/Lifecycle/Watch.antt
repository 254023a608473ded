-- ===== src/Lifecycle/Watch.antt =====
-- Firewall::Init and Free, and the connection to the kernel control that Free takes down (Kext/firewall.cpp), as
-- watch_start and watch_stop call them (Kext/watch.cpp).
use watchfirewall.Prelude.{
  ℕ, zero, suc, Bool, true, false, not, ◌&&◌, Option, none, some, ◌==◌, if◌then◌else◌,
}
use watchfirewall.Kernel.{Atomics}
use watchfirewall.Links.{null}
use watchfirewall.Messages.{Message}
use watchfirewall.Messages.Create.{create_firewall_closing}
use watchfirewall.Cookies.{have_attached_sockets}
use watchfirewall.Firewall.{Firewall, Env, Errno, kern_success, kern_failure, ebusy, send_all}
use watchfirewall.Filter.{Outcome, returns, panics, runs_out}
use watchfirewall.Lifecycle.{
  State, Grants, set_firewall, and_then, init_cookies, init_rules, init_applications,
  register_filters, unregister_filters, register_kernel_control, free_rules_list,
  free_applications_list, free_cookies_list,
}

-- if(call) then_do else else_do
abbrev pub choose :
    Outcome (Bool × State)
    → (then_do else_do : State → Outcome (Bool × State)) → Outcome (Bool × State)
choose (returns (true, s)) then_do else_do = then_do s
choose (returns (false, s)) then_do else_do = else_do s
choose panics then_do else_do = panics
choose runs_out then_do else_do = runs_out

abbrev pub fails_with : Outcome State → Outcome (Bool × State)
fails_with (returns s) = returns (false, s)
fails_with panics = panics
fails_with runs_out = runs_out

-- The result of socketCookies.Free() is not used here.
abbrev pub free_cookies_last : State → Outcome State
free_cookies_last s = elim (free_cookies_list s) [
  | returns (b, s') ↦ returns s'
  | panics ↦ panics
  | runs_out ↦ runs_out
]

abbrev pub register_all : Grants → State → State
register_all g s = record s { protocols = register_filters g.filter_fails s.protocols }

-- What the kernel, and other threads, do while the extension stops: whether the closing message is allocated, what the
-- others have made of the state each time Free has slept, and which calls fail.
pub record Stopping : Type 0 where
  pub env : Env
  pub message_fits : Bool
  pub others : State → State
  pub deregister_fails : Bool
  pub unregister_fails : ℕ → Bool

abbrev pub unregister_all : (ℕ → Bool) → State → State
unregister_all fails s = record s { protocols = unregister_filters fails s.protocols }

module _ (os : Atomics) where
  unfoldable pub undo_rules : ℕ → State → Outcome State
  undo_rules fuel s = and_then (free_rules_list os fuel s) free_cookies_last

  unfoldable pub undo_all : ℕ → State → Outcome State
  undo_all fuel s = and_then (free_applications_list os fuel s) (undo_rules fuel)

  -- Firewall::Init. `unregister_fails` and `fuel` are for the steps that are taken back.
  unfoldable pub init : ℕ → (unregister_fails : ℕ → Bool) → Grants → State → Outcome (Bool × State)
  init fuel unregister_fails g s =
      choose (init_cookies g (set_firewall (record (s.extension.firewall) { closing = false }) s))
        (λ s1.
          choose (returns (init_rules g s1))
            (λ s2.
              choose (returns (init_applications os g s2))
                (λ s3.
                  choose (returns (register_kernel_control g (register_all g s3)))
                    (λ s4. returns (true, s4))
                    (λ s4. fails_with (undo_all fuel (unregister_all unregister_fails s4))))
                (λ s3. fails_with (undo_rules fuel s3)))
            (λ s2. fails_with (free_cookies_last s2)))
        (λ s1. returns (false, s1))

-- `deregister:` of UnregisterKernelControl.
unfoldable pub deregister : Stopping → State → Bool × State
deregister k s = if s.kernel_control && k.deregister_fails then (false, s) else (
  true,
  record (set_firewall (record (s.extension.firewall) { lock_clients_queue = false }) s) {
    kernel_control = false;
  },
)

-- The loop that waits for the clients to be gone: `tries` looks, with 200 ms of sleep after each that finds some.
unfoldable pub wait_clients : Stopping → (tries : ℕ) → State → Bool × State
wait_clients k zero s = (false, s)
wait_clients k (suc tries) s =
    let rest = wait_clients k tries (k.others s) in
    if s.extension.firewall.clients == null then deregister k s else rest

-- Behind the call of Send, with its result.
abbrev pub told_closing : Stopping → State → Option Firewall → Outcome (Bool × State)
told_closing k s none = runs_out
told_closing k s (some fw) = returns (wait_clients k 2 (set_firewall fw s))

-- if(message) { Send(message); message->Release(); } and the loop.
abbrev pub tell_closing : Stopping → State → Option Message → Outcome (Bool × State)
tell_closing k s none = returns (wait_clients k 2 s)
tell_closing k s (some m) = told_closing k s (send_all k.env m s.extension.firewall)

unfoldable pub unregister_kernel_control : Stopping → State → Outcome (Bool × State)
unregister_kernel_control k s =
    if not s.extension.firewall.lock_clients_queue
    then returns (true, s)
    else tell_closing k s (create_firewall_closing k.message_fits)

-- The end of Free, behind the lists of applications and rules.
abbrev pub cookies_last : Outcome State → Outcome (Bool × State)
cookies_last (returns s) = free_cookies_list s
cookies_last panics = panics
cookies_last runs_out = runs_out

module _ (os : Atomics) where
  -- Firewall::Free. The sleeps of 1 ms between its parts are left out.
  unfoldable pub free : Stopping → State → Outcome (Bool × State)
  free k s =
      choose
        (unregister_kernel_control k
          (set_firewall (record (s.extension.firewall) { closing = true }) s))
        (λ s1.
          if have_attached_sockets s1.extension.socket_cookies
          then returns (false, s1)
          else cookies_last (
              and_then (free_applications_list os k.env.fuel (unregister_all k.unregister_fails s1))
                (free_rules_list os k.env.fuel)))
        (λ s1. returns (false, s1))

  abbrev with_code : Errno → Outcome (Bool × State) → Outcome (Errno × State)
  with_code e (returns (true, s)) = returns (kern_success, s)
  with_code e (returns (false, s)) = returns (e, s)
  with_code e panics = panics
  with_code e runs_out = runs_out

  unfoldable pub watch_start :
      ℕ → (unregister_fails : ℕ → Bool) → Grants → State → Outcome (Errno × State)
  watch_start fuel unregister_fails g s = with_code kern_failure (init os fuel unregister_fails g s)

  unfoldable pub watch_stop : Stopping → State → Outcome (Errno × State)
  watch_stop k s = with_code ebusy (free k s)
