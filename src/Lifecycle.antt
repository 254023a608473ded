-- ===== src/Lifecycle.antt =====
-- The start and the stop of the extension: watch_start and watch_stop (Kext/watch.cpp), Firewall::Init and Free with what they
-- call (Kext/firewall.cpp), and Init and Free of the rules, the applications and the socket cookies. What other
-- threads do meanwhile enters where Free sleeps and waits for the clients.
pub mod Watch
pub mod Start
pub mod TakeDown
pub mod Stop
use watchfirewall.Prelude.{
  ℕ, zero, suc, Bool, true, false, not, ◌&&◌, List, [], ◌∷◌, Option, none, some, ◌==◌,
  if◌then◌else◌,
}
use watchfirewall.Kernel.{Atomics}
use watchfirewall.Links.{Ptr, null}
use watchfirewall.Messages.{Message}
use watchfirewall.Messages.Create.{create_firewall_closing}
use watchfirewall.Rules.{Rules, free_rules}
use watchfirewall.Applications.{Applications, free_applications}
use watchfirewall.Cookies.{have_attached_sockets}
use watchfirewall.Firewall.{Firewall, Env, Errno, kern_success, kern_failure, send_all}
use watchfirewall.Filter.{Outcome, returns, panics, runs_out, Extension}

-- An IOLock*: NULL, allocated, or freed and not set to NULL.
pub data Lock : Type 0 where
  absent allocated dangling : Lock

-- A row of the table `protocols`: the handle and whether its filter is registered.
pub record Protocol : Type 0 where
  pub handle : ℕ
  pub state : Bool

pub record State : Type 0 where
  pub extension : Extension
  pub cookies_lock : Lock
  pub rules_lock : Lock
  pub applications_lock : Lock
  pub routine_lock : Lock
  -- Whether the thread of CheckIsLiveRoutine runs. It holds lockRoutine then.
  pub thread : Bool
  pub process_listener : Bool
  -- Whether kernelControlReference is set.
  pub kernel_control : Bool
  pub protocols : List Protocol

-- What the kernel grants at the start.
pub record Grants : Type 0 where
  pub cookies_lock : Bool
  pub tag_found : Bool
  pub rules_lock : Bool
  pub applications_lock : Bool
  pub routine_lock : Bool
  pub thread_starts : Bool
  pub listens : Bool
  pub filter_fails : ℕ → Bool
  pub clients_lock : Bool
  pub control_fails : Bool

abbrev allocate : Bool → Lock
allocate true = allocated
allocate false = absent

abbrev pub set_firewall : Firewall → State → State
set_firewall fw s = record s { extension = record (s.extension) { firewall = fw } }

abbrev pub set_applications : Applications → State → State
set_applications apps s = record s { extension = record (s.extension) { applications = apps } }

-- SocketCookies::Init. IOLockFree is not meant for NULL, which it gets where IOLockAlloc fails.
unfoldable pub init_cookies : Grants → State → Outcome (Bool × State)
init_cookies g s =
    let x = s.extension in
    let s' : State = record s {
      extension = record x {
        socket_cookies = record (x.socket_cookies) { count_attached_cookies = 0 };
      };
    } in
    elim s.cookies_lock [
      | absent ↦
          if not g.cookies_lock
          then panics
          else if g.tag_found
          then returns (true, record s' { cookies_lock = allocated })
          else returns (false, record s' { cookies_lock = dangling })
      | _ ↦ returns (false, s')
    ]

-- Rules::Init
unfoldable pub init_rules : Grants → State → Bool × State
init_rules g s =
    let fw = s.extension.firewall in
    let s' = set_firewall (record fw { rules = record (fw.rules) { last_changed_time = 0 } }) s in
    (g.rules_lock, record s' { rules_lock = allocate g.rules_lock })

-- Applications::Init
unfoldable pub init_applications : Atomics → Grants → State → Bool × State
init_applications os g s =
    let apps = s.extension.applications in
    let s' = set_applications (record apps { closing = 0 }) s in
    if not g.applications_lock
    then (false, record s' { applications_lock = absent })
    else if not g.routine_lock
    then (false, record s' { applications_lock = dangling; routine_lock = absent })
    else if not g.thread_starts
    then (false, record s' { applications_lock = dangling; routine_lock = dangling })
    else if g.listens
    then (
      true,
      record s' {
        applications_lock = allocated;
        routine_lock = allocated;
        thread = true;
        process_listener = true;
      },
    )
    else (
      false,
      record (set_applications (record apps { closing = (os.increment 0).1 }) s) {
        applications_lock = dangling;
        routine_lock = dangling;
        thread = true;
        process_listener = false;
      },
    )

-- RegisterSocketFilters and UnregisterSocketFilters, which always return true.
unfoldable pub register_filters : (ℕ → Bool) → List Protocol → List Protocol
register_filters fails [] = []
register_filters fails (p ∷ ps) =
    (if fails p.handle then p else record p { state = true }) ∷ register_filters fails ps

unfoldable pub unregister_filters : (ℕ → Bool) → List Protocol → List Protocol
unregister_filters fails [] = []
unregister_filters fails (p ∷ ps) =
    (if p.state && not (fails p.handle) then record p { state = false } else p)
    ∷ unregister_filters fails ps

unfoldable pub register_kernel_control : Grants → State → Bool × State
register_kernel_control g s =
    let fw = s.extension.firewall in
    if not g.clients_lock
    then (false, set_firewall (record fw { lock_clients_queue = false }) s)
    else if g.control_fails
    then (false, set_firewall (record fw { lock_clients_queue = false }) s)
    else (
      true,
      record (set_firewall (record fw { lock_clients_queue = true }) s) { kernel_control = true },
    )

-- Rules::Free. Its lock is held over the loop.
abbrev pub rules_freed : State → Option Rules → Outcome State
rules_freed s none = runs_out
rules_freed s (some rules) =
    returns (record (set_firewall (record (s.extension.firewall) { rules = rules }) s) {
      rules_lock = absent;
    })

unfoldable pub free_rules_list : Atomics → ℕ → State → Outcome State
free_rules_list os fuel s = elim s.rules_lock [
  | absent ↦ returns s
  | allocated ↦ rules_freed s (free_rules os fuel s.extension.firewall.rules)
  | dangling ↦ panics
]

-- Applications::Free. Locking lockRoutine waits for the end of the thread, which sees `closing`.
abbrev pub applications_freed : State → Option Applications → Outcome State
applications_freed s none = runs_out
applications_freed s (some apps) =
    returns (record (set_applications apps s) { applications_lock = absent })

unfoldable pub stop_routine : Atomics → State → Outcome State
stop_routine os s =
    let apps = s.extension.applications in
    let s' : State =
      record (set_applications (record apps { closing = (os.increment apps.closing).1 }) s) {
        process_listener = false;
      } in
    elim s.applications_lock [
      | absent ↦ returns s'
      | dangling ↦ panics
      | allocated ↦ elim s.routine_lock [
        | absent ↦ returns s'
        | dangling ↦ panics
        | allocated ↦ returns (record s' { routine_lock = absent; thread = false })
      ]
    ]

abbrev pub and_then : Outcome State → (State → Outcome State) → Outcome State
and_then (returns s) k = k s
and_then panics k = panics
and_then runs_out k = runs_out

unfoldable pub free_applications_list : Atomics → ℕ → State → Outcome State
free_applications_list os fuel s = and_then (stop_routine os s) (λ s'. elim s.applications_lock [
  | absent ↦ returns s'
  | _ ↦ applications_freed s' (free_applications os fuel s'.extension.applications)
])

-- SocketCookies::Free. HaveAttachedSockets takes the lock.
unfoldable pub free_cookies_list : State → Outcome (Bool × State)
free_cookies_list s = elim s.cookies_lock [
  | allocated ↦
      if have_attached_sockets s.extension.socket_cookies
      then returns (false, s)
      else returns (true, record s { cookies_lock = absent })
  | _ ↦ panics
]
