-- ===== src/Lifecycle/Start.antt =====
-- The start of the extension (Kext/firewall.cpp, Firewall::Init): what it comes to when the kernel refuses something.
use watchfirewall.Prelude.{
  map, ◌≢◌, ◌||◌, if◌then◌else◌, [], ◌∷◌, ap, ◌∙◌, ℕ, suc, ◌≡◌, refl, sym, subst, Bool, true, false,
  not, ◌&&◌, List,
}
use watchfirewall.Kernel.{Atomics}
use watchfirewall.Links.{null}
use watchfirewall.Rules.{free_rules}
use watchfirewall.Applications.{free_applications}
use watchfirewall.Cookies.{have_attached_sockets}
use watchfirewall.Filter.{returns, panics, Extension}
use watchfirewall.Lifecycle.{
  State, Protocol, Grants, Lock, absent, allocated, init_cookies, init_rules, init_applications,
  register_filters, unregister_filters, register_kernel_control, free_rules_list, stop_routine,
  free_applications_list, free_cookies_list,
}
use watchfirewall.Lifecycle.Watch.{init, undo_rules, undo_all}

-- The static object `firewall` when the extension is loaded: its fields are 0. What stands at addresses where
-- nothing is allocated is taken from `x`.
abbrev pub at_load : Extension → List Protocol → State
at_load x protocols =
    let fw = x.firewall in
    let rules = fw.rules in
    let apps = x.applications in
    let cookies = x.socket_cookies in
    record {
      extension = record x {
        firewall = record fw {
          closing = false;
          lock_clients_queue = false;
          clients = null;
          rules = record rules { links = record (rules.links) { root = null } };
        };
        applications = record apps { links = record (apps.links) { root = null } };
        socket_cookies = record cookies { links = record (cookies.links) { root = null } };
      };
      cookies_lock = absent;
      rules_lock = absent;
      applications_lock = absent;
      routine_lock = absent;
      thread = false;
      process_listener = false;
      kernel_control = false;
      protocols = protocols;
    }

abbrev is_allocated : Lock → Bool
is_allocated allocated = true
is_allocated _ = false

-- Whether the kernel grants all that Init asks for.
abbrev pub all_granted : Grants → Bool
all_granted g =
    g.tag_found
    && g.rules_lock
    && g.applications_lock
    && g.routine_lock
    && g.thread_starts
    && g.listens
    && g.clients_lock
    && not g.control_fails

-- The extension is up: it has its locks, its thread and its listener, and serves clients.
pub record Up (g : Grants) (protocols : List Protocol) (s : State) : Type 0 where
  pub cookies_lock : s.cookies_lock ≡ allocated
  pub rules_lock : s.rules_lock ≡ allocated
  pub applications_lock : s.applications_lock ≡ allocated
  pub routine_lock : s.routine_lock ≡ allocated
  pub thread : s.thread ≡ true
  pub process_listener : s.process_listener ≡ true
  pub clients_lock : s.extension.firewall.lock_clients_queue ≡ true
  pub kernel_control : s.kernel_control ≡ true
  pub opened : s.extension.firewall.closing ≡ false
  -- Each filter is registered whose registration does not fail.
  pub filters :
      s.protocols
      ≡ map
          (λ (p : Protocol). record p { state = p.state || not (g.filter_fails p.handle) })
          protocols

-- Whether all is granted that comes before the filters.
abbrev pub gets_to_filters : Grants → Bool
gets_to_filters g =
    g.tag_found && g.rules_lock && g.applications_lock && g.routine_lock && g.thread_starts
    && g.listens

-- The filters that are left: where they were registered at all, those that were, or had been, and that can not be
-- unregistered.
abbrev pub filters_left : Bool → (fails unregister_fails : ℕ → Bool) → List Protocol → List Protocol
filters_left false fails unregister_fails ps = ps
filters_left true fails unregister_fails ps =
    map
      (λ (p : Protocol). record p {
        state = (p.state || not (fails p.handle)) && unregister_fails p.handle;
      })
      ps

-- It is down: no lock that was allocated for cookies, rules, applications or clients is left, nobody listens to the
-- processes or serves clients, and the filters are unregistered that can be. The thread runs only where
-- the listener alone was refused that Applications::Init asks for.
pub record Down (g : Grants) (unregister_fails : ℕ → Bool) (protocols : List Protocol) (s : State)
    : Type 0 where
  pub cookies_lock : s.cookies_lock ≢ allocated
  pub rules_lock : s.rules_lock ≡ absent
  pub applications_lock : s.applications_lock ≢ allocated
  pub routine_lock : s.routine_lock ≢ allocated
  pub process_listener : s.process_listener ≡ false
  pub clients_lock : s.extension.firewall.lock_clients_queue ≡ false
  pub kernel_control : s.kernel_control ≡ false
  pub thread : s.thread ≡ (
      g.tag_found
      && g.rules_lock
      && g.applications_lock
      && g.routine_lock
      && g.thread_starts
      && not g.listens)
  pub filters :
      s.protocols ≡ filters_left (gets_to_filters g) g.filter_fails unregister_fails protocols

abbrev pub ComesTo : Grants → (unregister_fails : ℕ → Bool) → List Protocol → Bool → State → Type 0
ComesTo g unregister_fails protocols true s = Up g protocols s
ComesTo g unregister_fails protocols false s = Down g unregister_fails protocols s

or_false : (b : Bool) → b ≡ b || false
or_false true = refl
or_false false = refl

or_true : (b : Bool) → true ≡ b || true
or_true true = refl
or_true false = refl

registered :
    (p : Protocol) (f : Bool)
    → (if f then p else record p { state = true }) ≡ record p { state = p.state || not f }
registered p true i = record p { state = or_false p.state i }
registered p false i = record p { state = or_true p.state i }

register_filters-map :
    (fails : ℕ → Bool) (ps : List Protocol)
    → register_filters fails ps
      ≡ map (λ (p : Protocol). record p { state = p.state || not (fails p.handle) }) ps
unfolding register_filters
register_filters-map fails [] = refl
register_filters-map fails (p ∷ ps) =
    λ i. registered p (fails p.handle) i ∷ register_filters-map fails ps i

unregistered :
    (p : Protocol) (b u : Bool)
    → p.state ≡ b
    → (if p.state && not u then record p { state = false } else p)
      ≡ record p { state = p.state && u }
unregistered p true true e = rw e refl
unregistered p true false e = rw e refl
unregistered p false u e = rw e refl

unregister_filters-map :
    (fails : ℕ → Bool) (ps : List Protocol)
    → unregister_filters fails ps
      ≡ map (λ (p : Protocol). record p { state = p.state && fails p.handle }) ps
unfolding unregister_filters
unregister_filters-map fails [] = refl
unregister_filters-map fails (p ∷ ps) =
    λ i. unregistered p p.state (fails p.handle) refl i ∷ unregister_filters-map fails ps i

unregister_filters-register_filters :
    (fails unregister_fails : ℕ → Bool) (ps : List Protocol)
    → unregister_filters unregister_fails (register_filters fails ps)
      ≡ filters_left true fails unregister_fails ps
unregister_filters-register_filters fails unregister_fails ps =
    ap (unregister_filters unregister_fails) (register_filters-map fails ps)
    ∙ unregister_filters-map unregister_fails (map _ ps)
    ∙ maps ps
  where
    maps :
        (ps : List Protocol)
        → map
            (λ (p : Protocol). record p { state = p.state && unregister_fails p.handle })
            (map (λ (p : Protocol). record p { state = p.state || not (fails p.handle) }) ps)
          ≡ filters_left true fails unregister_fails ps
    maps [] = refl
    maps (p ∷ ps) =
        let q : Protocol = record p {
          state = (p.state || not (fails p.handle)) && unregister_fails p.handle;
        } in
        ap (λ qs. q ∷ qs) (maps ps)

not_allocated : (l : Lock) → is_allocated l ≡ false → l ≢ allocated
not_allocated l e h = cc (ap is_allocated h)

down :
    {g : Grants} {unregister_fails : ℕ → Bool} {protocols : List Protocol} {s : State}
    → is_allocated s.cookies_lock ≡ false
    → s.rules_lock ≡ absent
    → is_allocated s.applications_lock ≡ false
    → is_allocated s.routine_lock ≡ false
    → s.process_listener ≡ false
    → s.extension.firewall.lock_clients_queue ≡ false
    → s.kernel_control ≡ false
    → s.thread ≡ (
        g.tag_found
        && g.rules_lock
        && g.applications_lock
        && g.routine_lock
        && g.thread_starts
        && not g.listens)
    → s.protocols ≡ filters_left (gets_to_filters g) g.filter_fails unregister_fails protocols
    → Down g unregister_fails protocols s
down {s = s} c r a l p q k t f = record {
  cookies_lock = not_allocated s.cookies_lock c;
  rules_lock = r;
  applications_lock = not_allocated s.applications_lock a;
  routine_lock = not_allocated s.routine_lock l;
  process_listener = p;
  clients_lock = q;
  kernel_control = k;
  thread = t;
  filters = f;
}

module _ (os : Atomics) (fuel : ℕ) (fails unregister_fails : ℕ → Bool) (x : Extension)
    (protocols : List Protocol) where
  abbrev granted : (tag rules apps routine thread listens clients control_fails : Bool) → Grants
  granted tag rules apps routine thread listens clients control_fails = record {
    cookies_lock = true;
    tag_found = tag;
    rules_lock = rules;
    applications_lock = apps;
    routine_lock = routine;
    thread_starts = thread;
    listens = listens;
    filter_fails = fails;
    clients_lock = clients;
    control_fails = control_fails;
  }

  init_by_case :
      (tag rules apps routine thread listens clients control_fails : Bool)
      → let g = granted tag rules apps routine thread listens clients control_fails in
        (s : State) × (init os (suc fuel) unregister_fails g (at_load x protocols)
          ≡ returns (all_granted g, s))
        × ComesTo g unregister_fails protocols (all_granted g) s
  unfolding init undo_rules undo_all init_cookies init_rules init_applications register_filters
      unregister_filters register_kernel_control free_rules_list stop_routine free_applications_list
      free_cookies_list free_rules free_applications have_attached_sockets
  init_by_case false rules apps routine thread listens clients control_fails =
      (_, refl, down refl refl refl refl refl refl refl refl refl)
  init_by_case true false apps routine thread listens clients control_fails =
      (_, refl, down refl refl refl refl refl refl refl refl refl)
  init_by_case true true false routine thread listens clients control_fails =
      (_, refl, down refl refl refl refl refl refl refl refl refl)
  init_by_case true true true false thread listens clients control_fails =
      (_, refl, down refl refl refl refl refl refl refl refl refl)
  init_by_case true true true true false listens clients control_fails =
      (_, refl, down refl refl refl refl refl refl refl refl refl)
  init_by_case true true true true true false clients control_fails =
      (_, refl, down refl refl refl refl refl refl refl refl refl)
  init_by_case true true true true true true false control_fails = (
    _,
    refl,
    down refl refl refl refl refl refl refl refl
        (unregister_filters-register_filters fails unregister_fails protocols),
  )
  init_by_case true true true true true true true true = (
    _,
    refl,
    down refl refl refl refl refl refl refl refl
        (unregister_filters-register_filters fails unregister_fails protocols),
  )
  init_by_case true true true true true true true false = (
    _,
    refl,
    record {
      cookies_lock = refl;
      rules_lock = refl;
      applications_lock = refl;
      routine_lock = refl;
      thread = refl;
      process_listener = refl;
      clients_lock = refl;
      kernel_control = refl;
      opened = refl;
      filters = register_filters-map fails protocols;
    },
  )

-- The start of the extension as it was loaded, where the lock of the socket cookies is granted: Init returns true
-- exactly if the kernel grants all else that is asked for, and then the extension is up, with each filter registered
-- that can be; otherwise it is down again, whatever was refused: its locks are freed, its listener and its clients' access
-- gone and each filter unregistered that can be. But where the listener was refused, the thread of
-- CheckIsLiveRoutine is left.
pub init-ComesTo :
    (os : Atomics) (fuel : ℕ) (unregister_fails : ℕ → Bool) (g : Grants) (x : Extension)
    (protocols : List Protocol)
    → g.cookies_lock ≡ true
    → (s : State) × (init os (suc fuel) unregister_fails g (at_load x protocols)
        ≡ returns (all_granted g, s))
      × ComesTo g unregister_fails protocols (all_granted g) s
init-ComesTo os fuel unregister_fails g x protocols e =
    subst
      (λ b.
        let h : Grants = record g { cookies_lock = b } in
        (s : State) × (init os (suc fuel) unregister_fails h (at_load x protocols)
          ≡ returns (all_granted h, s))
        × ComesTo h unregister_fails protocols (all_granted h) s)
      (sym e)
      (init_by_case os fuel g.filter_fails unregister_fails x protocols g.tag_found g.rules_lock
        g.applications_lock g.routine_lock g.thread_starts g.listens g.clients_lock g.control_fails)

-- Where the lock of the socket cookies is refused, Init frees it nevertheless, at NULL.
pub init-panics :
    (os : Atomics) (fuel : ℕ) (unregister_fails : ℕ → Bool) (g : Grants) (x : Extension)
    (protocols : List Protocol)
    → g.cookies_lock ≡ false
    → init os fuel unregister_fails g (at_load x protocols) ≡ panics
unfolding init init_cookies
init-panics os fuel unregister_fails g x protocols e = rw e refl
