-- ===== src/Lifecycle/TakeDown.antt =====
-- The end of Firewall::Free (Kext/firewall.cpp), when no client and no socket is left.
use watchfirewall.Prelude.{
  map, All, ◌≢◌, not, ◌&&◌, Bool-cases, inl, inr, [], ◌∷◌, ℕ, ◌<◌, ◌≡◌, refl, sym, ap, ◌∙◌, Bool,
  true, false, List, if◌then◌else◌, length,
}
use watchfirewall.Kernel.{Atomics}
use watchfirewall.Links.{Ptr, null, Links}
use watchfirewall.Links.Edit.{IsList, IsLoose}
use watchfirewall.Rules.Free.{free_rules-Released}
use watchfirewall.Applications.Free.{free_applications-root}
use watchfirewall.Cookies.{have_attached_sockets}
use watchfirewall.Filter.{Outcome, returns}
use watchfirewall.Lifecycle.{
  State, Protocol, unregister_filters, Lock, absent, allocated, set_firewall, set_applications,
  and_then, rules_freed, applications_freed, free_rules_list, stop_routine, free_applications_list,
  free_cookies_list,
}
use watchfirewall.Lifecycle.Watch.{Stopping, cookies_last}

abbrev pub handles_of : List Protocol → List ℕ
handles_of = map (λ (p : Protocol). p.handle)

-- The rules are in a list in which a `prev` field is NULL or right, and the applications in a well linked one, with
-- fuel for them, the locks are there, and the table of filters has the given handles.
pub record Intact (fuel : ℕ) (handles : List ℕ) (protocols : List Protocol) (closing : Bool)
    (rule_links application_links : Links)
    (cookies_lock rules_lock applications_lock routine_lock : Lock) : Type 0 where
  pub is_closing : closing ≡ true
  pub has_handles : handles_of protocols ≡ handles
  pub has_cookies_lock : cookies_lock ≡ allocated
  pub has_rules_lock : rules_lock ≡ allocated
  pub has_applications_lock : applications_lock ≡ allocated
  pub has_routine_lock : routine_lock ≡ allocated
  pub rules : List Ptr
  pub are_rules : IsLoose rule_links rules
  pub rules_fuel : length rules < fuel
  pub applications : List Ptr
  pub are_applications : IsList application_links applications
  pub applications_fuel : length applications < fuel

-- The extension while it stops.
abbrev pub Closing : ℕ → (handles : List ℕ) → State → Type 0
Closing fuel handles s =
    Intact fuel handles s.protocols s.extension.firewall.closing s.extension.firewall.rules.links
      s.extension.applications.links s.cookies_lock s.rules_lock s.applications_lock s.routine_lock

-- A filter that is still registered is one that can not be unregistered.
abbrev pub Unregistered : (ℕ → Bool) → List Protocol → Type 0
Unregistered fails = All (λ (p : Protocol). p.state ≡ true → fails p.handle ≡ true)

-- Everything is taken down: no socket has a cookie, no rule and no application is left, no lock, no thread, no
-- listener, no filter that can be unregistered, and there is no kernel control for clients to connect to.
pub record Stopped (k : Stopping) (handles : List ℕ) (s : State) : Type 0 where
  pub no_cookies : have_attached_sockets s.extension.socket_cookies ≡ false
  pub no_rules : s.extension.firewall.rules.root ≡ null
  pub no_applications : s.extension.applications.root ≡ null
  pub cookies_lock : s.cookies_lock ≡ absent
  pub rules_lock : s.rules_lock ≡ absent
  pub applications_lock : s.applications_lock ≡ absent
  pub routine_lock : s.routine_lock ≡ absent
  pub thread : s.thread ≡ false
  pub process_listener : s.process_listener ≡ false
  pub clients_lock : s.extension.firewall.lock_clients_queue ≡ false
  pub kernel_control : s.kernel_control ≡ false
  pub same_filters : handles_of s.protocols ≡ handles
  pub no_filters : Unregistered k.unregister_fails s.protocols

-- Why Free gives up: when it last looked, before others went on, there was a client; or there was none, and the kernel
-- control can not be taken back; or that is done, and a socket is attached.
pub data Refused (k : Stopping) (t : State) : Type 0 where
  connected : (u : State) → u.extension.firewall.clients ≢ null → t ≡ k.others u → Refused k t
  registered :
      t.extension.firewall.clients ≡ null
      → t.kernel_control ≡ true
      → k.deregister_fails ≡ true
      → Refused k t
  socket_attached :
      t.extension.firewall.lock_clients_queue ≡ false
      → t.kernel_control ≡ false
      → have_attached_sockets t.extension.socket_cookies ≡ true
      → Refused k t

abbrev pub Ends : Stopping → (handles : List ℕ) → Bool → State → Type 0
Ends k handles true s = Stopped k handles s
Ends k handles false s = Closing k.env.fuel handles s × Refused k s

module _ (fails : ℕ → Bool) where
  pub unregister_filters-Unregistered :
      (ps : List Protocol) → Unregistered fails (unregister_filters fails ps)
  unfolding unregister_filters
  unregister_filters-Unregistered [] = tt
  unregister_filters-Unregistered (p ∷ ps) = (
    elim (Bool-cases (p.state && not (fails p.handle))) [
      | inl e ↦ rw e (λ h. cc)
      | inr e ↦ rw e (still p.state (fails p.handle) e)
    ],
    unregister_filters-Unregistered ps,
  )
    where
      still : (b f : Bool) → (b && not f) ≡ false → b ≡ true → f ≡ true
      still true true e h = refl
      still true false e h = cc
      still false f e h = cc

  pub handles_of-unregister_filters :
      (ps : List Protocol) → handles_of (unregister_filters fails ps) ≡ handles_of ps
  unfolding unregister_filters
  handles_of-unregister_filters [] = refl
  handles_of-unregister_filters (p ∷ ps) = elim (Bool-cases (p.state && not (fails p.handle))) [
    | inl e ↦ rw e (ap (λ hs. p.handle ∷ hs) (handles_of-unregister_filters ps))
    | inr e ↦ rw e (ap (λ hs. p.handle ∷ hs) (handles_of-unregister_filters ps))
  ]

module _ (os : Atomics) (k : Stopping) where
  abbrev pub fuel : ℕ
  fuel = k.env.fuel

  abbrev pub rest : State → Outcome (Bool × State)
  rest s = cookies_last (and_then (free_applications_list os fuel s) (free_rules_list os fuel))

  abbrev pub locked : State → State
  locked s = record s {
    cookies_lock = allocated;
    rules_lock = allocated;
    applications_lock = allocated;
    routine_lock = allocated;
  }

  pub locked_lem : (handles : List ℕ) (s : State) → Closing fuel handles s → locked s ≡ s
  locked_lem handles s c i = record s {
    cookies_lock = sym c.has_cookies_lock i;
    rules_lock = sym c.has_rules_lock i;
    applications_lock = sym c.has_applications_lock i;
    routine_lock = sym c.has_routine_lock i;
  }

  -- Where the clients are gone and no socket is attached, the rest is freed.
  pub take_down :
      (handles : List ℕ) (s : State)
      → have_attached_sockets s.extension.socket_cookies ≡ false
      → Closing fuel handles s
      → s.extension.firewall.lock_clients_queue ≡ false
      → s.kernel_control ≡ false
      → Unregistered k.unregister_fails s.protocols
      → (t : State) × (rest (locked s) ≡ returns (true, t)) × Stopped k handles t
  unfolding free_applications_list stop_routine free_rules_list free_cookies_list
  take_down handles s h c q v w =
      let stopping = record (s.extension.applications) {
        closing = (os.increment s.extension.applications.closing).1;
      } in
      let (apps, e, z) =
        free_applications-root os fuel stopping c.applications c.are_applications
          c.applications_fuel in
      let (rules, f, y, all) =
        free_rules-Released os fuel s.extension.firewall.rules c.rules c.are_rules c.rules_fuel in
      let t : State =
        record (set_firewall (record (s.extension.firewall) { rules = rules })
          (set_applications apps s)) {
            cookies_lock = absent;
            rules_lock = absent;
            applications_lock = absent;
            routine_lock = absent;
            thread = false;
            process_listener = false;
          } in
      let s1 : State = record (set_applications stopping (locked s)) {
        process_listener = false;
        routine_lock = absent;
        thread = false;
      } in
      let s2 : State = record (set_applications apps s1) { applications_lock = absent } in
      let s3 : State = record t { cookies_lock = allocated } in
      (
        t,
        ap (λ o. cookies_last (and_then (applications_freed s1 o) (free_rules_list os fuel))) e
            ∙ ap (λ o. cookies_last (rules_freed s2 o)) f
            ∙ ap (λ b. if b then returns (false, s3) else returns (true, t)) h,
        record {
          no_cookies = h;
          no_rules = y;
          no_applications = z;
          cookies_lock = refl;
          rules_lock = refl;
          applications_lock = refl;
          routine_lock = refl;
          thread = refl;
          process_listener = refl;
          clients_lock = q;
          kernel_control = v;
          same_filters = c.has_handles;
          no_filters = w;
        },
      )
