-- ===== src/Filter/Detach.antt =====
-- Detach of the socket filter (Kext/firewall.cpp): what becomes of a socket's cookie, and of what it holds.
use watchfirewall.Prelude.{
  ◌<◌, ◌≡◌, ◌≢◌, inl, inr, refl, ap, ◌∙◌, true, false, List, [], ◌∷◌, ◌++◌, none, some, ◌==◌,
  if◌then◌else◌, length, update, ==-ne, ==-refl, Bool-cases,
}
use watchfirewall.Kernel.{Atomics}
use watchfirewall.Links.{Ptr, null}
use watchfirewall.Queue.{Queue}
use watchfirewall.Queue.Contents.{IsQueue, items}
use watchfirewall.Messages.{Message, Origin, Payload}
use watchfirewall.Messages.Layout.{size_of, origin}
use watchfirewall.Messages.Types.{message_type_sflt_detach}
use watchfirewall.Messages.Debug.{create_sflt_detach}
use watchfirewall.Rules.{release_rule}
use watchfirewall.Applications.{release_application}
use watchfirewall.Cookies.{DeferredData, remove}
use watchfirewall.Cookies.Attached.{IsCookies, remove-IsCookies}
use watchfirewall.Cookies.Deferred.{clear-Seg, for_each, both_freed}
use watchfirewall.Firewall.{Firewall, Env}
use watchfirewall.Firewall.Broadcast.{HasClients, reached}
use watchfirewall.Filter.{
  returns, Extension, free_cleared, free_cookie, remove_cookie, with_firewall, detach_removed,
  detach,
}
use watchfirewall.Filter.Callbacks.{is_silent, debug_open-reached}

abbrev detach_message : Origin → Message
detach_message o = record {
  size = size_of (origin []);
  type = message_type_sflt_detach;
  payload = Payload.plain o;
}

-- The extension without a reference to the rule of a cookie.
abbrev pub without_rule : Atomics → Ptr → Firewall → Firewall
without_rule os rule fw =
    if rule == null then fw else record fw { rules = release_rule os rule fw.rules }

-- The extension that Detach leaves.
pub record Detached (os : Atomics) (env : Env) (c : Ptr) (x y : Extension)
    (clients cookies : List Ptr) (held_back : List DeferredData) : Type 0 where
  pub listed : IsCookies y.socket_cookies cookies
  pub gone : y.live ≡ update x.live c false
  -- Both buffers of all data that were held back are freed, and none is sent.
  pub freed : y.mbufs ≡ x.mbufs ++ for_each both_freed held_back
  pub forgotten : (y.cookie c).deferred.head ≡ null
  pub released : y.applications ≡ (
      if (x.cookie c).application == null
      then x.applications
      else release_application os (x.cookie c).application x.applications)
  -- Only the rule of the cookie and the clients' queues differ, those by at most one message each.
  pub told :
      let fw = without_rule os (x.cookie c).rule x.firewall in
      (m : Message) × (y.firewall ≡ (if is_silent fw then fw else reached env m clients fw))

without_rule-HasClients :
    (os : Atomics) (rule : Ptr) (fw : Firewall) (xs : List Ptr)
    → HasClients fw xs
    → HasClients (without_rule os rule fw) xs
without_rule-HasClients os rule fw xs is = elim (Bool-cases (rule == null)) [
  | inl e ↦ rw e is
  | inr e ↦ rw e (record { locked = is.locked; chain = is.chain; distinct = is.distinct })
]

module _ (os : Atomics) (env : Env) (c : Ptr) (o : Origin) (x : Extension)
    (clients front back nodes : List Ptr) (n : c ≢ null)
    (are_clients : HasClients x.firewall clients) (fuel : length clients < env.fuel)
    (are_cookies : IsCookies x.socket_cookies (front ++ c ∷ back))
    (are_held : IsQueue (x.cookie c).deferred nodes) (nodes_fuel : length nodes < env.fuel) where
  abbrev removed : Extension
  removed = record x { socket_cookies = remove c x.socket_cookies }

  remove_cookie-freed :
      remove_cookie os env.fuel c x
      ≡ free_cleared os c removed (
          some (
            for_each both_freed (items (x.cookie c).deferred nodes),
            watchfirewall.Queue.detach (x.cookie c).deferred,
          ))
  unfolding remove_cookie free_cookie
  remove_cookie-freed = rw (==-ne c null n) (
      ap (free_cleared os c removed)
        (clear-Seg env.fuel (x.cookie c).deferred nodes are_held.chain nodes_fuel))

  -- Detach of an attached cookie, where a message can be made: it returns, whether or not the extension is closing; the
  -- cookie is out of the list and deleted, its data are freed, and its rule and its application
  -- have lost one reference. The loops end with fuel for more than the clients and the data.
  pub detach-Detached :
      (y : Extension) × (detach os env true c o x ≡ returns y)
      × Detached os env c x y clients (front ++ back) (items (x.cookie c).deferred nodes)
  unfolding detach detach_removed free_cleared watchfirewall.Queue.detach create_sflt_detach
  detach-Detached =
      let fw = without_rule os (x.cookie c).rule x.firewall in
      let fw' = if is_silent fw then fw else reached env (detach_message o) clients fw in
      let told =
        debug_open-reached env fw clients
          (without_rule-HasClients os (x.cookie c).rule x.firewall clients are_clients) fuel
          (detach_message o) in
      let y : Extension = record x {
        socket_cookies = remove c x.socket_cookies;
        cookie = update x.cookie c (record (x.cookie c) {
          deferred = watchfirewall.Queue.detach (x.cookie c).deferred;
          from = none;
          to = none;
        });
        live = update x.live c false;
        mbufs = x.mbufs ++ for_each both_freed (items (x.cookie c).deferred nodes);
        applications =
            if (x.cookie c).application == null
            then x.applications
            else release_application os (x.cookie c).application x.applications;
        firewall = fw;
      } in
      (
        record y { firewall = fw' },
        ap (detach_removed env true o) remove_cookie-freed ∙ ap (with_firewall y) told,
        record {
          listed = remove-IsCookies c x.socket_cookies front back are_cookies;
          gone = refl;
          freed = refl;
          forgotten = rw (==-refl c) refl;
          released = refl;
          told = (_, refl);
        },
      )
