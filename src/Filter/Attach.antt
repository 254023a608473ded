-- ===== src/Filter/Attach.antt =====
-- Attach of the socket filter (Kext/firewall.cpp): the cookie that a socket gets.
use watchfirewall.Prelude.{
  ℕ, ◌<◌, ◌%◌, ◌^◌, ◌≡◌, ◌≢◌, ◌⊎◌, inl, inr, refl, sym, subst, ap, ◌∙◌, Bool, true, false, List, [],
  ◌∷◌, Option, none, some, ◌==◌, if◌then◌else◌, length, Fresh, update, ==-ne, ==-refl, Bool-cases,
}
use watchfirewall.Kernel.{Atomics}
use watchfirewall.Links.{Ptr, null}
use watchfirewall.Links.Segment.{Seg-update, Exactly, Linked-update}
use watchfirewall.Links.Edit.{IsList}
use watchfirewall.Queue.Contents.{IsQueue}
use watchfirewall.Messages.{Message, Origin, Payload}
use watchfirewall.Messages.Layout.{size_of, origin}
use watchfirewall.Messages.Types.{message_type_sflt_attach}
use watchfirewall.Messages.Debug.{create_sflt_attach}
use watchfirewall.Applications.{Applications, get}
use watchfirewall.Applications.Get.{Got, known, created, get-Got}
use watchfirewall.Cookies.{SocketCookies}
use watchfirewall.Cookies.Attached.{IsCookies, add-IsCookies}
use watchfirewall.Firewall.{Env, Errno, kern_success, enomem}
use watchfirewall.Firewall.Broadcast.{HasClients, reached}
use watchfirewall.Filter.{
  Outcome, returns, SockKind, Extension, socket_cookie_state_allowed, set_socket, attached, attach,
  attach_got, with_cookie,
}
use watchfirewall.Filter.Callbacks.{debug-reached}

-- Attach while the extension is closing, or without memory for a cookie: ENOMEM, and nothing changes.
pub attach-refused :
    (os : Atomics) (env : Env) (fits : Bool) (c a : Ptr) (o : Origin) (kind : SockKind)
    (x : Extension)
    → (x.firewall.closing ≡ true) ⊎ (c ≡ null)
    → attach os env fits c a o kind x ≡ returns (enomem, none, x)
unfolding attach
attach-refused os env fits c a o kind x (inl e) = rw e refl
attach-refused os env fits c a o kind x (inr e) =
    let none_there : (c == null) ≡ true = rw e refl in
    elim (Bool-cases x.firewall.closing) [ inl f ↦ rw f refl | inr f ↦ rw (f, none_there) refl ]

abbrev fresh_links : Ptr → SocketCookies → SocketCookies
fresh_links c s = record s {
  links = record (s.links) { next = update s.next c null; prev = update s.prev c null };
}

fresh_links-IsCookies :
    (c : Ptr) (s : SocketCookies) (xs : List Ptr)
    → Fresh c xs
    → IsCookies s xs
    → IsCookies (fresh_links c s) xs
fresh_links-IsCookies c s xs f is = record {
  is_list = record {
    forward = record {
      chain = Seg-update s.next c null s.root xs null f is.is_list.chain;
      distinct = is.is_list.distinct;
    };
    backs = Linked-update s.prev c null Exactly null xs f is.is_list.backs;
  };
  counted = is.counted;
}

attached-IsCookies :
    (c so : ℕ) (kind : SockKind) (application : Ptr) (x : Extension) (xs : List Ptr)
    → c ≢ null
    → Fresh c xs
    → IsCookies x.socket_cookies xs
    → IsCookies (attached c so kind application x).socket_cookies (c ∷ xs)
unfolding attached
attached-IsCookies c so kind application x xs n f is =
    add-IsCookies c (fresh_links c x.socket_cookies) xs n f (rw (==-refl c) refl)
      (fresh_links-IsCookies c x.socket_cookies xs f is)

-- The extension that Attach leaves.
pub record Attached (os : Atomics) (env : Env) (c a : Ptr) (o : Origin) (kind : SockKind)
    (x y : Extension) (clients cookies apps : List Ptr) : Type 0 where
  -- The cookie is the first of the sockets' list, and lets the socket pass.
  pub listed : IsCookies y.socket_cookies (c ∷ cookies)
  pub allowed : (y.cookie c).state ≡ socket_cookie_state_allowed
  pub about : (y.cookie c).socket ≡ o.so
  pub protocol : (y.cookie c).sock_protocol ≡ kind.protocol % 2 ^ 16
  pub idle : IsQueue (y.cookie c).deferred []
  pub unruled : (y.cookie c).rule ≡ null
  pub lives : y.live ≡ update x.live c true
  pub mbufs : y.mbufs ≡ x.mbufs
  -- It holds the application of the process, which is not NULL.
  pub held : Got os x.applications o.pid apps a (y.cookie c).application y.applications
  pub there : (y.cookie c).application ≢ null
  -- Only the clients' queues differ, by at most one message for each.
  pub told :
      (m : Message) × (y.firewall ≡ (
        if x.firewall.count_subscribers_for_debug == 0
        then x.firewall
        else reached env m clients x.firewall))

Got-there :
    {os : Atomics} {s t : Applications} {pid : ℕ} {xs : List Ptr} {a r : Ptr}
    → a ≢ null
    → Got os s pid xs a r t
    → r ≢ null
Got-there n (known f r e) = r
Got-there n (created all r is e k) = subst (λ p. p ≢ null) (sym r) n

attach-open :
    (os : Atomics) (env : Env) (fits : Bool) (c a : Ptr) (o : Origin) (kind : SockKind)
    (x : Extension)
    → x.firewall.closing ≡ false
    → c ≢ null
    → attach os env fits c a o kind x
      ≡ attach_got env fits c o kind x (get os env.fuel a o.pid x.applications)
unfolding attach
attach-open os env fits c a o kind x running n =
    let refused : Outcome (Errno × Option Ptr × Extension) = returns (enomem, none, x) in
    let goes_on = attach_got env fits c o kind x (get os env.fuel a o.pid x.applications) in
    subst (λ b. (if b then refused else if c == null then refused else goes_on) ≡ goes_on)
      (sym running) (rw (==-ne c null n) refl)

abbrev attach_message : Origin → ℕ → Message
attach_message o protocol = record {
  size = size_of (origin (2 ∷ []));
  type = message_type_sflt_attach;
  payload = Payload.attach o (protocol % 2 ^ 16);
}

module _ (os : Atomics) (env : Env) (c a : Ptr) (o : Origin) (kind : SockKind) (x : Extension)
    (clients cookies apps : List Ptr) (running : x.firewall.closing ≡ false) (n : c ≢ null)
    (are_clients : HasClients x.firewall clients) (fuel : length clients < env.fuel)
    (are_cookies : IsCookies x.socket_cookies cookies) (new_cookie : Fresh c cookies)
    (are_apps : IsList x.applications.links apps) (opened : x.applications.closing ≡ 0)
    (apps_fuel : length apps < env.fuel) (m : a ≢ null) (new_app : Fresh a apps)
    (unlinked : x.applications.prev a ≡ null) where
  attach_got-Attached :
      (r : Ptr) (t : Applications)
      → r ≢ null
      → Got os x.applications o.pid apps a r t
      → (y : Extension) × (attach_got env true c o kind x (some (r, t))
          ≡ returns (kern_success, some c, y))
        × Attached os env c a o kind x y clients cookies apps
  unfolding attach_got attached set_socket create_sflt_attach
  attach_got-Attached r t there got =
      let z = attached c o.so kind r (record x { applications = t }) in
      let told =
        debug-reached env x.firewall clients are_clients fuel
          (attach_message o (z.cookie c).sock_protocol) in
      let y : Extension = record z {
        firewall =
            if x.firewall.count_subscribers_for_debug == 0
            then x.firewall
            else reached env (attach_message o (z.cookie c).sock_protocol) clients x.firewall;
      } in
      (
        y,
        rw (==-ne r null there) (ap (with_cookie c z) told),
        record {
          listed = attached-IsCookies c o.so kind r x cookies n new_cookie are_cookies;
          allowed = rw (==-refl c) refl;
          about = rw (==-refl c) refl;
          protocol = rw (==-refl c) refl;
          idle = rw (==-refl c) (record { chain = refl; distinct = tt; ends = refl });
          unruled = rw (==-refl c) refl;
          lives = refl;
          mbufs = refl;
          held = rw (==-refl c) got;
          there = rw (==-refl c) there;
          told = (_, refl);
        },
      )

  -- Attach while nothing is closing and there is memory: KERN_SUCCESS, and the socket has a new cookie, which is in
  -- front of the list, counted, without data or rule, and holds a reference to the application of
  -- the process.
  pub attach-Attached :
      (y : Extension) × (attach os env true c a o kind x ≡ returns (kern_success, some c, y))
      × Attached os env c a o kind x y clients cookies apps
  unfolding attach
  attach-Attached =
      let (r, t, e, got) =
        get-Got os env.fuel a o.pid x.applications apps are_apps opened apps_fuel m new_app
          unlinked in
      let (y, f, is) = attach_got-Attached r t (Got-there m got) got in
      (
        y,
        attach-open os env true c a o kind x running n ∙ ap (attach_got env true c o kind x) e ∙ f,
        is,
      )
