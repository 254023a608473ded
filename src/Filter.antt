-- ===== src/Filter.antt =====
-- Kext/firewall.cpp: the callbacks of the socket filter, which the kernel calls for the sockets of the protocols it is
-- registered for, and SocketCookie of Kext/cookie.h. What stands behind an unconditional `return` is
-- not reached, and left out. `fits` is whether the message of a callback is allocated.
pub mod Passing
pub mod Callbacks
pub mod Attach
pub mod Detach
pub mod Sockets
use watchfirewall.Prelude.{
  ℕ, ◌%◌, ◌^◌, ◌++◌, Bool, true, false, List, Option, none, some, ◌==◌, if◌then◌else◌, update,
}
use watchfirewall.Kernel.{Atomics}
use watchfirewall.Links.{Ptr, null}
use watchfirewall.Queue.{Queue}
use watchfirewall.Messages.{Message, Origin}
use watchfirewall.Messages.Address.{SockAddress}
use watchfirewall.Messages.Debug.{
  create_sflt_attach, create_sflt_detach, create_sflt_notify, create_sflt_get_peer_name,
  create_sflt_get_sock_name, create_sflt_data_in, create_sflt_data_out, create_sflt_connect_in,
  create_sflt_connect_out, create_sflt_bind, create_sflt_set_option, create_sflt_get_option,
  create_sflt_listen, create_sflt_ioctl, create_sflt_accept,
}
use watchfirewall.Rules.{release_rule}
use watchfirewall.Applications.{Applications, get, release_application}
use watchfirewall.Cookies.{SocketCookies, DeferredData, Action, add, remove, clear_deferred_data}
use watchfirewall.Firewall.{Firewall, Env, Errno, kern_success, enomem, send_all}

-- What a callback comes to: it returns, it accesses an object at NULL, or the fuel is too little.
pub data Outcome {ℓ} (A : Type ℓ) : Type ℓ where
  returns : A → Outcome A
  panics : Outcome A
  runs_out : Outcome A

abbrev pub succeeds : Outcome Firewall → Outcome (Errno × Firewall)
succeeds (returns fw) = returns (kern_success, fw)
succeeds panics = panics
succeeds runs_out = runs_out

abbrev pub within_fuel : Option Firewall → Outcome Firewall
within_fuel none = runs_out
within_fuel (some fw) = returns fw

-- firewall.Send(message); message->Release(); of a message that may be NULL, which Release accesses.
unfoldable pub tell : Env → Option Message → Firewall → Outcome Firewall
tell env none fw = panics
tell env (some m) fw = within_fuel (send_all env m fw)

-- if(firewall.countSubscribersForDebug) { ... }
unfoldable pub debug : Env → Option Message → Firewall → Outcome Firewall
debug env m fw = if fw.count_subscribers_for_debug == 0 then returns fw else tell env m fw

-- if(firewall.closing) return; and then the same.
unfoldable pub debug_open : Env → Option Message → Firewall → Outcome Firewall
debug_open env m fw = if fw.closing then returns fw else debug env m fw

pub record SocketCookie : Type 0 where
  pub application : Ptr
  pub state : ℕ
  pub socket : ℕ
  pub sock_domain : ℕ
  pub sock_type : ℕ
  pub sock_protocol : ℕ
  pub deferred : Queue DeferredData
  pub rule : Ptr
  pub from : Option (List ℕ)
  pub to : Option (List ℕ)

-- SocketCookieState.
abbrev pub socket_cookie_state_allowed : ℕ
socket_cookie_state_allowed = 4

-- What sock_gettype gives for a socket.
pub record SockKind : Type 0 where
  pub domain : ℕ
  pub type : ℕ
  pub protocol : ℕ

-- SetSocket: the fields are of 16 bits.
unfoldable pub set_socket : ℕ → SockKind → SocketCookie → SocketCookie
set_socket so kind c = record c {
  sock_domain = kind.domain % 2 ^ 16;
  sock_type = kind.type % 2 ^ 16;
  sock_protocol = kind.protocol % 2 ^ 16;
  socket = so;
}

-- SetFrom and SetTo: the old address is gone, and the new one is copied if there is memory for it.
unfoldable pub set_from : (fits : Bool) → List ℕ → SocketCookie → Bool × SocketCookie
set_from fits sa c = (fits, record c { from = if fits then some sa else none })

unfoldable pub set_to : (fits : Bool) → List ℕ → SocketCookie → Bool × SocketCookie
set_to fits sa c = (fits, record c { to = if fits then some sa else none })

-- The extension with the sockets' part: `mbufs` is what was done with held back data, oldest first.
pub record Extension : Type 0 where
  pub firewall : Firewall
  pub applications : Applications
  pub socket_cookies : SocketCookies
  pub cookie : Ptr → SocketCookie
  pub live : Ptr → Bool
  pub mbufs : List Action

-- Attach, once the application is there. `c` is what `new SocketCookie` gives, of bytes that are 0.
unfoldable pub attached : Ptr → ℕ → SockKind → Ptr → Extension → Extension
unfolding set_socket
attached c so kind application x =
    let links = x.socket_cookies.links in
    let empty : SocketCookie = record {
      application = application;
      state = 0;
      socket = 0;
      sock_domain = 0;
      sock_type = 0;
      sock_protocol = 0;
      deferred = record ((x.cookie c).deferred) { head = null; last = null };
      rule = null;
      from = none;
      to = none;
    } in
    record x {
      cookie =
          update x.cookie c
            (record (set_socket so kind empty) { state = socket_cookie_state_allowed });
      live = update x.live c true;
      socket_cookies = add c (record (x.socket_cookies) {
        links = record links { next = update links.next c null; prev = update links.prev c null };
      });
    }

-- The result with the cookie that is stored for the socket, where one is.
abbrev pub with_cookie :
    Ptr → Extension → Outcome Firewall → Outcome (Errno × Option Ptr × Extension)
with_cookie c x (returns fw) = returns (kern_success, some c, record x { firewall = fw })
with_cookie c x panics = panics
with_cookie c x runs_out = runs_out

-- Attach behind the call of Applications::Get, with its result.
unfoldable pub attach_got :
    Env
    → (fits : Bool) → Ptr
    → Origin
    → SockKind
    → Extension
    → Option (Ptr × Applications)
    → Outcome (Errno × Option Ptr × Extension)
unfolding attached
attach_got env fits c o kind x none = runs_out
attach_got env fits c o kind x (some (application, applications)) =
    let y : Extension = record x { applications = applications } in
    let z = attached c o.so kind application y in
    if application == null
    then returns (enomem, none, y)
    else with_cookie c z
        (debug env (create_sflt_attach fits o (z.cookie c).sock_protocol) z.firewall)

-- `c` and `a` are what `new SocketCookie` and `new Application()` give.
unfoldable pub attach :
    Atomics
    → Env
    → (fits : Bool) → (c a : Ptr) → Origin
    → SockKind
    → Extension
    → Outcome (Errno × Option Ptr × Extension)
attach os env fits c a o kind x =
    if x.firewall.closing
    then returns (enomem, none, x)
    else if c == null
    then returns (enomem, none, x)
    else attach_got env fits c o kind x (get os env.fuel a o.pid x.applications)

-- SocketCookie::Free behind the call of ClearDeferredData, with its result.
unfoldable pub free_cleared :
    Atomics → Ptr → Extension → Option (List Action × Queue DeferredData) → Option Extension
free_cleared os c x none = none
free_cleared os c x (some (actions, deferred)) =
    let cookie = x.cookie c in
    some (record x {
      cookie = update x.cookie c (record cookie { deferred = deferred; from = none; to = none });
      live = update x.live c false;
      mbufs = x.mbufs ++ actions;
      firewall =
          if cookie.rule == null
          then x.firewall
          else record (x.firewall) { rules = release_rule os cookie.rule x.firewall.rules };
      applications =
          if cookie.application == null
          then x.applications
          else release_application os cookie.application x.applications;
    })

unfoldable pub free_cookie : Atomics → ℕ → Ptr → Extension → Option Extension
free_cookie os fuel c x = free_cleared os c x (clear_deferred_data fuel (x.cookie c).deferred)

-- if(cookie) firewall.socketCookies.Remove(cookie)->Free();
unfoldable pub remove_cookie : Atomics → ℕ → Ptr → Extension → Option Extension
remove_cookie os fuel c x =
    if c == null
    then some x
    else free_cookie os fuel c (record x { socket_cookies = remove c x.socket_cookies })

abbrev pub with_firewall : Extension → Outcome Firewall → Outcome Extension
with_firewall x (returns fw) = returns (record x { firewall = fw })
with_firewall x panics = panics
with_firewall x runs_out = runs_out

-- Detach behind the removal of the cookie, with its result.
unfoldable pub detach_removed : Env → (fits : Bool) → Origin → Option Extension → Outcome Extension
detach_removed env fits o none = runs_out
detach_removed env fits o (some x) =
    with_firewall x (debug_open env (create_sflt_detach fits o) x.firewall)

unfoldable pub detach : Atomics → Env → (fits : Bool) → Ptr → Origin → Extension → Outcome Extension
detach os env fits c o x = detach_removed env fits o (remove_cookie os env.fuel c x)
