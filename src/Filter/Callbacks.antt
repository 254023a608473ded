-- ===== src/Filter/Callbacks.antt =====
-- The callbacks of the socket filter that leave a socket as it is (Kext/firewall.cpp): what each of them does.
use watchfirewall.Prelude.{
  ℕ, ◌<◌, ◌≡◌, ◌≢◌, refl, ap, Bool, true, false, List, Option, none, some, ◌==◌, ◌||◌,
  if◌then◌else◌, length, ==-ne, Bool-cases, inl, inr,
}
use watchfirewall.Links.{Ptr, null}
use watchfirewall.Messages.{Message, Origin}
use watchfirewall.Messages.Address.{SockAddress}
use watchfirewall.Messages.Types.{
  message_type_sflt_notify, message_type_sflt_get_peer_name, message_type_sflt_get_sock_name,
  message_type_sflt_connect_in, message_type_sflt_connect_out, message_type_sflt_bind,
  message_type_sflt_data_in, message_type_sflt_data_out, message_type_sflt_set_option,
  message_type_sflt_get_option, message_type_sflt_listen, message_type_sflt_ioctl,
  message_type_sflt_accept,
}
use watchfirewall.Messages.Debug.{
  create_sflt_notify, create_sflt_get_peer_name, create_sflt_get_sock_name, create_sflt_data_in,
  create_sflt_data_out, create_sflt_connect_in, create_sflt_connect_out, create_sflt_bind,
  create_sflt_set_option, create_sflt_get_option, create_sflt_listen, create_sflt_ioctl,
  create_sflt_accept,
}
use watchfirewall.Firewall.{Firewall, Env, Errno, kern_success}
use watchfirewall.Firewall.Broadcast.{HasClients, reached, send_all-reached}
use watchfirewall.Filter.{Outcome, returns, panics, succeeds, tell, debug, debug_open, SocketCookie}
use watchfirewall.Filter.Passing.{
  debug_cookie, notify, get_peer_name, get_sock_name, data_in, data_out, connect_in, connect_out,
  bind, set_option, get_option, listen, ioctl, accept,
}

-- A call of the kernel of such a callback, with the arguments that the callback uses.
pub data Event : Type 0 where
  notified : (event : ℕ) → Event
  asks_peer_name : Option SockAddress → Event
  asks_sock_name : Option SockAddress → Event
  data_comes : (cookie : Ptr) → Option SockAddress → Event
  data_goes : (cookie : Ptr) → Option SockAddress → Event
  is_connected : Option SockAddress → Event
  connects : Option SockAddress → Event
  binds : Option SockAddress → Event
  sets_option : (option_name : ℕ) → Event
  gets_option : (option_name : ℕ) → Event
  listens : Event
  controls : (request : ℕ) → Event
  accepts : (so_listen : ℕ) → (local remote : Option SockAddress) → Event

-- Whether the callback reads a cookie that is NULL.
abbrev pub lacks_cookie : Event → Bool
lacks_cookie (data_comes c sa) = c == null
lacks_cookie (data_goes c sa) = c == null
lacks_cookie e = false

abbrev pub type_of : Event → ℕ
type_of (notified event) = message_type_sflt_notify
type_of (asks_peer_name sa) = message_type_sflt_get_peer_name
type_of (asks_sock_name sa) = message_type_sflt_get_sock_name
type_of (data_comes c sa) = message_type_sflt_data_in
type_of (data_goes c sa) = message_type_sflt_data_out
type_of (is_connected sa) = message_type_sflt_connect_in
type_of (connects sa) = message_type_sflt_connect_out
type_of (binds sa) = message_type_sflt_bind
type_of (sets_option name) = message_type_sflt_set_option
type_of (gets_option name) = message_type_sflt_get_option
type_of listens = message_type_sflt_listen
type_of (controls request) = message_type_sflt_ioctl
type_of (accepts so_listen local remote) = message_type_sflt_accept

module _ (env : Env) (fits : Bool) (o : Origin) (cookies : Ptr → SocketCookie) where
  -- sfltFilter, the table of the callbacks. Notify returns nothing.
  unfoldable pub call : Event → Firewall → Outcome (Errno × Firewall)
  call (notified event) fw = succeeds (notify env fits o event fw)
  call (asks_peer_name sa) fw = get_peer_name env fits o sa fw
  call (asks_sock_name sa) fw = get_sock_name env fits o sa fw
  call (data_comes c sa) fw = data_in env fits o c cookies sa fw
  call (data_goes c sa) fw = data_out env fits o c cookies sa fw
  call (is_connected sa) fw = connect_in env fits o sa fw
  call (connects sa) fw = connect_out env fits o sa fw
  call (binds sa) fw = bind env fits o sa fw
  call (sets_option name) fw = set_option env fits o name fw
  call (gets_option name) fw = get_option env fits o name fw
  call listens fw = listen env fits o fw
  call (controls request) fw = ioctl env fits o request fw
  call (accepts so_listen local remote) fw = accept env fits o so_listen local remote fw

-- Whether a callback makes a message at all.
abbrev pub is_silent : Firewall → Bool
is_silent fw = fw.closing || fw.count_subscribers_for_debug == 0

unless_silent :
    (fw r : Firewall) (closing alone : Bool) (t : Outcome Firewall)
    → t ≡ returns r
    → (if closing then returns fw else if alone then returns fw else t)
      ≡ returns (if closing || alone then fw else r)
unless_silent fw r true alone t e = refl
unless_silent fw r false true t e = refl
unless_silent fw r false false t e = e

module _ (env : Env) (fw : Firewall) (xs : List Ptr) (is : HasClients fw xs)
    (h : length xs < env.fuel) where
  pub tell-reached : (m : Message) → tell env (some m) fw ≡ returns (reached env m xs fw)
  unfolding tell
  tell-reached m = rw (send_all-reached env m fw xs is h) refl

  pub debug-reached :
      (m : Message)
      → debug env (some m) fw
        ≡ returns (if fw.count_subscribers_for_debug == 0 then fw else reached env m xs fw)
  unfolding debug
  debug-reached m =
      unless_silent fw _ false (fw.count_subscribers_for_debug == 0) _ (tell-reached m)

  pub debug_open-reached :
      (m : Message)
      → debug_open env (some m) fw ≡ returns (if is_silent fw then fw else reached env m xs fw)
  unfolding debug_open debug
  debug_open-reached m =
      unless_silent fw _ fw.closing (fw.count_subscribers_for_debug == 0) _ (tell-reached m)

  debug_cookie-reached :
      (o : Origin) (create : ℕ → Option Message) (c : Ptr) (cookies : Ptr → SocketCookie)
      (m : Message)
      → (c == null) ≡ false
      → create (cookies c).sock_protocol ≡ some m
      → debug_cookie env true o create c cookies fw
        ≡ returns (if is_silent fw then fw else reached env m xs fw)
  debug_cookie-reached o create c cookies m n e =
      unless_silent fw _ fw.closing (fw.count_subscribers_for_debug == 0) _
        (rw (n, e) (tell-reached m))

  -- Where a message can be made, each callback but Attach, Detach and Unregistered returns KERN_SUCCESS, so that the kernel goes on with what the
  -- socket was about to do, and changes nothing but the queues of the clients: while the extension is
  -- closing or nobody listens for debug messages, not even those; otherwise each client is offered,
  -- once, one message of the callback's type. A cookie must be there where the callback reads it. The loop
  -- over the clients ends with fuel for one more than they are.
  pub call-reached :
      (o : Origin) (cookies : Ptr → SocketCookie) (e : Event)
      → lacks_cookie e ≡ false
      → (m : Message) × (m.type ≡ type_of e)
        × (call env true o cookies e fw
            ≡ returns (kern_success, if is_silent fw then fw else reached env m xs fw))
  unfolding call notify get_peer_name get_sock_name data_in data_out connect_in connect_out bind
      set_option get_option listen ioctl accept create_sflt_notify create_sflt_get_peer_name
      create_sflt_get_sock_name create_sflt_data_in create_sflt_data_out create_sflt_connect_in
      create_sflt_connect_out create_sflt_bind create_sflt_set_option create_sflt_get_option
      create_sflt_listen create_sflt_ioctl create_sflt_accept
  call-reached o cookies (notified event) l = (_, refl, ap succeeds (debug_open-reached _))
  call-reached o cookies (asks_peer_name sa) l = (_, refl, ap succeeds (debug_open-reached _))
  call-reached o cookies (asks_sock_name sa) l = (_, refl, ap succeeds (debug_open-reached _))
  call-reached o cookies (data_comes c sa) l = (
    _,
    refl,
    ap succeeds
        (debug_cookie-reached o (λ proto. create_sflt_data_in true o proto sa) c cookies _ l refl),
  )
  call-reached o cookies (data_goes c sa) l = (
    _,
    refl,
    ap succeeds
        (debug_cookie-reached o (λ proto. create_sflt_data_out true o proto sa) c cookies _ l refl),
  )
  call-reached o cookies (is_connected sa) l = (_, refl, ap succeeds (debug_open-reached _))
  call-reached o cookies (connects sa) l = (_, refl, ap succeeds (debug_open-reached _))
  call-reached o cookies (binds sa) l = (_, refl, ap succeeds (debug_open-reached _))
  call-reached o cookies (sets_option name) l = (_, refl, ap succeeds (debug_open-reached _))
  call-reached o cookies (gets_option name) l = (_, refl, ap succeeds (debug_open-reached _))
  call-reached o cookies listens l = (_, refl, ap succeeds (debug_open-reached _))
  call-reached o cookies (controls request) l = (_, refl, ap succeeds (debug_open-reached _))
  call-reached o cookies (accepts so_listen local remote) l =
      (_, refl, ap succeeds (debug_open-reached _))

module _ (env : Env) (fw : Firewall) (running : fw.closing ≡ false)
    (n : fw.count_subscribers_for_debug ≢ 0) where
  pub debug_open-panics : debug_open env none fw ≡ panics
  unfolding debug_open debug tell
  debug_open-panics = rw (running, ==-ne fw.count_subscribers_for_debug 0 n) refl

  debug_cookie-panics :
      (o : Origin) (create : ℕ → Option Message) (c : Ptr) (cookies : Ptr → SocketCookie)
      → create (cookies c).sock_protocol ≡ none
      → debug_cookie env false o create c cookies fw ≡ panics
  unfolding tell
  debug_cookie-panics o create c cookies e = elim (Bool-cases (c == null)) [
    | inl z ↦ rw (running, ==-ne fw.count_subscribers_for_debug 0 n, z) refl
    | inr z ↦ rw (running, ==-ne fw.count_subscribers_for_debug 0 n, z, e) refl
  ]

  -- While the extension is not closing and somebody listens for debug messages, each callback but Attach, Detach and Unregistered whose message can not
  -- be allocated accesses an object at NULL: the result of Create is not tested.
  pub call-panics :
      (o : Origin) (cookies : Ptr → SocketCookie) (e : Event)
      → call env false o cookies e fw ≡ panics
  unfolding call notify get_peer_name get_sock_name data_in data_out connect_in connect_out bind
      set_option get_option listen ioctl accept create_sflt_notify create_sflt_get_peer_name
      create_sflt_get_sock_name create_sflt_data_in create_sflt_data_out create_sflt_connect_in
      create_sflt_connect_out create_sflt_bind create_sflt_set_option create_sflt_get_option
      create_sflt_listen create_sflt_ioctl create_sflt_accept
  call-panics o cookies (notified event) = ap succeeds debug_open-panics
  call-panics o cookies (asks_peer_name sa) = ap succeeds debug_open-panics
  call-panics o cookies (asks_sock_name sa) = ap succeeds debug_open-panics
  call-panics o cookies (data_comes c sa) =
      ap succeeds
        (debug_cookie-panics o (λ proto. create_sflt_data_in false o proto sa) c cookies refl)
  call-panics o cookies (data_goes c sa) =
      ap succeeds
        (debug_cookie-panics o (λ proto. create_sflt_data_out false o proto sa) c cookies refl)
  call-panics o cookies (is_connected sa) = ap succeeds debug_open-panics
  call-panics o cookies (connects sa) = ap succeeds debug_open-panics
  call-panics o cookies (binds sa) = ap succeeds debug_open-panics
  call-panics o cookies (sets_option name) = ap succeeds debug_open-panics
  call-panics o cookies (gets_option name) = ap succeeds debug_open-panics
  call-panics o cookies listens = ap succeeds debug_open-panics
  call-panics o cookies (controls request) = ap succeeds debug_open-panics
  call-panics o cookies (accepts so_listen local remote) = ap succeeds debug_open-panics
