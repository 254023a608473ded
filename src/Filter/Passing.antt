-- ===== src/Filter/Passing.antt =====
-- The callbacks of the socket filter that leave a socket as it is (Kext/firewall.cpp): each of them only tells those who
-- listen for debug messages.
use watchfirewall.Prelude.{ℕ, Bool, Option, ◌==◌, if◌then◌else◌}
use watchfirewall.Links.{Ptr, null}
use watchfirewall.Messages.{Message, Origin}
use watchfirewall.Messages.Address.{SockAddress}
use watchfirewall.Messages.Debug.{
  create_sflt_notify, create_sflt_get_peer_name, create_sflt_get_sock_name, create_sflt_data_in,
  create_sflt_data_out, create_sflt_connect_in, create_sflt_connect_out, create_sflt_bind,
  create_sflt_set_option, create_sflt_get_option, create_sflt_listen, create_sflt_ioctl,
  create_sflt_accept,
}
use watchfirewall.Firewall.{Firewall, Env, Errno}
use watchfirewall.Filter.{Outcome, returns, panics, succeeds, tell, debug_open, SocketCookie}

module _ (env : Env) (fits : Bool) (o : Origin) where
  unfoldable pub notify : (event : ℕ) → Firewall → Outcome Firewall
  notify event fw = debug_open env (create_sflt_notify fits o event) fw

  unfoldable pub get_peer_name : Option SockAddress → Firewall → Outcome (Errno × Firewall)
  get_peer_name sa fw = succeeds (debug_open env (create_sflt_get_peer_name fits o sa) fw)

  unfoldable pub get_sock_name : Option SockAddress → Firewall → Outcome (Errno × Firewall)
  get_sock_name sa fw = succeeds (debug_open env (create_sflt_get_sock_name fits o sa) fw)

  -- The message takes the protocol from the cookie, which may be NULL.
  abbrev pub debug_cookie :
      (ℕ → Option Message) → Ptr → (Ptr → SocketCookie) → Firewall → Outcome Firewall
  debug_cookie create c cookies fw =
      if fw.closing
      then returns fw
      else if fw.count_subscribers_for_debug == 0
      then returns fw
      else if c == null
      then panics
      else tell env (create (cookies c).sock_protocol) fw

  unfoldable pub data_in :
      Ptr → (Ptr → SocketCookie) → Option SockAddress → Firewall → Outcome (Errno × Firewall)
  data_in c cookies from fw =
      succeeds (debug_cookie (λ proto. create_sflt_data_in fits o proto from) c cookies fw)

  unfoldable pub data_out :
      Ptr → (Ptr → SocketCookie) → Option SockAddress → Firewall → Outcome (Errno × Firewall)
  data_out c cookies to fw =
      succeeds (debug_cookie (λ proto. create_sflt_data_out fits o proto to) c cookies fw)

  unfoldable pub connect_in : Option SockAddress → Firewall → Outcome (Errno × Firewall)
  connect_in from fw = succeeds (debug_open env (create_sflt_connect_in fits o from) fw)

  unfoldable pub connect_out : Option SockAddress → Firewall → Outcome (Errno × Firewall)
  connect_out to fw = succeeds (debug_open env (create_sflt_connect_out fits o to) fw)

  unfoldable pub bind : Option SockAddress → Firewall → Outcome (Errno × Firewall)
  bind to fw = succeeds (debug_open env (create_sflt_bind fits o to) fw)

  unfoldable pub set_option : (option_name : ℕ) → Firewall → Outcome (Errno × Firewall)
  set_option name fw = succeeds (debug_open env (create_sflt_set_option fits o name) fw)

  unfoldable pub get_option : (option_name : ℕ) → Firewall → Outcome (Errno × Firewall)
  get_option name fw = succeeds (debug_open env (create_sflt_get_option fits o name) fw)

  unfoldable pub listen : Firewall → Outcome (Errno × Firewall)
  listen fw = succeeds (debug_open env (create_sflt_listen fits o) fw)

  unfoldable pub ioctl : (request : ℕ) → Firewall → Outcome (Errno × Firewall)
  ioctl request fw = succeeds (debug_open env (create_sflt_ioctl fits o request) fw)

  unfoldable pub accept :
      (so_listen : ℕ) → (local remote : Option SockAddress) → Firewall → Outcome (Errno × Firewall)
  accept so_listen local remote fw =
      succeeds (debug_open env (create_sflt_accept fits o so_listen local remote) fw)
