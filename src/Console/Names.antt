-- ===== src/Console/Names.antt =====
-- getSockStateName, getOptionName and getSockFamilyName of ConsoleTest/Console.cpp. The constants of the system's headers are
-- parameters, and so are the functions of its libraries.
use Prim.Native.String.{String}
use watchfirewall.Prelude.{ℕ, List, [], ◌∷◌, switch}

pub record Headers : Type 0 where
  pub af_unspec : ℕ
  pub af_unix : ℕ
  pub af_inet : ℕ
  pub af_implink : ℕ
  pub af_pup : ℕ
  pub af_chaos : ℕ
  pub af_ns : ℕ
  pub af_iso : ℕ
  pub af_ecma : ℕ
  pub af_datakit : ℕ
  pub af_ccitt : ℕ
  pub af_sna : ℕ
  pub af_decnet : ℕ
  pub af_dli : ℕ
  pub af_lat : ℕ
  pub af_hylink : ℕ
  pub af_appletalk : ℕ
  pub af_route : ℕ
  pub af_link : ℕ
  pub pseudo_af_xtp : ℕ
  pub af_coip : ℕ
  pub af_cnt : ℕ
  pub pseudo_af_rtip : ℕ
  pub af_ipx : ℕ
  pub af_sip : ℕ
  pub pseudo_af_pip : ℕ
  pub af_ndrv : ℕ
  pub af_isdn : ℕ
  pub pseudo_af_key : ℕ
  pub af_inet6 : ℕ
  pub af_natm : ℕ
  pub af_system : ℕ
  pub af_netbios : ℕ
  pub af_ppp : ℕ
  pub pseudo_af_hdrcmplt : ℕ
  pub af_reserved_36 : ℕ
  pub af_max : ℕ
  pub so_broadcast : ℕ
  pub so_oobinline : ℕ
  pub so_debug : ℕ
  pub so_reuseaddr : ℕ
  pub so_reuseport : ℕ
  pub so_keepalive : ℕ
  pub so_dontroute : ℕ
  pub so_linger : ℕ
  pub so_linger_sec : ℕ
  pub so_sndbuf : ℕ
  pub so_rcvbuf : ℕ
  pub so_sndlowat : ℕ
  pub so_rcvlowat : ℕ
  pub so_sndtimeo : ℕ
  pub so_rcvtimeo : ℕ
  pub so_nosigpipe : ℕ
  pub so_type : ℕ
  pub so_error : ℕ
  pub so_nread : ℕ
  pub so_nwrite : ℕ
  -- ntohs on the two bytes of a port, as they stand in memory, and the text that inet_ntop makes of an address of a family.
  pub ntohs : ℕ → ℕ
  pub inet_ntop : (family : ℕ) → List ℕ → List ℕ

abbrev pub sock_states : List (ℕ × String)
sock_states =
    (1, "connecting")
    ∷ (2, "connected")
    ∷ (3, "disconnecting")
    ∷ (4, "disconnected")
    ∷ (5, "flush_read")
    ∷ (6, "shutdown")
    ∷ (7, "cantrecvmore")
    ∷ (8, "cantsendmore")
    ∷ (9, "closing")
    ∷ (10, "bound")
    ∷ []

unfoldable pub get_sock_state_name : ℕ → String
unfolding switch
get_sock_state_name state = switch sock_states "" state

abbrev pub options : Headers → List (ℕ × String)
options h =
    (h.so_broadcast, "BROADCAST")
    ∷ (h.so_oobinline, "OOBINLINE")
    ∷ (h.so_debug, "DEBUG")
    ∷ (h.so_reuseaddr, "REUSEADDR")
    ∷ (h.so_reuseport, "REUSEPORT")
    ∷ (h.so_keepalive, "KEEPALIVE")
    ∷ (h.so_dontroute, "DONTROUTE")
    ∷ (h.so_linger, "LINGER")
    ∷ (h.so_linger_sec, "LINGER_SEC")
    ∷ (h.so_sndbuf, "SNDBUF")
    ∷ (h.so_rcvbuf, "RCVBUF")
    ∷ (h.so_sndlowat, "SNDLOWAT")
    ∷ (h.so_rcvlowat, "RCVLOWAT")
    ∷ (h.so_sndtimeo, "SNDTIMEO")
    ∷ (h.so_rcvtimeo, "RCVTIMEO")
    ∷ (h.so_nosigpipe, "NOSIGPIPE")
    ∷ (h.so_type, "TYPE")
    ∷ (h.so_error, "ERROR")
    ∷ (h.so_nread, "NREAD")
    ∷ (h.so_nwrite, "NWRITE")
    ∷ []

unfoldable pub get_option_name : Headers → ℕ → String
unfolding switch
get_option_name h option = switch (options h) "UNKNOWN OPTION" option

abbrev pub sock_families : Headers → List (ℕ × String)
sock_families h =
    (h.af_unspec, "UNSPEC")
    ∷ (h.af_unix, "UNIX/LOCAL")
    ∷ (h.af_inet, "INET")
    ∷ (h.af_implink, "IMPLINK")
    ∷ (h.af_pup, "PUP")
    ∷ (h.af_chaos, "CHAOS")
    ∷ (h.af_ns, "XEROX NS")
    ∷ (h.af_iso, "ISO/OSI")
    ∷ (h.af_ecma, "ECMA")
    ∷ (h.af_datakit, "DATAKIT")
    ∷ (h.af_ccitt, "CCITT")
    ∷ (h.af_sna, "SNA")
    ∷ (h.af_decnet, "DECnet")
    ∷ (h.af_dli, "DLI")
    ∷ (h.af_lat, "LAT")
    ∷ (h.af_hylink, "HYLINK")
    ∷ (h.af_appletalk, "APPLETALK")
    ∷ (h.af_route, "ROUTE")
    ∷ (h.af_link, "LINK")
    ∷ (h.pseudo_af_xtp, "pseudo_XTP")
    ∷ (h.af_coip, "COIP")
    ∷ (h.af_cnt, "CNT")
    ∷ (h.pseudo_af_rtip, "pseudo_RTIP")
    ∷ (h.af_ipx, "IPX")
    ∷ (h.af_sip, "SIP")
    ∷ (h.pseudo_af_pip, "pseudo_PIP")
    ∷ (h.af_ndrv, "NDRV")
    ∷ (h.af_isdn, "ISDN/E164")
    ∷ (h.pseudo_af_key, "pseudo_KEY")
    ∷ (h.af_inet6, "INET6")
    ∷ (h.af_natm, "NATM")
    ∷ (h.af_system, "SYSTEM")
    ∷ (h.af_netbios, "NETBIOS")
    ∷ (h.af_ppp, "PPP")
    ∷ (h.pseudo_af_hdrcmplt, "pseudo_HDRCMPLT")
    ∷ (h.af_reserved_36, "RESERVED_36")
    ∷ (h.af_max, "MAX")
    ∷ []

unfoldable pub get_sock_family_name : Headers → ℕ → String
unfolding switch
get_sock_family_name h fn = switch (sock_families h) "" fn
